-- ===== src/RequestLog/Unread.antt =====
-- What log_request writes, log2csv does not read.
use Prim.Native.String.{◌++◌}
use mlab_ns.Base.{
  String, Option, none, some, List, [], ◌∷◌, inl, inr, map, ◌≡◌, refl, sym, ap, ◌∙◌, subst, All,
}
use mlab_ns.Base.Text.{split}
use mlab_ns.Base.Regex.Matches.{attach, attach-append}
use mlab_ns.Model.{SliverTool}
use mlab_ns.Request.{Request, LookupQuery}
use mlab_ns.Query.Fields.{IsFamily}
use mlab_ns.RequestLog.{Texts, or_none, log_request, RequestEntry, row_of, log2csv_from, log2csv}

-- The entry is passed over.
abbrev Unread : Option String → String → RequestEntry → Option (List String) → Type 0
Unread family rest r o =
    row_of (split b',' (attach "[lookup]" (attach (or_none family) (attach "," rest)))) r o ≡ o

-- The first word of an entry ends with the address family.
row_of-entry :
    (family : Option String) (rest : String) (r : RequestEntry) (o : Option (List String))
    → IsFamily family
    → row_of (split b',' ("[lookup]" ++ (or_none family ++ ("," ++ rest)))) r o ≡ o
row_of-entry family rest r o h =
    subst (λ s. row_of (split b',' s) r o ≡ o)
      (attach-append "[lookup]" _
        ∙ ap (λ s. "[lookup]" ++ s)
            (attach-append (or_none family) _
              ∙ ap (λ s. or_none family ++ s) (attach-append "," rest)))
      (by_family family h)
  where
    by_family : (family : Option String) → IsFamily family → Unread family rest r o
    by_family none h = refl
    by_family (some f) (inl e) = absurd (cc)
    by_family (some f) (inr (inl e)) = subst (λ a. Unread a rest r o) (sym e) refl
    by_family (some f) (inr (inr e)) = subst (λ a. Unread a rest r o) (sym e) refl

module _ {F : Type 0} (texts : Texts F) where
  -- A request, its query and the answer.
  abbrev pub Lookup : Type 0
  Lookup = Request × LookupQuery F × List (SliverTool F)

  -- Of a request whose entries are all lookups, with an address family as every query has one, no
  -- row is made: an entry begins with '[lookup]' and the address family, without a comma between.
  pub log2csv_unread :
      (lookups : List Lookup) (latency user_agent : String)
      → All (λ (l : Lookup). IsFamily l.1.tool_address_family) lookups
      → log2csv (record {
        messages = map (λ (l : Lookup). log_request texts l.0 l.1 l.2) lookups;
        latency = latency;
        user_agent = user_agent;
      })
        ≡ none
  unfolding log2csv log2csv_from log_request
  log2csv_unread lookups latency user_agent h = unread lookups _ h
    where
      unread :
          (ls : List Lookup) (r : RequestEntry)
          → All (λ (l : Lookup). IsFamily l.1.tool_address_family) ls
          → log2csv_from (map (λ (l : Lookup). log_request texts l.0 l.1 l.2) ls) r ≡ none
      unread [] r h = refl
      unread ((request, q, ts) ∷ ls) r (f, h) =
          row_of-entry q.tool_address_family _ r _ f ∙ unread ls r h
