-- ===== src/Application/Routes.antt =====
-- server/main.py: which handler answers at a path.
use text.Mathlib.TextEquality.{Char-path, eq_iff}
use mlab_ns.Base.{
  ℕ, String, code, Bool, true, false, Option, none, some, List, [], ◌∷◌, nat_eq, ◌==◌,
  if◌then◌else◌, if_elim, ◌≡◌, ◌⊎◌, inl, inr, refl, sym, ap, ◌∙◌, subst, arith,
}
use mlab_ns.Base.Regex.{Regex, seq, at_end, Groups, match_from, re_match}
use mlab_ns.Base.Regex.Matches.{AllOf, match_many_of, match_seq_of, match_end_of, Matches}
use mlab_ns.Fqdn.{begins_with}
use mlab_ns.Fqdn.RoundTrip.{attach_nil}
use mlab_ns.Request.{Request}
use mlab_ns.Store.{Store}
use mlab_ns.Application.{
  Handler, admin, check_status, check_site, count_request_signatures, reload_maxmind_db, privacy,
  docs, warmup, lookup, literal, any, routes, Webapp, Setting, handle_found, serve,
}

-- The handler of a path, from the texts of the routes.
unfoldable pub handler_of : String → Option Handler
handler_of path =
    if path == "/"
    then some admin
    else if begins_with "/admin" path
    then some admin
    else if path == "/cron/check_status"
    then some check_status
    else if path == "/cron/check_site"
    then some check_site
    else if path == "/cron/count_request_signatures"
    then some count_request_signatures
    else if path == "/reload_maxminddb"
    then some reload_maxmind_db
    else if path == "/privacy"
    then some privacy
    else if path == "/docs"
    then some docs
    else if path == "/_ah/warmup"
    then some warmup
    else if begins_with "/" path
    then some lookup
    else none

abbrev pub not_newline : ℕ → Bool
not_newline c = if nat_eq c 10 then false else true

module _ (gs : Groups) (k : String → Groups → Option Groups) where
  literal-at_end_matched : (t : String) → match_from (literal t at_end) t gs k ≡ k "" gs
  unfolding match_from
  literal-at_end_matched String.[] = refl
  literal-at_end_matched (String.◌∷◌ a t) =
      let same : nat_eq (code a) (code a) ≡ true = ground arith in
      rw same (literal-at_end_matched t)

  literal-at_end :
      (t p : String) → AllOf not_newline p → (match_from (literal t at_end) p gs k ≡ none) ⊎ (p ≡ t)
  unfolding match_from
  literal-at_end String.[] String.[] h = inr refl
  literal-at_end String.[] (String.◌∷◌ c p) (h, _) =
      let other : nat_eq (code c) 10 ≡ false = ground (arith, h) in inl (rw other refl)
  literal-at_end (String.◌∷◌ a t) String.[] h = inl refl
  literal-at_end (String.◌∷◌ a t) (String.◌∷◌ c p) (_, h) =
      if_elim (λ o. (o ≡ none) ⊎ (String.◌∷◌ c p ≡ String.◌∷◌ a t)) (nat_eq (code c) (code a)) _ _
        (λ same. elim (literal-at_end t p h) [
          | inl e ↦ inl e
          | inr e ↦ inr (
              ap (String.◌∷◌ c) e ∙ ap (λ d. String.◌∷◌ d t) (Char-path c a (ground (arith, same))))
        ])
        (λ _. inl refl)

any-Matches :
    (p : String) → AllOf not_newline p → Matches (seq any at_end) p [] (λ rest gs. some gs) []
any-Matches p h =
    subst (λ s. Matches (seq any at_end) s [] (λ rest gs. some gs) []) (attach_nil p)
      (match_seq_of (match_many_of p "" h tt (match_end_of refl).found))

literal-any :
    (t p : String)
    → AllOf not_newline p
    → match_from (literal t (seq any at_end)) p [] (λ rest gs. some gs)
      ≡ (if begins_with t p then some [] else none)
unfolding match_from
literal-any String.[] p h = (any-Matches p h).found
literal-any (String.◌∷◌ a t) String.[] h = refl
literal-any (String.◌∷◌ a t) (String.◌∷◌ c p) (_, h) =
    if_elim (λ o. o ≡ (if begins_with (String.◌∷◌ a t) (String.◌∷◌ c p) then some [] else none))
      (nat_eq (code c) (code a)) _ _
      (λ e.
        let same : nat_eq (code a) (code c) ≡ true = ground (arith, e) in
        rw same (literal-any t p h))
      (λ e. let differs : nat_eq (code a) (code c) ≡ false = ground (arith, e) in rw differs refl)

-- The documented way of webapp: the first route whose pattern matches the path.
pub record TakesFirst (select : Webapp) : Type 0 where
  pub select_none : (path : String) → select [] path ≡ none
  pub select_matched :
      (r : Regex) (h : Handler) (rs : List (Regex × Handler)) (path : String) (gs : Groups)
      → re_match r path ≡ some gs
      → select ((r, h) ∷ rs) path ≡ some h
  pub select_passed :
      (r : Regex) (h : Handler) (rs : List (Regex × Handler)) (path : String)
      → re_match r path ≡ none
      → select ((r, h) ∷ rs) path ≡ select rs path

module _ (select : Webapp) (first : TakesFirst select) (path : String)
    (line : AllOf not_newline path) where
  route_text :
      (t : String) (h : Handler) (rs : List (Regex × Handler)) (o : Option Handler)
      → select rs path ≡ o
      → select ((literal t at_end, h) ∷ rs) path ≡ (if path == t then some h else o)
  unfolding re_match
  route_text t h rs o e =
      if_elim (λ r. select ((literal t at_end, h) ∷ rs) path ≡ r) (path == t) _ _
        (λ same.
          let e' : path ≡ t = (eq_iff path t).0 same in
          first.select_matched _ h rs path [] (
            subst (λ p. re_match (literal t at_end) p ≡ some []) (sym e')
              (literal-at_end_matched [] _ t)))
        (λ differs. elim (literal-at_end [] (λ rest gs. some gs) t path line) [
          | inl e' ↦ first.select_passed _ h rs path e' ∙ e
          | inr e' ↦ absurd (cc (differs, (eq_iff path t).1 e'))
        ])

  route_any :
      (t : String) (h : Handler) (rs : List (Regex × Handler)) (o : Option Handler)
      → select rs path ≡ o
      → select ((literal t (seq any at_end), h) ∷ rs) path
        ≡ (if begins_with t path then some h else o)
  unfolding re_match
  route_any t h rs o e =
      if_elim (λ r. select ((literal t (seq any at_end), h) ∷ rs) path ≡ r) (begins_with t path) _ _
        (λ found. first.select_matched _ h rs path [] (literal-any t path line ∙ rw found refl))
        (λ other. first.select_passed _ h rs path (literal-any t path line ∙ rw other refl) ∙ e)

  select-routes : select routes path ≡ handler_of path
  unfolding routes handler_of
  select-routes = route_text "/" admin _ _ (
      route_any "/admin" admin _ _ (
        route_text "/cron/check_status" check_status _ _ (
          route_text "/cron/check_site" check_site _ _ (
            route_text "/cron/count_request_signatures" count_request_signatures _ _ (
              route_text "/reload_maxminddb" reload_maxmind_db _ _ (
                route_text "/privacy" privacy _ _ (
                  route_text "/docs" docs _ _ (
                    route_text "/_ah/warmup" warmup _ _
                      (route_any "/" lookup _ _ (first.select_none path))))))))))

-- Where webapp takes the first route whose pattern matches the path, a GET request to a path on one
-- line is served by the handler that main.py means: AdminHandler at / and wherever the path begins
-- with /admin, each of the other handlers at its own path alone, and LookupHandler at every other
-- path that begins with /.
pub serve_routes :
    {F G : Type 0} (select : Webapp)
    → TakesFirst select
    → (x : Setting F G) (r : Request) (s : Store F) → AllOf not_newline r.path
    → serve x select r s ≡ handle_found x (handler_of r.path) r s
unfolding serve
serve_routes select first x r s line =
    ap (λ o. handle_found x o r s) (select-routes select first r.path line)
