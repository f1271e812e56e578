-- ===== src/System/Sound.antt =====
-- What holds of every state that the system reaches.
use mlab_ns.Base.{
  ℕ, String, Bool, none, some, List, [], ◌∷◌, ◌++◌, map, ◌≡◌, refl, subst, if_elim, All, All-append,
  All_append_left, All-map, All-map_of, All-Memᴰ, Apart,
}
use mlab_ns.Base.Dict.{lookup, insert, values, insert-found, All-insert, OtherKey, Apart-insert}
use mlab_ns.Model.{SliverTool}
use mlab_ns.Fetcher.{datastore_fetch}
use mlab_ns.Status.{
  SliceStatus, Write, put, cache, update_tools, all_of_tool, writes_of, update_sliver_tools_status,
}
use mlab_ns.Status.Kept.{IsStatic, update_tools_ipv4-All, update_tools_ipv6-All}
use mlab_ns.IpUpdate.Keyed.{HasKey, update_rows-Keyed}
use mlab_ns.Store.{
  Store, Platform, DatastoreLaws, Outcome, stored_slivers, env_of, put_tools, apply_write,
}
use mlab_ns.System.{
  State, Family, ipv4, ipv6, family_text, Step, status, addresses, write, site, load, evict, Reach,
  here, next,
}

module _ {F : Type 0} where
  -- A sliver of the tool, under the key of its ids.
  abbrev pub IsOfTool : String → SliverTool F → Type 0
  IsOfTool id t = (t.tool_id ≡ id) × HasKey t

  abbrev pub IsEntry : String × SliverTool F → Type 0
  IsEntry e = (e.1.key_name ≡ e.0) × HasKey e.1

  abbrev pub IsSoundCache : List (String × List (SliverTool F)) → Type 0
  IsSoundCache c =
      (id : String) (ts : List (SliverTool F)) → lookup id c ≡ some ts → All (IsOfTool id) ts

  abbrev pub IsSoundWrite : Write F → Type 0
  IsSoundWrite (put ts) = All HasKey ts
  IsSoundWrite (cache id ts) = All (IsOfTool id) ts

  -- Every sliver is stored once, under its key, which is that of its ids; memcache holds under a
  -- tool's id slivers of that tool only; and the writes under way keep it so.
  pub record IsSound (s : State F) : Type 0 where
    pub entries : All IsEntry s.store.slivers
    pub keys : Apart OtherKey s.store.slivers
    pub cached : IsSoundCache s.store.tools_cache
    pub writes : All IsSoundWrite s.pending

  -- The ids and the key of a sliver stay in a status update.
  IsOfTool-IsStatic : (id : String) → IsStatic (IsOfTool id)
  IsOfTool-IsStatic id = record {
    ipv4 = λ t status extra h. h;
    ipv6 = λ t status extra h. h;
    stamped = λ t n h. h;
  }

  pub update_tools-All :
      (P : SliverTool F → Type 0) (static : IsStatic P) (now : SliverTool F → ℕ) (family : Family)
      (known : SliceStatus) (ts : List (SliverTool F))
      → All P ts
      → All P (update_tools (family_text family) now known ts)
  update_tools-All P static now ipv4 known ts h = update_tools_ipv4-All P static now known ts h
  update_tools-All P static now ipv6 known ts h = update_tools_ipv6-All P static now known ts h

  writes_of-IsSoundWrite :
      (id : String) (ts : List (SliverTool F))
      → All (IsOfTool id) ts
      → All IsSoundWrite (writes_of id ts)
  writes_of-IsSoundWrite id [] h = tt
  writes_of-IsSoundWrite id (t ∷ ts) h =
      (All-map (IsOfTool id) HasKey (t ∷ ts) (λ u p. p.1) h, (h, tt))

  pub values-All :
      (P : SliverTool F → Type 0) (d : List (String × SliverTool F))
      → All (λ e. P e.1) d
      → All P (values d)
  values-All P d = All-map_of (λ e. P e.1) P (λ e. e.1) d (λ e p. p)

  put_tools-IsEntry :
      (stores : SliverTool F → Bool) (ts : List (SliverTool F)) (d : List (String × SliverTool F))
      → All HasKey ts
      → All IsEntry d × Apart OtherKey d
      → All IsEntry (put_tools stores ts d) × Apart OtherKey (put_tools stores ts d)
  unfolding put_tools
  put_tools-IsEntry stores [] d h k = k
  put_tools-IsEntry stores (t ∷ ts) d (p, h) k = put_tools-IsEntry stores ts _ h (
      if_elim (λ e. All IsEntry e × Apart OtherKey e) (stores t) _ d
        (λ _. (All-insert IsEntry t.key_name t d (refl, p) k.0, Apart-insert t.key_name t d k.1))
        (λ _. k))

  insert-IsSoundCache :
      (id : String) (ts : List (SliverTool F)) (c : List (String × List (SliverTool F)))
      → All (IsOfTool id) ts
      → IsSoundCache c
      → IsSoundCache (insert id ts c)
  insert-IsSoundCache id ts c h k = insert-found (λ j us. All (IsOfTool j) us) id ts c h k

  apply_write-IsSound :
      (o : Outcome F) (w : Write F) (s : Store F) (before after : List (Write F))
      → IsSoundWrite w
      → IsSound (record { store = s; pending = before ++ after })
      → IsSound (record { store = apply_write o w s; pending = before ++ after })
  unfolding apply_write
  apply_write-IsSound o (put ts) s before after h v =
      let (entries, keys) = put_tools-IsEntry o.stores ts s.slivers h (v.entries, v.keys) in
      record { entries = entries; keys = keys; cached = v.cached; writes = v.writes }
  apply_write-IsSound o (cache id ts) s before after h v =
      if_elim (λ r. IsSound (record { store = r; pending = before ++ after })) o.caches _ s
        (λ _. record {
          entries = v.entries;
          keys = v.keys;
          cached = insert-IsSoundCache id ts s.tools_cache h v.cached;
          writes = v.writes;
        })
        (λ _. v)

  pub All_append_right :
      (P : Write F → Type 0) (xs ys : List (Write F)) → All P (xs ++ ys) → All P ys
  All_append_right P [] ys h = h
  All_append_right P (x ∷ xs) ys (p, h) = All_append_right P xs ys h

  put_each-IsSoundWrite :
      (ts : List (SliverTool F)) → All HasKey ts → All IsSoundWrite (map (λ t. put (t ∷ [])) ts)
  put_each-IsSoundWrite ts h =
      All-map_of HasKey IsSoundWrite (λ t. put (t ∷ [])) ts (λ t p. (p, tt)) h

module _ {F G : Type 0} (p : Platform F G) (laws : DatastoreLaws p.datastore) where
  fetched-IsOfTool :
      (s : State F) (id : String) (g : G)
      → IsSound s
      → All (IsOfTool id) (datastore_fetch (env_of p s.store) (all_of_tool id) g).0
  unfolding datastore_fetch
  fetched-IsOfTool s id g v =
      let stored =
        values-All HasKey s.store.slivers
          (All-map IsEntry (λ e. HasKey e.1) _ (λ e q. q.1) v.entries) in
      All-map _ (IsOfTool id) _ (λ t q. (q.1.0, All-Memᴰ HasKey stored q.0))
        (laws.select_answers (stored_slivers s.store)
          (record { tool_id = id; site_ids = none; country = none }))

  pub Step-IsSound : {s t : State F} → Step p s t → IsSound s → IsSound t
  unfolding update_sliver_tools_status
  Step-IsSound {s} (status family id known now g) v = record {
    entries = v.entries;
    keys = v.keys;
    cached = v.cached;
    writes = All-append IsSoundWrite s.pending _ v.writes (
        writes_of-IsSoundWrite id _ (
          update_tools-All (IsOfTool id) (IsOfTool-IsStatic id) now family known _
            (fetched-IsOfTool s id g v)));
  }
  Step-IsSound {s} (addresses now production rows) v =
      let stored =
        values-All HasKey s.store.slivers
          (All-map IsEntry (λ e. HasKey e.1) _ (λ e q. q.1) v.entries) in
      record {
        entries = v.entries;
        keys = v.keys;
        cached = v.cached;
        writes = All-append IsSoundWrite s.pending _ v.writes (
            put_each-IsSoundWrite _
              (update_rows-Keyed now production _ s.store.tools rows _ (stored, tt)).1);
      }
  Step-IsSound {s} (write before after w o e) v =
      let all = subst (All IsSoundWrite) e v.writes in
      let rest = All_append_right IsSoundWrite before (w ∷ after) all in
      apply_write-IsSound o w s.store before after rest.0 (record {
        entries = v.entries;
        keys = v.keys;
        cached = v.cached;
        writes =
            All-append IsSoundWrite before after
              (All_append_left IsSoundWrite before (w ∷ after) all) rest.1;
      })
  Step-IsSound (site x) v = record {
    entries = v.entries;
    keys = v.keys;
    cached = v.cached;
    writes = v.writes;
  }
  Step-IsSound (load tools) v = record {
    entries = v.entries;
    keys = v.keys;
    cached = v.cached;
    writes = v.writes;
  }
  Step-IsSound (evict kept h) v = record {
    entries = v.entries;
    keys = v.keys;
    cached = λ id ts e. v.cached id ts (h id ts e);
    writes = v.writes;
  }

  -- However the handlers' reads and writes interleave, and whichever writes fail, every state that
  -- is reached from the empty store has each sliver stored once, under the key of its ids, and in
  -- memcache under a tool's id slivers of that tool only.
  pub Reach-IsSound : {s : State F} → Reach p s → IsSound s
  Reach-IsSound here = record {
    entries = tt;
    keys = tt;
    cached = λ id ts e. absurd (cc);
    writes = tt;
  }
  Reach-IsSound (next r st) = Step-IsSound st (Reach-IsSound r)
