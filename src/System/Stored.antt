-- ===== src/System/Stored.antt =====
-- What an update of the status leaves in the datastore.
use mathlib.Core.Option.{some-injective}
use mlab_ns.Base.{
  ℕ, String, true, Option, none, some, List, [], ◌∷◌, map, ◌==◌, ◌≡◌, ◌≢◌, refl, sym, ap, ◌∙◌,
  subst, eq_iff, if_elim, All, All-map_of, All-Memᴰ, All-self, Apart, Memᴰ,
}
use mlab_ns.Base.Dict.{lookup, values, OtherKey, All-lookup, Memᴰ-lookup}
use mlab_ns.Model.{SliverTool, Answers}
use mlab_ns.Fetcher.{datastore_fetch}
use mlab_ns.Status.{SliverStatus, SliceStatus, update_tools, writes_of, update_sliver_tools_status}
use mlab_ns.Status.Map.{shown_ipv4, shown_ipv6, update_tools_ipv4, update_tools_ipv6}
use mlab_ns.Store.{
  Store, Platform, DatastoreLaws, Outcome, stored_slivers, env_of, put_tools, apply_write,
  apply_writes,
}
use mlab_ns.Store.Puts.{OnlyOne, put_tools-found, put_tools-other}
use mlab_ns.System.{State, Reach, Family, ipv4, ipv6, family_text}
use mlab_ns.System.Sound.{IsEntry, Reach-IsSound}

module _ {F : Type 0} where
  -- A stored sliver is the one under its key.
  values-lookup :
      (u : SliverTool F) (d : List (String × SliverTool F))
      → All IsEntry d
      → Apart OtherKey d
      → Memᴰ u (values d)
      → lookup u.key_name d ≡ some u
  values-lookup u [] h k m = elim m [ ]
  values-lookup u ((j, v) ∷ d) (q, h) (other, k) (Memᴰ.head e) =
      if_elim (λ o. o ≡ some u) (j == u.key_name) (some v) (lookup u.key_name d)
        (λ _. ap some (sym e))
        (λ f. absurd (
          cc
            (f, (eq_iff j u.key_name).1 (sym q.0 ∙ ap (λ (w : SliverTool F). w.key_name) (sym e)))))
  values-lookup u ((j, v) ∷ d) (q, h) (other, k) (Memᴰ.tail m) =
      let found = values-lookup u d h k m in
      if_elim (λ o. o ≡ some u) (j == u.key_name) (some v) (lookup u.key_name d)
        (λ same.
          absurd (
            All-lookup (OtherKey (j, v)) u.key_name u d other found ((eq_iff j u.key_name).0 same)))
        (λ _. found)

  -- What the update makes of a sliver, as the family is.
  abbrev pub result_of : Family → (SliverTool F → ℕ) → SliceStatus → SliverTool F → SliverTool F
  result_of ipv4 now known t = shown_ipv4 now (lookup t.fqdn known) t
  result_of ipv6 now known t = shown_ipv6 now (lookup t.fqdn known) t

  update_tools-result_of :
      (family : Family) (now : SliverTool F → ℕ) (known : SliceStatus) (ts : List (SliverTool F))
      → update_tools (family_text family) now known ts ≡ map (result_of family now known) ts
  update_tools-result_of ipv4 now known ts = update_tools_ipv4 now known ts
  update_tools-result_of ipv6 now known ts = update_tools_ipv6 now known ts

  key_name-shown_ipv4 :
      (now : SliverTool F → ℕ) (o : Option SliverStatus) (t : SliverTool F)
      → (shown_ipv4 now o t).key_name ≡ t.key_name
  key_name-shown_ipv4 now none t = refl
  key_name-shown_ipv4 now (some s) t = refl

  key_name-result_of :
      (family : Family) (now : SliverTool F → ℕ) (known : SliceStatus) (t : SliverTool F)
      → (result_of family now known t).key_name ≡ t.key_name
  key_name-result_of ipv4 now known t = key_name-shown_ipv4 now (lookup t.fqdn known) t
  key_name-result_of ipv6 now known t = refl

  map-Memᴰ :
      (f : SliverTool F → SliverTool F) (t : SliverTool F) (ts : List (SliverTool F))
      → Memᴰ t ts
      → Memᴰ (f t) (map f ts)
  map-Memᴰ f t [] m = elim m [ ]
  map-Memᴰ f t (u ∷ us) (Memᴰ.head e) = Memᴰ.head (ap f e)
  map-Memᴰ f t (u ∷ us) (Memᴰ.tail m) = Memᴰ.tail (map-Memᴰ f t us m)

  writes_of-slivers :
      (o : Outcome F) (id : String) (ts : List (SliverTool F)) (s : Store F)
      → (apply_writes o (writes_of id ts) s).slivers ≡ put_tools o.stores ts s.slivers
  unfolding apply_writes apply_write put_tools
  writes_of-slivers o id [] s = refl
  writes_of-slivers o id (t ∷ ts) s =
      if_elim (λ (x : Store F). x.slivers ≡ put_tools o.stores (t ∷ ts) s.slivers) o.caches _ _
        (λ _. refl) (λ _. refl)

module _ {F G : Type 0} (p : Platform F G) (laws : DatastoreLaws p.datastore) where
  -- The slivers that the update of a tool reads.
  abbrev selected : String → Store F → List (SliverTool F)
  selected id s =
      p.datastore.select (stored_slivers s)
        (record { tool_id = id; site_ids = none; country = none })

  module _ (id : String) (s : Store F) (k : String) (t : SliverTool F)
      (f : SliverTool F → SliverTool F) (key : (u : SliverTool F) → (f u).key_name ≡ u.key_name)
      (entries : All IsEntry s.slivers) (keys : Apart OtherKey s.slivers)
      (e : lookup k s.slivers ≡ some t) where
    selected_answer :
        (u : SliverTool F) → Memᴰ u (selected id s) → Memᴰ u (stored_slivers s) × (u.tool_id ≡ id)
    selected_answer u m =
        let (stored, answer) =
          All-Memᴰ
            (λ v.
              Memᴰ v (stored_slivers s)
              × Answers (record { tool_id = id; site_ids = none; country = none }) v)
            (laws.select_answers (stored_slivers s) _) m in
        (stored, answer.0)

    -- Of the slivers that are read, only t has its key.
    only_one : (u : SliverTool F) → Memᴰ u (selected id s) → (f u).key_name ≡ k → u ≡ t
    only_one u m same = some-injective u t (
        sym (values-lookup u s.slivers entries keys (selected_answer u m).0)
        ∙ (ap (λ (j : String). lookup j s.slivers) (sym (key u) ∙ same) ∙ e))

    key_of : (f t).key_name ≡ k
    key_of = key t ∙ (All-lookup IsEntry k t s.slivers entries e).0

    module _ (o : Outcome F) (all : (u : SliverTool F) → o.stores u ≡ true) where
      found_updated :
          t.tool_id ≡ id
          → lookup k (put_tools o.stores (map f (selected id s)) s.slivers) ≡ some (f t)
      found_updated tool =
          subst
            (λ (j : String).
              lookup j (put_tools o.stores (map f (selected id s)) s.slivers) ≡ some (f t))
            key_of
            (put_tools-found o.stores all (f t) (map f (selected id s)) s.slivers
              (All-map_of (λ u. Memᴰ u (selected id s)) (OnlyOne (f t)) f (selected id s)
                (λ u m same. ap f (only_one u m (same ∙ key_of))) (All-self (selected id s)))
              (map-Memᴰ f t (selected id s) (
                laws.select_all (stored_slivers s) _ t (Memᴰ-lookup k t s.slivers e)
                  (tool, tt, tt))))

      found_other :
          t.tool_id ≢ id → lookup k (put_tools o.stores (map f (selected id s)) s.slivers) ≡ some t
      found_other other =
          put_tools-other o.stores all k (map f (selected id s)) s.slivers (
            All-map_of (λ u. Memᴰ u (selected id s)) (λ (u : SliverTool F). u.key_name ≢ k) f
              (selected id s)
              (λ u m same. other (
                subst (λ (v : SliverTool F). v.tool_id ≡ id) (only_one u m same)
                  (selected_answer u m).1))
              (All-self (selected id s)))
          ∙ e

  lookup-updated :
      (family : Family) (id : String) (known : SliceStatus) (now : SliverTool F → ℕ) (g : G)
      (o : Outcome F) (s : Store F) (k : String) (t : SliverTool F)
      → ((u : SliverTool F) → o.stores u ≡ true)
      → All IsEntry s.slivers
      → Apart OtherKey s.slivers
      → lookup k s.slivers ≡ some t
      → (t.tool_id ≡ id
          → lookup k
              (apply_writes o
                (update_sliver_tools_status (env_of p s) now known id (family_text family) g)
                s).slivers
            ≡ some (result_of family now known t))
        × (t.tool_id ≢ id
            → lookup k
                (apply_writes o
                  (update_sliver_tools_status (env_of p s) now known id (family_text family) g)
                  s).slivers
              ≡ some t)
  unfolding update_sliver_tools_status datastore_fetch
  lookup-updated family id known now g o s k t all entries keys e =
      let f = result_of family now known in
      let key = key_name-result_of family now known in
      let written =
        writes_of-slivers o id (update_tools (family_text family) now known (selected id s)) s
        ∙ ap (λ ts. put_tools o.stores ts s.slivers)
            (update_tools-result_of family now known (selected id s)) in
      (
        λ tool. ap (lookup k) written ∙ found_updated id s k t f key entries keys e o all tool,
        λ other. ap (lookup k) written ∙ found_other id s k t f key entries keys e o all other,
      )

  -- In every state that the system reaches: after an update of the status of a tool whose put
  -- succeeds, the datastore has every sliver of another tool as it was, and each sliver of the tool,
  -- under its key, with a new status on the family that is updated: that of monitoring where the
  -- sliver has an address, else offline in place of online. A sliver that monitoring does not know is
  -- as it was in an update of IPv4, and counts as offline in one of IPv6.
  pub lookup-update_sliver_tools_status :
      {s : State F}
      → Reach p s
      → (family : Family) (id : String) (known : SliceStatus) (now : SliverTool F → ℕ) (g : G)
      → (o : Outcome F) (k : String) (t : SliverTool F) → ((u : SliverTool F) → o.stores u ≡ true)
      → lookup k s.store.slivers ≡ some t
      → (t.tool_id ≡ id
          → lookup k
              (apply_writes o
                (update_sliver_tools_status (env_of p s.store) now known id (family_text family) g)
                s.store).slivers
            ≡ some (result_of family now known t))
        × (t.tool_id ≢ id
            → lookup k
                (apply_writes o
                  (update_sliver_tools_status
                    (env_of p s.store)
                    now
                    known
                    id
                    (family_text family)
                    g)
                  s.store).slivers
              ≡ some t)
  lookup-update_sliver_tools_status {s} reached family id known now g o k t all e =
      let sound = Reach-IsSound p laws reached in
      lookup-updated family id known now g o s.store k t all sound.entries sound.keys e
