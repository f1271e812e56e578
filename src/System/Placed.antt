-- ===== src/System/Placed.antt =====
-- Every sliver stands at a site that is stored.
use mlab_ns.Base.{
  ℕ, String, Bool, none, some, List, [], ◌∷◌, ◌++◌, map, ◌≡◌, refl, subst, if_elim, All, All-append,
  All_append_left, All-map, All-map_of, All-Memᴰ,
}
use mlab_ns.Base.Dict.{lookup, insert, insert-found, All-insert, Has, insert-Has, values-Has}
use mlab_ns.Model.{SliverTool, Site}
use mlab_ns.Fetcher.{datastore_fetch}
use mlab_ns.Status.{Write, put, cache, all_of_tool, writes_of, update_sliver_tools_status}
use mlab_ns.Status.Kept.{IsStatic}
use mlab_ns.IpUpdate.{initialize_sliver_tool}
use mlab_ns.IpUpdate.Kept.{IsKept, update_rows-Kept}
use mlab_ns.Store.{
  Store, Platform, DatastoreLaws, Outcome, stored_slivers, env_of, put_tools, apply_write,
}
use mlab_ns.System.{State, Step, status, addresses, write, site, load, evict, Reach, here, next}
use mlab_ns.System.Sound.{update_tools-All, values-All, All_append_right}

module _ {F : Type 0} where
  -- The site of a sliver is stored.
  abbrev pub IsPlaced : List (String × Site F) → SliverTool F → Type 0
  IsPlaced sites t = Has t.site_id sites

  abbrev pub IsPlacedWrite : List (String × Site F) → Write F → Type 0
  IsPlacedWrite sites (put ts) = All (IsPlaced sites) ts
  IsPlacedWrite sites (cache id ts) = All (IsPlaced sites) ts

  -- Sites are stored under their ids, and every sliver stands at one of them, those in memcache and
  -- those under way too.
  pub record ArePlaced (s : State F) : Type 0 where
    pub sites : All (λ e. e.1.site_id ≡ e.0) s.store.sites
    pub slivers : All (λ e. IsPlaced s.store.sites e.1) s.store.slivers
    pub cached :
        (id : String) (ts : List (SliverTool F))
        → lookup id s.store.tools_cache ≡ some ts
        → All (IsPlaced s.store.sites) ts
    pub writes : All (IsPlacedWrite s.store.sites) s.pending

  IsPlaced-IsStatic : (sites : List (String × Site F)) → IsStatic (IsPlaced sites)
  IsPlaced-IsStatic sites = record {
    ipv4 = λ t status extra h. h;
    ipv6 = λ t status extra h. h;
    stamped = λ t n h. h;
  }

  IsPlaced-IsKept :
      (now : ℕ) (sites : List (String × Site F))
      → IsKept now (IsPlaced sites) (λ x. Has x.site_id sites)
  unfolding initialize_sliver_tool
  IsPlaced-IsKept now sites = record {
    changed = λ t ipv4 ipv6 rr fqdn h. h;
    made = λ tool x server_id fqdn h. h;
  }

  writes_of-IsPlacedWrite :
      (sites : List (String × Site F)) (id : String) (ts : List (SliverTool F))
      → All (IsPlaced sites) ts
      → All (IsPlacedWrite sites) (writes_of id ts)
  writes_of-IsPlacedWrite sites id [] h = tt
  writes_of-IsPlacedWrite sites id (t ∷ ts) h = (h, (h, tt))

  put_each-IsPlacedWrite :
      (sites : List (String × Site F)) (ts : List (SliverTool F))
      → All (IsPlaced sites) ts
      → All (IsPlacedWrite sites) (map (λ t. put (t ∷ [])) ts)
  put_each-IsPlacedWrite sites ts h =
      All-map_of (IsPlaced sites) (IsPlacedWrite sites) (λ t. put (t ∷ [])) ts (λ t p. (p, tt)) h

  put_tools-IsPlaced :
      (sites : List (String × Site F)) (stores : SliverTool F → Bool) (ts : List (SliverTool F))
      (d : List (String × SliverTool F))
      → All (IsPlaced sites) ts
      → All (λ e. IsPlaced sites e.1) d
      → All (λ e. IsPlaced sites e.1) (put_tools stores ts d)
  unfolding put_tools
  put_tools-IsPlaced sites stores [] d h k = k
  put_tools-IsPlaced sites stores (t ∷ ts) d (p, h) k = put_tools-IsPlaced sites stores ts _ h (
      if_elim (All (λ (e : String × SliverTool F). IsPlaced sites e.1)) (stores t) _ d
        (λ _. All-insert (λ e. IsPlaced sites e.1) t.key_name t d p k) (λ _. k))

  apply_write-ArePlaced :
      (o : Outcome F) (w : Write F) (s : Store F) (pending : List (Write F))
      → IsPlacedWrite s.sites w
      → ArePlaced (record { store = s; pending = pending })
      → ArePlaced (record { store = apply_write o w s; pending = pending })
  unfolding apply_write
  apply_write-ArePlaced o (put ts) s pending h v = record {
    sites = v.sites;
    slivers = put_tools-IsPlaced s.sites o.stores ts s.slivers h v.slivers;
    cached = v.cached;
    writes = v.writes;
  }
  apply_write-ArePlaced o (cache id ts) s pending h v =
      if_elim (λ r. ArePlaced (record { store = r; pending = pending })) o.caches _ s
        (λ _. record {
          sites = v.sites;
          slivers = v.slivers;
          cached = insert-found (λ j us. All (IsPlaced s.sites) us) id ts s.tools_cache h v.cached;
          writes = v.writes;
        })
        (λ _. v)

  -- A site that is put takes none away.
  insert-IsPlaced :
      (x : Site F) (sites : List (String × Site F)) (ts : List (SliverTool F))
      → All (IsPlaced sites) ts
      → All (IsPlaced (insert x.site_id x sites)) ts
  insert-IsPlaced x sites ts h =
      All-map (IsPlaced sites) (IsPlaced (insert x.site_id x sites)) ts
        (λ t m. insert-Has t.site_id x.site_id x sites m) h

  insert-IsPlacedWrite :
      (x : Site F) (sites : List (String × Site F)) (w : Write F)
      → IsPlacedWrite sites w
      → IsPlacedWrite (insert x.site_id x sites) w
  insert-IsPlacedWrite x sites (put ts) h = insert-IsPlaced x sites ts h
  insert-IsPlacedWrite x sites (cache id ts) h = insert-IsPlaced x sites ts h

module _ {F G : Type 0} (p : Platform F G) (laws : DatastoreLaws p.datastore) where
  placed_slivers :
      (s : State F) → ArePlaced s → All (IsPlaced s.store.sites) (stored_slivers s.store)
  placed_slivers s v = values-All (IsPlaced s.store.sites) s.store.slivers v.slivers

  fetched-IsPlaced :
      (s : State F) (id : String) (g : G)
      → ArePlaced s
      → All (IsPlaced s.store.sites) (datastore_fetch (env_of p s.store) (all_of_tool id) g).0
  unfolding datastore_fetch
  fetched-IsPlaced s id g v =
      All-map _ (IsPlaced s.store.sites) _
        (λ t q. All-Memᴰ (IsPlaced s.store.sites) (placed_slivers s v) q.0)
        (laws.select_answers (stored_slivers s.store)
          (record { tool_id = id; site_ids = none; country = none }))

  pub Step-ArePlaced : {s t : State F} → Step p s t → ArePlaced s → ArePlaced t
  unfolding update_sliver_tools_status
  Step-ArePlaced {s} (status family id known now g) v = record {
    sites = v.sites;
    slivers = v.slivers;
    cached = v.cached;
    writes = All-append (IsPlacedWrite s.store.sites) s.pending _ v.writes (
        writes_of-IsPlacedWrite s.store.sites id _ (
          update_tools-All (IsPlaced s.store.sites) (IsPlaced-IsStatic s.store.sites) now family
            known _ (fetched-IsPlaced s id g v)));
  }
  Step-ArePlaced {s} (addresses now production rows) v = record {
    sites = v.sites;
    slivers = v.slivers;
    cached = v.cached;
    writes = All-append (IsPlacedWrite s.store.sites) s.pending _ v.writes (
        put_each-IsPlacedWrite s.store.sites _
          (update_rows-Kept now (IsPlaced s.store.sites) (λ x. Has x.site_id s.store.sites)
            (IsPlaced-IsKept now s.store.sites) production _ s.store.tools rows _
            (values-Has (λ x. x.site_id) s.store.sites v.sites) (placed_slivers s v, tt)).1);
  }
  Step-ArePlaced {s} (write before after w o e) v =
      let all = subst (All (IsPlacedWrite s.store.sites)) e v.writes in
      let rest = All_append_right (IsPlacedWrite s.store.sites) before (w ∷ after) all in
      apply_write-ArePlaced o w s.store (before ++ after) rest.0 (record {
        sites = v.sites;
        slivers = v.slivers;
        cached = v.cached;
        writes =
            All-append (IsPlacedWrite s.store.sites) before after
              (All_append_left (IsPlacedWrite s.store.sites) before (w ∷ after) all) rest.1;
      })
  Step-ArePlaced {s} (site x) v = record {
    sites = All-insert (λ e. e.1.site_id ≡ e.0) x.site_id x s.store.sites refl v.sites;
    slivers =
        All-map (λ (e : String × SliverTool F). IsPlaced s.store.sites e.1) _ s.store.slivers
          (λ e m. insert-Has e.1.site_id x.site_id x s.store.sites m) v.slivers;
    cached = λ id ts e. insert-IsPlaced x s.store.sites ts (v.cached id ts e);
    writes =
        All-map (IsPlacedWrite s.store.sites) _ s.pending
          (λ w h. insert-IsPlacedWrite x s.store.sites w h) v.writes;
  }
  Step-ArePlaced (load tools) v = record {
    sites = v.sites;
    slivers = v.slivers;
    cached = v.cached;
    writes = v.writes;
  }
  Step-ArePlaced (evict kept h) v = record {
    sites = v.sites;
    slivers = v.slivers;
    cached = λ id ts e. v.cached id ts (h id ts e);
    writes = v.writes;
  }

  -- In every state that the system reaches, however the handlers' reads and writes interleave and
  -- whichever writes fail, each site is stored under its id and each sliver, in the datastore and in
  -- memcache, stands at a site that is stored.
  pub Reach-ArePlaced : {s : State F} → Reach p s → ArePlaced s
  Reach-ArePlaced here = record {
    sites = tt;
    slivers = tt;
    cached = λ id ts e. absurd (cc);
    writes = tt;
  }
  Reach-ArePlaced (next r st) = Step-ArePlaced st (Reach-ArePlaced r)
