-- ===== src/System/Lookups.antt =====
-- Lookups in the states that the system reaches.
use mlab_ns.Base.{String, some, List, ◌∷◌, ◌≡◌, All-map, Memᴰ}
use mlab_ns.Base.Errors.{ok}
use mlab_ns.Runtime.{ChanceLaws}
use mlab_ns.Model.{SliverTool, Answers}
use mlab_ns.Env.{EnvLaws}
use mlab_ns.Fetcher.{datastore_query, find_site_ids_for_metro}
use mlab_ns.Fetcher.Sound.{Fits, IsCacheFiled}
use mlab_ns.Resolver.{Wanted, Resolver, answer_query}
use mlab_ns.Resolver.Answers.{Good, criteria, limit, answer_query-Good}
use mlab_ns.Fetcher.Available.{Fits-Answers}
use mlab_ns.Resolver.Available.{IsServed, answer_query_available}
use mlab_ns.Store.{Store, Platform, DatastoreLaws, stored_slivers, env_of}
use mlab_ns.System.{State, Reach}
use mlab_ns.System.Sound.{Reach-IsSound}

module _ {F G : Type 0} (p : Platform F G) (laws : DatastoreLaws p.datastore) where
  pub env_of-EnvLaws : (chance : ChanceLaws p.fl p.rng) (s : Store F) → EnvLaws (env_of p s)
  env_of-EnvLaws chance s = record {
    chance = chance;
    stored = record {
      query_answers =
          λ q. All-map _ (Answers q) _ (λ t h. h.1) (laws.select_answers (stored_slivers s) q);
    };
  }

  pub Reach-IsCacheFiled : {s : State F} → Reach p s → IsCacheFiled (env_of p s.store).backend
  Reach-IsCacheFiled r = record {
    filed = λ id ts e.
        All-map _ (λ t. t.tool_id ≡ id) ts (λ t h. h.0) ((Reach-IsSound p laws r).cached id ts e);
  }

  -- In every state that the system reaches, whatever handlers are at work and whichever writes have
  -- failed, and whatever the policy: the tools that answer a query have its tool id, are online on
  -- the address family asked for (on either, where none is), and lie in the metro of a metro policy
  -- and the country of a country policy, as memcache or the datastore has them. No two are of one site, and
  -- there are at most 4 with geo_options and 1 with every other policy but all.
  pub Reach-answer_query :
      (chance : ChanceLaws p.fl p.rng) {s : State F}
      → Reach p s
      → (r : Resolver) (q : Wanted F) (signature : String) (g : G) (ts : List (SliverTool F))
      → (answer_query (env_of p s.store) r q signature g).0 ≡ ok (some ts)
      → Good (Fits (find_site_ids_for_metro (env_of p s.store)) (criteria r q)) (limit r) ts
  Reach-answer_query chance {s} reached r q signature g ts e =
      answer_query-Good (env_of p s.store) (env_of-EnvLaws chance s.store)
        (Reach-IsCacheFiled reached) r q signature g ts e

  -- Where a sliver is stored that meets the criteria of a policy, the policy answers with at least one
  -- tool, whatever memcache holds and whatever is drawn. The metro and country policies need their
  -- argument, and the geo policies a client whose latitude is unknown.
  pub answer_query_stored :
      (chance : ChanceLaws p.fl p.rng) (s : Store F) (r : Resolver) (q : Wanted F)
      (signature : String) (g : G) (t : SliverTool F)
      → IsServed r q
      → Memᴰ t (stored_slivers s)
      → Fits (find_site_ids_for_metro (env_of p s)) (criteria r q) t
      → (u : SliverTool F) × (us : List (SliverTool F)) × ((answer_query
            (env_of p s)
            r
            q
            signature
            g).0
          ≡ ok (some (u ∷ us)))
  answer_query_stored chance s r q signature g t served m h =
      answer_query_available (env_of p s) chance r q signature g t served
        (laws.select_all (stored_slivers s) (datastore_query (env_of p s) (criteria r q)) t m
          (Fits-Answers (env_of p s) (criteria r q) t h))
        h
