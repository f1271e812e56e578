-- ===== src/Fetcher/Stored.antt =====
-- What is fetched has been stored.
use mlab_ns.Base.{
  String, Option, none, some, List, [], ◌∷◌, ◌≡◌, refl, truthy, text_or_none, is_empty, All,
  All-map, if_elim,
}
use mlab_ns.Model.{SliverTool, SliverToolQuery, Backend}
use mlab_ns.Filters.{filter_by_status}
use mlab_ns.Filters.Status.{All-filter_by_status}
use mlab_ns.Hosts.Kept.{All-choose_one_host_per_site}
use mlab_ns.Env.{Env, EnvLaws}
use mlab_ns.Fetcher.{
  ToolProperties, tool_filters, fetch_cached, memcache_fetch, datastore_query, filter_status_given,
  datastore_fetch, fetch,
}
use mlab_ns.Fetcher.Sound.{apply_filters-Passed}

-- Every sliver in memcache and in the datastore has the property.
pub record IsStoredWith {F : Type 0} (P : SliverTool F → Type 0) (b : Backend F) : Type 0 where
  pub cached : (id : String) (ts : List (SliverTool F)) → b.cached_tools id ≡ some ts → All P ts
  pub queried : (q : SliverToolQuery) → All P (b.query_sliver_tools q)

module _ {F G : Type 0} (env : Env F G) (laws : EnvLaws env) (P : SliverTool F → Type 0) where
  module _ (stored : IsStoredWith P env.backend) where
    fetch_cached-All :
        (props : ToolProperties) (g : G) (found : Option (List (SliverTool F)))
        → env.backend.cached_tools props.tool_id ≡ found
        → All P (fetch_cached env props found g).0
    unfolding fetch_cached
    fetch_cached-All props g none e = tt
    fetch_cached-All props g (some []) e = tt
    fetch_cached-All props g (some (t ∷ ts)) e =
        All-map _ _ _ (λ u p. p.0)
          (apply_filters-Passed env laws P (tool_filters props) (t ∷ ts) g
            (stored.cached props.tool_id (t ∷ ts) e))

    memcache_fetch-All : (props : ToolProperties) (g : G) → All P (memcache_fetch env props g).0
    unfolding memcache_fetch
    memcache_fetch-All props g =
        if_elim (λ (r : List (SliverTool F) × G). All P r.0) (truthy props.metro) _ _ (λ _. tt)
          (λ _. fetch_cached-All props g _ refl)

    filter_status_given-All :
        (props : ToolProperties) (ts : List (SliverTool F))
        → All P ts
        → All P (filter_status_given env props ts)
    filter_status_given-All props ts h = given (text_or_none props.status)
      where
        given :
            (o : Option String)
            → All P (elim o [ none ↦ ts | some s ↦ filter_by_status ts props.address_family s ])
        given none = h
        given (some s) =
            All-map _ _ _ (λ u p. p.0) (All-filter_by_status P ts props.address_family s h)

    datastore_fetch-All : (props : ToolProperties) (g : G) → All P (datastore_fetch env props g).0
    unfolding datastore_fetch
    datastore_fetch-All props g =
        let h = filter_status_given-All props _ (stored.queried (datastore_query env props)) in
        if_elim (λ (r : List (SliverTool F) × G). All P r.0) props.all_slivers _ _ (λ _. h)
          (λ _. All-choose_one_host_per_site env laws.chance _ g P h)

    -- What holds of every sliver stored holds of every tool that a fetch returns.
    pub fetch-All : (props : ToolProperties) (g : G) → All P (fetch env props g).0
    unfolding fetch
    fetch-All props g =
        if_elim (λ (r : List (SliverTool F) × G). All P r.0)
          (is_empty (memcache_fetch env props g).0) _ _ (λ _. datastore_fetch-All props _)
          (λ _. memcache_fetch-All props g)
