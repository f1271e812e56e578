-- ===== src/Fetcher.antt =====
-- The fetchers of server/mlabns/db/sliver_tool_fetcher.py: the tools that match a set of criteria,
-- from memcache or, failing that, from the datastore.
pub mod Sound
pub mod Available
pub mod Stored
use mlab_ns.Base.{
  ℕ, ◌+◌, String, Bool, true, false, ◌||◌, Option, none, some, List, [], ◌∷◌, ◌++◌, map, ◌==◌,
  opt_eq, truthy, keep, if◌then◌else◌, is_empty, text_or_none,
}
use mlab_ns.Model.{SliverTool, Site, SliverToolQuery, Backend}
use mlab_ns.Filters.{filter_by_status, filter_by_country}
use mlab_ns.Hosts.{choose_one_host_per_site}
use mlab_ns.Env.{Env}

pub record ToolProperties : Type 0 where
  pub tool_id : String
  pub status : Option String
  pub all_slivers : Bool
  pub address_family : Option String
  pub metro : Option String
  pub country : Option String

-- The entries of tool_filters: the partial applications that the code appends.
pub data ToolFilter : Type 0 where
  by_status : Option String → String → ToolFilter
  by_country : String → ToolFilter
  one_host_per_site : ToolFilter

-- [f(s)] where the text s is true, and [] where it is empty or None.
abbrev pub when_given : (String → ToolFilter) → Option String → List ToolFilter
when_given f given = elim (text_or_none given) [ none ↦ [] | some s ↦ f s ∷ [] ]

abbrev pub tool_filters : ToolProperties → List ToolFilter
tool_filters props =
    when_given (by_status props.address_family) props.status
    ++ (when_given by_country props.country
        ++ (if props.all_slivers then [] else one_host_per_site ∷ []))

module _ {F G : Type 0} (env : Env F G) where
  unfoldable pub apply_filter : ToolFilter → List (SliverTool F) → G → List (SliverTool F) × G
  apply_filter (by_status af status) tools g = (filter_by_status tools af status, g)
  apply_filter (by_country country) tools g = (filter_by_country tools country, g)
  apply_filter one_host_per_site tools g = choose_one_host_per_site env tools g

  -- for tool_filter in tool_filters: candidates = tool_filter(candidates)
  unfoldable pub apply_filters : List ToolFilter → List (SliverTool F) → G → List (SliverTool F) × G
  apply_filters [] tools g = (tools, g)
  apply_filters (f ∷ fs) tools g =
      let (tools', g') = apply_filter f tools g in apply_filters fs tools' g'

  -- SliverToolFetcherMemcache.fetch, from what memcache holds for the tool.
  unfoldable pub fetch_cached :
      ToolProperties → Option (List (SliverTool F)) → G → List (SliverTool F) × G
  fetch_cached props none g = ([], g)
  fetch_cached props (some []) g = ([], g)
  fetch_cached props (some (t ∷ ts)) g = apply_filters (tool_filters props) (t ∷ ts) g

  unfoldable pub memcache_fetch : ToolProperties → G → List (SliverTool F) × G
  unfolding fetch_cached
  memcache_fetch props g =
      if truthy props.metro
      then ([], g)
      else fetch_cached props (env.backend.cached_tools props.tool_id) g

  abbrev pub find_site_ids_for_metro : String → List String
  find_site_ids_for_metro metro = map (λ (s : Site F). s.site_id) (env.backend.sites_in_metro metro)

  abbrev pub site_ids_of : Option String → Option (List String)
  site_ids_of none = none
  site_ids_of (some metro) = some (find_site_ids_for_metro metro)

  -- The conditions that SliverToolFetcherDatastore.fetch joins with AND.
  abbrev pub datastore_query : ToolProperties → SliverToolQuery
  datastore_query props = record {
    tool_id = props.tool_id;
    site_ids = site_ids_of (text_or_none props.metro);
    country = text_or_none props.country;
  }

  abbrev pub filter_status_given : ToolProperties → List (SliverTool F) → List (SliverTool F)
  filter_status_given props tools = elim (text_or_none props.status) [
    | none ↦ tools
    | some s ↦ filter_by_status tools props.address_family s
  ]

  -- SliverToolFetcherDatastore.fetch
  unfoldable pub datastore_fetch : ToolProperties → G → List (SliverTool F) × G
  datastore_fetch props g =
      let results =
        filter_status_given props (env.backend.query_sliver_tools (datastore_query props)) in
      if props.all_slivers then (results, g) else choose_one_host_per_site env results g

  -- SliverToolFetcher.fetch
  unfoldable pub fetch : ToolProperties → G → List (SliverTool F) × G
  fetch props g =
      let (results, g') = memcache_fetch props g in
      if is_empty results then datastore_fetch props g' else (results, g')
