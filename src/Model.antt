-- ===== src/Model.antt =====
-- The entities of server/mlabns/db/model.py and its queries. F is the type of floats.
use mlab_ns.Base.{ℕ, String, Bool, true, Option, none, some, List, [], ◌∷◌, map, contains, ◌≡◌, All}
use mlab_ns.Base.Text.{join, split}
use mathlib.Core.List.{head?}

pub record SliverTool (F : Type 0) : Type 0 where
  pub key_name : String
  pub tool_id : String
  pub slice_id : String
  pub site_id : String
  pub server_id : String
  pub server_port : Option String
  pub http_port : Option String
  pub tool_extra : String
  pub fqdn : String
  pub sliver_ipv4 : String
  pub sliver_ipv6 : String
  pub status_ipv4 : String
  pub status_ipv6 : String
  pub update_request_timestamp : ℕ
  pub latitude : F
  pub longitude : F
  pub city : String
  pub country : String
  pub roundrobin : Bool

pub record Site (F : Type 0) : Type 0 where
  pub site_id : String
  pub city : String
  pub country : String
  pub latitude : F
  pub longitude : F
  pub metro : List String
  pub registration_timestamp : ℕ
  pub roundrobin : Bool

pub record Tool : Type 0 where
  pub slice_id : String
  pub tool_id : String
  pub server_port : Option String
  pub http_port : Option String
  pub show_tool_extra : Bool
  pub status_source : Option String

-- The conditions of the query that SliverToolFetcherDatastore.fetch writes in GQL.
pub record SliverToolQuery : Type 0 where
  pub tool_id : String
  pub site_ids : Option (List String)
  pub country : Option String

abbrev pub WithinSites : Option (List String) → String → Type 0
WithinSites none s = Unit
WithinSites (some ids) s = contains s ids ≡ true

abbrev pub WithinCountry : Option String → String → Type 0
WithinCountry none c = Unit
WithinCountry (some d) c = c ≡ d

-- What an entity that the query returns satisfies.
abbrev pub Answers : {F : Type 0} → SliverToolQuery → SliverTool F → Type 0
Answers q t =
    (t.tool_id ≡ q.tool_id) × WithinSites q.site_ids t.site_id × WithinCountry q.country t.country

-- What a lookup reads of memcache and of the datastore. Both belong to App Engine.
pub record Backend (F : Type 0) : Type 0 where
  -- memcache.get(tool_id, namespace='memcache_tools')
  pub cached_tools : String → Option (List (SliverTool F))
  -- memcache.get(key, namespace='memcache_requests')
  pub cached_requests : String → Option String
  -- SliverTool.gql(...).fetch(None)
  pub query_sliver_tools : SliverToolQuery → List (SliverTool F)
  -- Site.all().filter('metro =', metro).fetch(None)
  pub sites_in_metro : String → List (Site F)
  -- Tool.all().run()
  pub all_tools : List Tool
  -- Tool.gql('WHERE tool_id = :tool_id').run()
  pub tools_by_id : String → List Tool

-- What the code relies on: a query returns only what its conditions admit.
pub record BackendLaws {F : Type 0} (b : Backend F) : Type 0 where
  pub query_answers : (q : SliverToolQuery) → All (Answers q) (b.query_sliver_tools q)

-- '-'.join([tool_id, slice_id, server_id, site_id]), and None where one of them is None.
unfoldable pub get_sliver_tool_id :
    Option String → Option String → Option String → Option String → Option String
get_sliver_tool_id (some tool_id) (some slice_id) (some server_id) (some site_id) =
    some (join "-" (tool_id ∷ slice_id ∷ server_id ∷ site_id ∷ []))
get_sliver_tool_id _ _ _ _ = none

fqdn_of_parts : List String → String → String → Option String
fqdn_of_parts (first ∷ second ∷ []) server_id site_id =
    some (join "." (second ∷ first ∷ server_id ∷ site_id ∷ "measurement-lab.org" ∷ []))
fqdn_of_parts _ server_id site_id = none

unfoldable pub get_fqdn : String → String → String → Option String
unfolding fqdn_of_parts
get_fqdn slice_id server_id site_id = fqdn_of_parts (split b'_' slice_id) server_id site_id

module _ {F : Type 0} (b : Backend F) where
  unfoldable pub get_tool_from_tool_id : String → Option Tool
  get_tool_from_tool_id tool_id = head? (b.tools_by_id tool_id)

  unfoldable pub get_all_tool_ids : List String
  get_all_tool_ids = map (λ (t : Tool). t.tool_id) b.all_tools

  unfoldable pub is_valid_tool : String → Bool
  unfolding get_all_tool_ids
  is_valid_tool tool_id = contains tool_id get_all_tool_ids
