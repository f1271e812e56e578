-- ===== src/Admin.antt =====
-- AdminHandler of server/mlabns/handlers/admin.py: which view a path asks for, and the sites and
-- slivers of each city that the map shows.
pub mod Complete
pub mod Filed
pub mod Pages
pub mod Shown
pub mod Views
use mlab_ns.Base.{String, Bool, Option, none, some, List, [], ◌∷◌, ◌++◌, ◌==◌, if◌then◌else◌}
use mlab_ns.Base.Dict.{lookup, insert, values}
use mlab_ns.Base.Errors.{PyError, Result, ok, raise, ◌>>=◌}
use mlab_ns.Base.Text.{rstrip}
use mlab_ns.Model.{SliverTool, Site}
use mlab_ns.IpUpdate.{Production, is_production_slice}

pub data View : Type 0 where
  redirect : String → View
  site_view sliver_tool_view not_found : View
  map_view : String → String → View

abbrev pub map_of_all : View
map_of_all = redirect "/admin/map/ipv4/all"

-- valid_paths
unfoldable pub valid_paths : List (String × View)
valid_paths =
    ("", map_of_all)
    ∷ ("/admin", map_of_all)
    ∷ ("/admin/sites", site_view)
    ∷ ("/admin/sliver_tools", sliver_tool_view)
    ∷ ("/admin/map", map_of_all)
    ∷ ("/admin/map/ipv4", map_of_all)
    ∷ ("/admin/map/ipv4/all", map_view "all" "ipv4")
    ∷ ("/admin/map/ipv4/mobiperf", map_view "mobiperf" "ipv4")
    ∷ ("/admin/map/ipv4/neubot", map_view "neubot" "ipv4")
    ∷ ("/admin/map/ipv4/ndt", map_view "ndt" "ipv4")
    ∷ ("/admin/map/ipv6", map_view "all" "ipv6")
    ∷ ("/admin/map/ipv6/all", map_view "all" "ipv6")
    ∷ ("/admin/map/ipv6/mobiperf", map_view "mobiperf" "ipv6")
    ∷ ("/admin/map/ipv6/neubot", map_view "neubot" "ipv6")
    ∷ ("/admin/map/ipv6/ndt", map_view "ndt" "ipv6")
    ∷ []

abbrev pub view_of : Option View → View
view_of none = not_found
view_of (some v) = v

-- AdminHandler.get
unfoldable pub get : String → View
get path = view_of (lookup (rstrip b'/' path) valid_paths)

-- sliver_tool_info and site_info
pub record SliverToolInfo : Type 0 where
  pub slice_id : String
  pub tool_id : String
  pub server_id : String
  pub status : String
  pub timestamp : String

pub record SiteInfo (F : Type 0) : Type 0 where
  pub site_id : String
  pub city : String
  pub country : String
  pub latitude : F
  pub longitude : F
  pub sliver_tools : List SliverToolInfo

-- d[key] is changed.
abbrev pub changed :
    {V : Type 0} → (V → V) → String → List (String × V) → Option V → Result (List (String × V))
changed f key d none = raise PyError.key_error
changed f key d (some v) = ok (insert key (f v) d)

abbrev pub change_at :
    {V : Type 0} → (V → V) → String → List (String × V) → Result (List (String × V))
change_at f key d = changed f key d (lookup key d)

module _ {F : Type 0} where
  abbrev pub info_of_site : Site F → SiteInfo F
  info_of_site s = record {
    site_id = s.site_id;
    city = s.city;
    country = s.country;
    latitude = s.latitude;
    longitude = s.longitude;
    sliver_tools = [];
  }

  -- site_dict after the loop over the sites
  unfoldable pub add_sites : List (Site F) → List (String × SiteInfo F) → List (String × SiteInfo F)
  add_sites [] d = d
  add_sites (s ∷ ss) d = add_sites ss (insert s.site_id (info_of_site s) d)

  -- sites_per_city after it
  unfoldable pub add_cities :
      List (Site F) → List (String × List (SiteInfo F)) → List (String × List (SiteInfo F))
  add_cities [] d = d
  add_cities (s ∷ ss) d = add_cities ss (insert s.city [] d)

  abbrev pub with_sliver : SliverToolInfo → SiteInfo F → SiteInfo F
  with_sliver info i = record i { sliver_tools = i.sliver_tools ++ info ∷ [] }

-- when.strftime('%Y-%m-%d %H:%M:%S') of a sliver, and the order in which a dict gives its items.
pub record Rendering (F : Type 0) : Type 0 where
  pub when_text : SliverTool F → String
  pub items : List (SiteInfo F) → List (SiteInfo F)

module _ {F : Type 0} (p : Production) (r : Rendering F) (address_family : String) where
  unfoldable pub info_of : SliverTool F → SliverToolInfo
  info_of t = record {
    slice_id = t.slice_id;
    tool_id = t.tool_id;
    server_id = t.server_id;
    status = if address_family == "ipv4" then t.status_ipv4 else t.status_ipv6;
    timestamp = r.when_text t;
  }

  -- The part of the loop over the slivers that handles one.
  abbrev pub add_sliver :
      SliverTool F → List (String × SiteInfo F) → Result (List (String × SiteInfo F))
  add_sliver t d =
      if is_production_slice p t.fqdn then change_at (with_sliver (info_of t)) t.site_id d else ok d

  -- The loop over the slivers.
  unfoldable pub add_slivers :
      List (SliverTool F) → List (String × SiteInfo F) → Result (List (String × SiteInfo F))
  add_slivers [] d = ok d
  add_slivers (t ∷ ts) d = do d' ← add_sliver t d; add_slivers ts d'

  abbrev pub file_site :
      SiteInfo F → List (String × List (SiteInfo F)) → Result (List (String × List (SiteInfo F)))
  file_site i d = change_at (λ infos. infos ++ i ∷ []) i.city d

  -- The loop over site_dict.
  unfoldable pub file_sites :
      List (SiteInfo F)
      → List (String × List (SiteInfo F))
      → Result (List (String × List (SiteInfo F)))
  file_sites [] d = ok d
  file_sites (i ∷ is) d = do d' ← file_site i d; file_sites is d'

  unfoldable pub get_sites_info :
      List (Site F) → List (SliverTool F) → Result (List (String × List (SiteInfo F)))
  get_sites_info sites sliver_tools = do
    d ← add_slivers sliver_tools (add_sites sites [])
    file_sites (r.items (values d)) (add_cities sites [])
