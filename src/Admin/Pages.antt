-- ===== src/Admin/Pages.antt =====
-- The pages of AdminHandler of server/mlabns/handlers/admin.py: sliver_tool_view, site_view and
-- map_view, with what they show as data in place of HTML.
use mlab_ns.Base.{String, Bool, Option, none, some, List, ◌∷◌, ◌==◌, map, if◌then◌else◌}
use mlab_ns.Base.Errors.{Result, ok, ◌>>=◌}
use mlab_ns.Model.{SliverTool, Site}
use mlab_ns.IpUpdate.{Production}
use mlab_ns.Store.{Store, Datastore, stored_slivers, stored_sites}
use mlab_ns.Admin.{
  View, redirect, site_view, sliver_tool_view, not_found, map_view, get, SiteInfo, Rendering,
  get_sites_info,
}

-- sliver_tool_info of sliver_tool_view, a row of its table.
pub record SliverRow : Type 0 where
  pub tool_id : String
  pub site_id : String
  pub slice_id : String
  pub server_id : String
  pub status_ipv4 : String
  pub status_ipv6 : String
  pub sliver_ipv4 : String
  pub sliver_ipv6 : String
  pub when : String

-- site_info of site_view, a row of its table.
pub record SiteRow (F : Type 0) : Type 0 where
  pub site_id : String
  pub city : String
  pub country : String
  pub latitude : F
  pub longitude : F
  pub metro : List String
  pub when : String

-- A page, and where a redirect leads. A map has the sites of each city, its tool and address family.
pub data Page (F : Type 0) : Type 0 where
  redirected : String → Page F
  no_page : Page F
  sites_page : List (SiteRow F) → Page F
  slivers_page : List SliverRow → Page F
  map_page : List (String × List (SiteInfo F)) → String → String → Page F

-- What the pages are made with: the order of a query, whether the object of a query with these
-- results is true, what memcache holds outside of the namespaces, and the times as text.
pub record Listing (F : Type 0) : Type 0 where
  pub by_tool_id : List (SliverTool F) → List (SliverTool F)
  pub by_site_id : List (Site F) → List (Site F)
  pub query_is_true : List (SliverTool F) → Bool
  pub without_namespace : String → Option (List (SliverTool F))
  pub sliver_when : SliverTool F → String
  pub site_when : Site F → String

module _ {F : Type 0} (l : Listing F) where
  abbrev pub sliver_row : SliverTool F → SliverRow
  sliver_row t = record {
    tool_id = t.tool_id;
    site_id = t.site_id;
    slice_id = t.slice_id;
    server_id = t.server_id;
    status_ipv4 = t.status_ipv4;
    status_ipv6 = t.status_ipv6;
    sliver_ipv4 = t.sliver_ipv4;
    sliver_ipv6 = t.sliver_ipv6;
    when = l.sliver_when t;
  }

  abbrev pub site_row : Site F → SiteRow F
  site_row s = record {
    site_id = s.site_id;
    city = s.city;
    country = s.country;
    latitude = s.latitude;
    longitude = s.longitude;
    metro = s.metro;
    when = l.site_when s;
  }

  -- The records of sliver_tool_view and of site_view.
  unfoldable pub sliver_tool_records : Store F → List SliverRow
  sliver_tool_records s = map sliver_row (l.by_tool_id (stored_slivers s))

  unfoldable pub site_records : Store F → List (SiteRow F)
  site_records s = map site_row (l.by_site_id (stored_sites s))

  module _ (p : Production) (r : Rendering F) (ds : Datastore F) (s : Store F) where
    -- The map of these slivers.
    abbrev pub map_of : String → String → List (SliverTool F) → Result (Page F)
    map_of tool_id family ts = do
      cities ← get_sites_info p r family (l.by_site_id (stored_sites s)) ts
      ok (map_page cities tool_id family)

    -- The map of what a query finds, where the query is true.
    abbrev pub map_of_query : String → String → List (SliverTool F) → Result (Page F)
    map_of_query tool_id family ts =
        if l.query_is_true ts then map_of tool_id family ts else ok no_page

    -- The map of what memcache holds, or else of what the datastore has for the tool.
    abbrev pub map_of_cached : String → String → Option (List (SliverTool F)) → Result (Page F)
    map_of_cached tool_id family (some (t ∷ ts)) = map_of tool_id family (t ∷ ts)
    map_of_cached tool_id family _ = map_of_query tool_id family (
        l.by_tool_id (
          ds.select (stored_slivers s)
            (record { tool_id = tool_id; site_ids = none; country = none })))

    -- AdminHandler.map_view
    unfoldable pub map_view_page : String → String → Result (Page F)
    map_view_page tool_id family =
        if tool_id == "all"
        then map_of_query tool_id family (l.by_tool_id (stored_slivers s))
        else map_of_cached tool_id family (l.without_namespace tool_id)

    abbrev pub page_of : View → Result (Page F)
    page_of (redirect path) = ok (redirected path)
    page_of site_view = ok (sites_page (site_records s))
    page_of sliver_tool_view = ok (slivers_page (sliver_tool_records s))
    page_of not_found = ok no_page
    page_of (map_view tool_id family) = map_view_page tool_id family

    -- AdminHandler.get, with the page that it calls for.
    unfoldable pub get_page : String → Result (Page F)
    get_page path = page_of (get path)
