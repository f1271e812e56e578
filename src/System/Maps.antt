-- ===== src/System/Maps.antt =====
-- The administration pages in the states that the system reaches.
use mlab_ns.Base.{String, List, ◌≡◌, ◌⊎◌, All, Memᴰ, Permᴰ, true}
use mlab_ns.Base.Dict.{Has}
use mlab_ns.Base.Errors.{Result, ok}
use mlab_ns.Model.{SliverTool, Site}
use mlab_ns.IpUpdate.{Production, is_production_slice}
use mlab_ns.Store.{Store, stored_slivers, stored_sites}
use mlab_ns.Admin.{redirect, Rendering, SiteInfo}
use mlab_ns.Admin.Filed.{FiledByCity}
use mlab_ns.Admin.Complete.{IsOnMap}
use mlab_ns.Admin.Views.{LeadsToMap}
use mlab_ns.Admin.Pages.{Page, redirected, no_page, sites_page, slivers_page, map_page, Listing}

-- What the platform does with a list that it orders: nothing is added and nothing left out.
pub record ListingLaws {F : Type 0} (l : Listing F) (r : Rendering F) : Type 0 where
  pub slivers : (ts : List (SliverTool F)) → Permᴰ ts (l.by_tool_id ts)
  pub sites : (xs : List (Site F)) → Permᴰ (l.by_site_id xs) xs
  pub items : (is : List (SiteInfo F)) → Permᴰ is (r.items is)

-- The map of a tool, or of all, is to show the sliver.
abbrev pub IsAskedFor : {F : Type 0} → String → SliverTool F → Type 0
IsAskedFor tool_id t = (tool_id ≡ "all") ⊎ (t.tool_id ≡ tool_id)

-- Slivers of the tool that a map is about, which may be all.
abbrev pub AreOf : {F : Type 0} → String → List (SliverTool F) → Type 0
AreOf tool_id ts = (tool_id ≡ "all") ⊎ All (λ t. t.tool_id ≡ tool_id) ts

module _ {F : Type 0} (l : Listing F) (p : Production) (r : Rendering F) (s : Store F) where
  -- A map has every city that has a site, every site under the name of its city, and at a site what
  -- is shown of slivers of the tool in production that stand there; and every sliver of the tool in
  -- production is on it. A redirect leads to a map.
  abbrev pub Shows : Page F → Type 0
  Shows (redirected path) = LeadsToMap (redirect path)
  Shows no_page = Unit
  Shows (sites_page rows) = Unit
  Shows (slivers_page rows) = Unit
  Shows (map_page cities tool_id family) =
      All (λ (x : Site F). Has x.city cities) (stored_sites s)
      × ((ts : List (SliverTool F)) × AreOf tool_id ts × All (FiledByCity p r family ts) cities)
      × All
          (λ (t : SliverTool F).
            IsAskedFor tool_id t
            → is_production_slice p t.fqdn ≡ true
            → IsOnMap p r family cities t)
          (stored_slivers s)

  -- The slivers that the map is to show are among these.
  abbrev Covers : String → List (SliverTool F) → Type 0
  Covers tool_id ts =
      (t : SliverTool F) → Memᴰ t (stored_slivers s) → IsAskedFor tool_id t → Memᴰ t ts

  abbrev IsShown : Result (Page F) → Type 0
  IsShown result = (page : Page F) × (result ≡ ok page) × Shows page
