-- ===== src/Filters.antt =====
-- _filter_by_status and _filter_by_country of server/mlabns/db/sliver_tool_fetcher.py.
pub mod Status
use mlab_ns.Base.{
  ℕ, ◌+◌, String, Bool, true, false, ◌||◌, Option, none, some, List, [], ◌∷◌, ◌++◌, map, ◌==◌,
  opt_eq, truthy, keep, if◌then◌else◌, is_empty,
}
use mlab_ns.Message.{address_family_ipv4, address_family_ipv6}
use mlab_ns.Runtime.{FloatOps, Chance}
use mlab_ns.Model.{SliverTool, Site, SliverToolQuery, Backend}
use mlab_ns.Env.{Env}

pub data StatusAttr : Type 0 where
  status_ipv4 status_ipv6 : StatusAttr

abbrev pub status_attrs : Option String → List StatusAttr
status_attrs address_family =
    if opt_eq address_family address_family_ipv4
    then status_ipv4 ∷ []
    else if opt_eq address_family address_family_ipv6
    then status_ipv6 ∷ []
    else status_ipv4 ∷ status_ipv6 ∷ []

module _ {F : Type 0} where
  -- getattr(tool, status_attr)
  abbrev pub get_status : SliverTool F → StatusAttr → String
  get_status tool status_ipv4 = tool.status_ipv4
  get_status tool status_ipv6 = tool.status_ipv6

  -- The inner loop: one of the attributes has the status.
  abbrev pub any_status : SliverTool F → String → List StatusAttr → Bool
  any_status tool status [] = false
  any_status tool status (attr ∷ attrs) =
      let rest = any_status tool status attrs in
      if get_status tool attr == status then true else rest

  unfoldable pub filter_by_status :
      List (SliverTool F) → Option String → String → List (SliverTool F)
  filter_by_status tools address_family status =
      keep (λ tool. any_status tool status (status_attrs address_family)) tools

  unfoldable pub filter_by_country : List (SliverTool F) → String → List (SliverTool F)
  filter_by_country tools country = keep (λ t. t.country == country) tools
