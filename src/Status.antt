-- ===== src/Status.antt =====
-- StatusUpdateHandler.update_sliver_tools_status of server/mlabns/handlers/update.py: what
-- monitoring says of the slivers of a tool goes to the datastore and to memcache.
pub mod Kept
pub mod Map
pub mod Offline
pub mod Repaired
use mlab_ns.Base.{
  ℕ, String, Bool, true, false, ◌||◌, not, Option, none, some, List, [], ◌∷◌, ◌==◌, if◌then◌else◌,
}
use mlab_ns.Base.Dict.{lookup, insert}
use mlab_ns.Message.{no_ip_address, status_online, status_offline, prometheus_tool_extra}
use mlab_ns.Model.{SliverTool}
use mlab_ns.Env.{Env}
use mlab_ns.Fetcher.{ToolProperties, datastore_fetch}
use Prim.Native.String.{◌++◌}

-- What monitoring says of one sliver.
pub record SliverStatus : Type 0 where
  pub status : String
  pub tool_extra : String

-- slice_status: the slivers by their FQDN.
abbrev pub SliceStatus : Type 0
SliceStatus = List (String × SliverStatus)

-- What stands in for a sliver whose IPv6 status monitoring does not know.
abbrev pub unknown_ipv6 : SliverStatus
unknown_ipv6 = record {
  status = status_offline;
  tool_extra = prometheus_tool_extra ++ " (Family \"_ipv6\" for sliver not known by monitoring).";
}

-- A write: db.put of the tools, or memcache.set under the tool id.
pub data Write (F : Type 0) : Type 0 where
  put : List (SliverTool F) → Write F
  cache : String → List (SliverTool F) → Write F

module _ {F : Type 0} where
  -- The branch of the family '' that changes the IPv4 status.
  unfoldable pub update_ipv4 : SliverStatus → SliverTool F → SliverTool F
  update_ipv4 s t =
      if t.sliver_ipv4 == no_ip_address
      then (if t.status_ipv4 == status_online then record t { status_ipv4 = status_offline } else t)
      else if not (t.status_ipv4 == s.status) || not (t.tool_extra == s.tool_extra)
      then record t { status_ipv4 = s.status; tool_extra = s.tool_extra }
      else t

  -- The branch of the family '_ipv6'.
  unfoldable pub update_ipv6 : SliverStatus → SliverTool F → SliverTool F
  update_ipv6 s t =
      if t.sliver_ipv6 == no_ip_address
      then (if t.status_ipv6 == status_online then record t { status_ipv6 = status_offline } else t)
      else if not (t.status_ipv6 == s.status) || not (t.tool_extra == s.tool_extra)
      then record t { status_ipv6 = s.status; tool_extra = s.tool_extra }
      else t

  abbrev pub stamp : (SliverTool F → ℕ) → SliverTool F → SliverTool F
  stamp now t = record t { update_request_timestamp = now t }

  -- The tool with the status of its family; none for a family that is neither '' nor '_ipv6'.
  unfoldable pub update_family :
      String → (SliverTool F → ℕ) → SliverStatus → SliverTool F → Option (SliverTool F)
  update_family family now s t =
      if family == ""
      then some (stamp now (update_ipv4 s t))
      else if family == "_ipv6"
      then some (stamp now (update_ipv6 s t))
      else none

  abbrev append_some : Option (SliverTool F) → List (SliverTool F) → List (SliverTool F)
  append_some none ts = ts
  append_some (some t) ts = t ∷ ts

  -- The loop over the tools: those updated, from what monitoring knows, which the loop extends.
  -- The time at which a tool is handled is that of the argument now.
  unfoldable pub update_tools :
      String → (SliverTool F → ℕ) → SliceStatus → List (SliverTool F) → List (SliverTool F)
  update_tools family now known [] = []
  update_tools family now known (t ∷ ts) = elim (lookup t.fqdn known) [
    | some s ↦ append_some (update_family family now s t) (update_tools family now known ts)
    | none ↦
        let extended =
          append_some (update_family family now unknown_ipv6 t)
            (update_tools family now (insert t.fqdn unknown_ipv6 known) ts) in
        let same = t ∷ update_tools family now known ts in
        if family == "_ipv6" then extended else same
  ]

  -- if updated_sliver_tools: db.put(...); memcache.set(...). A failed put is logged only.
  abbrev pub writes_of : String → List (SliverTool F) → List (Write F)
  writes_of tool_id [] = []
  writes_of tool_id (t ∷ ts) = put (t ∷ ts) ∷ cache tool_id (t ∷ ts) ∷ []

-- ToolProperties(tool_id=tool_id, all_slivers=True)
abbrev pub all_of_tool : String → ToolProperties
all_of_tool tool_id = record {
  tool_id = tool_id;
  status = none;
  all_slivers = true;
  address_family = none;
  metro = none;
  country = none;
}

module _ {F G : Type 0} (env : Env F G) where
  unfoldable pub update_sliver_tools_status :
      (SliverTool F → ℕ) → SliceStatus → String → String → G → List (Write F)
  update_sliver_tools_status now slice_status tool_id family g =
      writes_of tool_id
        (update_tools family now slice_status (datastore_fetch env (all_of_tool tool_id) g).0)
