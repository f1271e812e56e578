-- ===== src/Status/Kept.antt =====
-- What a status update keeps: a predicate on slivers that reads none of the fields that it sets.
use mlab_ns.Base.{ℕ, String, Option, none, some, List, sym, subst, All, All-map_of}
use mlab_ns.Base.Dict.{lookup}
use mlab_ns.Model.{SliverTool}
use mlab_ns.Status.{SliverStatus, SliceStatus, update_ipv4, update_ipv6, update_tools}
use mlab_ns.Status.Map.{ipv4_result, ipv6_result, update_tools_ipv4_by, update_tools_ipv6_by}
use mlab_ns.Status.Offline.{update_ipv4_cases, update_ipv6_cases}

module _ {F : Type 0} (P : SliverTool F → Type 0) where
  -- P does not change with the status, tool_extra and the time stamp.
  pub record IsStatic : Type 0 where
    pub ipv4 :
        (t : SliverTool F) (status extra : String)
        → P (record t { status_ipv4 = status; tool_extra = extra })
        → P t
    pub ipv6 :
        (t : SliverTool F) (status extra : String)
        → P (record t { status_ipv6 = status; tool_extra = extra })
        → P t
    pub stamped : (t : SliverTool F) (n : ℕ) → P t → P (record t { update_request_timestamp = n })

  module _ (static : IsStatic) (now : SliverTool F → ℕ) where
    update_ipv4-kept : (s : SliverStatus) (t : SliverTool F) → P t → P (update_ipv4 s t)
    update_ipv4-kept s t h = static.ipv4 _ _ _ (subst P (sym (update_ipv4_cases s t).2) h)

    update_ipv6-kept : (s : SliverStatus) (t : SliverTool F) → P t → P (update_ipv6 s t)
    update_ipv6-kept s t h = static.ipv6 _ _ _ (subst P (sym (update_ipv6_cases s t).2) h)

    ipv4_result-kept : (o : Option SliverStatus) (t : SliverTool F) → P t → P (ipv4_result now o t)
    ipv4_result-kept none t h = h
    ipv4_result-kept (some s) t h = static.stamped _ _ (update_ipv4-kept s t h)

    -- An update of the slivers of a tool keeps P.
    pub update_tools_ipv4-All :
        (known : SliceStatus) (ts : List (SliverTool F))
        → All P ts
        → All P (update_tools "" now known ts)
    update_tools_ipv4-All known ts h = subst (All P) (sym (update_tools_ipv4_by now known ts)) (
        All-map_of P P (λ t. ipv4_result now (lookup t.fqdn known) t) ts
          (λ t p. ipv4_result-kept _ t p) h)

    pub update_tools_ipv6-All :
        (known : SliceStatus) (ts : List (SliverTool F))
        → All P ts
        → All P (update_tools "_ipv6" now known ts)
    update_tools_ipv6-All known ts h = subst (All P) (sym (update_tools_ipv6_by now known ts)) (
        All-map_of P P (λ t. ipv6_result now (lookup t.fqdn known) t) ts
          (λ t p. static.stamped _ _ (update_ipv6-kept _ t p)) h)
