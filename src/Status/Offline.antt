-- ===== src/Status/Offline.antt =====
-- A sliver without an address on an interface is not shown as online there.
use mlab_ns.Base.{ℕ, Option, none, some, List, ◌≡◌, ◌≢◌, sym, arith, eq_iff, All, All-map_of, subst}
use mlab_ns.Model.{SliverTool}
use mlab_ns.Status.{SliverStatus, SliceStatus, update_ipv4, update_ipv6, stamp, update_tools}
use mlab_ns.Status.Map.{ipv4_result, update_tools_ipv4_by, update_tools_ipv6_by}

module _ {F : Type 0} where
  -- What an update of the IPv4 status does to a sliver: online never without an address, the
  -- status and the note of monitoring with one, and nothing else changes.
  pub update_ipv4_cases :
      (s : SliverStatus) (t : SliverTool F)
      → (t.sliver_ipv4 ≡ "off" → (update_ipv4 s t).status_ipv4 ≢ "online")
        × (t.sliver_ipv4 ≢ "off"
            → ((update_ipv4 s t).status_ipv4 ≡ s.status)
              × ((update_ipv4 s t).tool_extra ≡ s.tool_extra))
        × (record (update_ipv4 s t) { status_ipv4 = t.status_ipv4; tool_extra = t.tool_extra } ≡ t)
  unfolding update_ipv4
  update_ipv4_cases s t = ground (
    arith,
    eq_iff t.sliver_ipv4 "off",
    eq_iff t.status_ipv4 "online",
    eq_iff t.status_ipv4 s.status,
    eq_iff t.tool_extra s.tool_extra,
    eq_iff "offline" "online",
  )

  -- So too for the IPv6 status.
  pub update_ipv6_cases :
      (s : SliverStatus) (t : SliverTool F)
      → (t.sliver_ipv6 ≡ "off" → (update_ipv6 s t).status_ipv6 ≢ "online")
        × (t.sliver_ipv6 ≢ "off"
            → ((update_ipv6 s t).status_ipv6 ≡ s.status)
              × ((update_ipv6 s t).tool_extra ≡ s.tool_extra))
        × (record (update_ipv6 s t) { status_ipv6 = t.status_ipv6; tool_extra = t.tool_extra } ≡ t)
  unfolding update_ipv6
  update_ipv6_cases s t = ground (
    arith,
    eq_iff t.sliver_ipv6 "off",
    eq_iff t.status_ipv6 "online",
    eq_iff t.status_ipv6 s.status,
    eq_iff t.tool_extra s.tool_extra,
    eq_iff "offline" "online",
  )

  -- Without an address on an interface the sliver is not online on it.
  pub record HasAddresses (t : SliverTool F) : Type 0 where
    pub ipv4 : t.sliver_ipv4 ≡ "off" → t.status_ipv4 ≢ "online"
    pub ipv6 : t.sliver_ipv6 ≡ "off" → t.status_ipv6 ≢ "online"

  update_ipv4-HasAddresses :
      (s : SliverStatus) (t : SliverTool F) → HasAddresses t → HasAddresses (update_ipv4 s t)
  unfolding update_ipv4
  update_ipv4-HasAddresses s t h = ground (
    arith,
    eq_iff t.sliver_ipv4 "off",
    eq_iff t.status_ipv4 "online",
    eq_iff "offline" "online",
    h.ipv4,
    h.ipv6,
  )

  update_ipv6-HasAddresses :
      (s : SliverStatus) (t : SliverTool F) → HasAddresses t → HasAddresses (update_ipv6 s t)
  unfolding update_ipv6
  update_ipv6-HasAddresses s t h = ground (
    arith,
    eq_iff t.sliver_ipv6 "off",
    eq_iff t.status_ipv6 "online",
    eq_iff "offline" "online",
    h.ipv4,
    h.ipv6,
  )

  module _ (now : SliverTool F → ℕ) where
    stamp-HasAddresses : (t : SliverTool F) → HasAddresses t → HasAddresses (stamp now t)
    stamp-HasAddresses t h = record { ipv4 = h.ipv4; ipv6 = h.ipv6 }

    ipv4_result-HasAddresses :
        (o : Option SliverStatus) (t : SliverTool F)
        → HasAddresses t
        → HasAddresses (ipv4_result now o t)
    ipv4_result-HasAddresses none t h = h
    ipv4_result-HasAddresses (some s) t h = stamp-HasAddresses _ (update_ipv4-HasAddresses s t h)

    -- An update of either family keeps it so that no sliver is online on an interface on which it
    -- has no address, whatever monitoring says.
    pub update_tools-HasAddresses :
        (known : SliceStatus) (ts : List (SliverTool F))
        → All HasAddresses ts
        → All HasAddresses (update_tools "" now known ts)
          × All HasAddresses (update_tools "_ipv6" now known ts)
    update_tools-HasAddresses known ts h = (
      subst (All HasAddresses) (sym (update_tools_ipv4_by now known ts))
          (All-map_of HasAddresses HasAddresses _ ts (λ t p. ipv4_result-HasAddresses _ t p) h),
      subst (All HasAddresses) (sym (update_tools_ipv6_by now known ts)) (
          All-map_of HasAddresses HasAddresses _ ts
            (λ t p. stamp-HasAddresses _ (update_ipv6-HasAddresses _ t p)) h),
    )
