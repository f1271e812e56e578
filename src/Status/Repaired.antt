-- ===== src/Status/Repaired.antt =====
-- An update of the status puts right a sliver that is shown as online without an address.
use mlab_ns.Base.{
  ℕ, Option, none, some, List, ◌≡◌, ◌≢◌, refl, true, arith, eq_iff, sym, subst, All, All-map_of,
  All-self, Memᴰ, is_some,
}
use mlab_ns.Base.Dict.{lookup}
use mlab_ns.Model.{SliverTool}
use mlab_ns.Status.{SliverStatus, SliceStatus, update_ipv4, update_ipv6, update_tools}
use mlab_ns.Status.Map.{ipv4_result, update_tools_ipv4_by, update_tools_ipv6_by}

module _ {F : Type 0} where
  abbrev pub OfflineWithout6 : SliverTool F → Type 0
  OfflineWithout6 t = t.sliver_ipv6 ≡ "off" → t.status_ipv6 ≢ "online"

  -- After an update, a sliver is either not known to monitoring or not online without an address.
  abbrev pub OfflineWithout4 : SliceStatus → SliverTool F → Type 0
  OfflineWithout4 known t =
      is_some (lookup t.fqdn known) ≡ true → t.sliver_ipv4 ≡ "off" → t.status_ipv4 ≢ "online"

  update_ipv6-OfflineWithout6 :
      (s : SliverStatus) (t : SliverTool F) → OfflineWithout6 (update_ipv6 s t)
  unfolding update_ipv6
  update_ipv6-OfflineWithout6 s t =
      ground (
        arith,
        eq_iff t.sliver_ipv6 "off",
        eq_iff t.status_ipv6 "online",
        eq_iff "offline" "online",
      )

  update_ipv4-OfflineWithout4 :
      (s : SliverStatus) (t : SliverTool F)
      → (update_ipv4 s t).sliver_ipv4 ≡ "off"
      → (update_ipv4 s t).status_ipv4 ≢ "online"
  unfolding update_ipv4
  update_ipv4-OfflineWithout4 s t =
      ground (
        arith,
        eq_iff t.sliver_ipv4 "off",
        eq_iff t.status_ipv4 "online",
        eq_iff "offline" "online",
      )

  ipv4_result-OfflineWithout4 :
      (now : SliverTool F → ℕ) (known : SliceStatus) (o : Option SliverStatus) (t : SliverTool F)
      → lookup t.fqdn known ≡ o
      → OfflineWithout4 known (ipv4_result now o t)
  ipv4_result-OfflineWithout4 now known none t e h = absurd (cc (e, h))
  ipv4_result-OfflineWithout4 now known (some s) t e h = update_ipv4-OfflineWithout4 s t

  -- Whatever was stored before: after an IPv6 update no sliver of the tool is online on IPv6 without
  -- an address there, and after an IPv4 update no sliver that monitoring knows is online on IPv4
  -- without one.
  pub update_tools_repairs :
      (now : SliverTool F → ℕ) (known : SliceStatus) (ts : List (SliverTool F))
      → All OfflineWithout6 (update_tools "_ipv6" now known ts)
        × All (OfflineWithout4 known) (update_tools "" now known ts)
  update_tools_repairs now known ts = (
    subst (All OfflineWithout6) (sym (update_tools_ipv6_by now known ts)) (
        All-map_of (λ t. Memᴰ t ts) OfflineWithout6 _ ts (λ t m. update_ipv6-OfflineWithout6 _ t)
          (All-self ts)),
    subst (All (OfflineWithout4 known)) (sym (update_tools_ipv4_by now known ts)) (
        All-map_of (λ t. Memᴰ t ts) (OfflineWithout4 known) _ ts
          (λ t m. ipv4_result-OfflineWithout4 now known _ t refl) (All-self ts)),
  )
