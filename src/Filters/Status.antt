-- ===== src/Filters/Status.antt =====
-- What the status and country filters keep.
use mlab_ns.Base.{
  String, true, Option, none, some, List, ◌==◌, ◌≡◌, ◌≢◌, ◌↔◌, ◌⊎◌, arith, eq_iff, All, All-keep,
  All-map, Memᴰ, All-Memᴰ, All-self, Memᴰ-keep,
}
use mlab_ns.Model.{SliverTool}
use mlab_ns.Filters.{status_attrs, any_status, filter_by_status, filter_by_country}

-- The tool has the status on the interface that the address family names, and on one of its
-- interfaces where no address family is named.
abbrev pub StatusOn : {F : Type 0} → Option String → String → SliverTool F → Type 0
StatusOn address_family status t =
    (address_family ≡ some "ipv4" → t.status_ipv4 ≡ status)
    × (address_family ≡ some "ipv6" → t.status_ipv6 ≡ status)
    × ((t.status_ipv4 ≡ status) ⊎ (t.status_ipv6 ≡ status))

ipv4-ne-ipv6 : ◌≢◌ {A = String} "ipv4" "ipv6"
ipv4-ne-ipv6 = ground (arith, eq_iff "ipv4" "ipv6")

module _ {F : Type 0} where
  pub any_status_iff :
      (t : SliverTool F) (address_family : Option String) (status : String)
      → (any_status t status (status_attrs address_family) ≡ true)
        ↔ StatusOn address_family status t
  any_status_iff t none status =
      ground (arith, eq_iff t.status_ipv4 status, eq_iff t.status_ipv6 status)
  any_status_iff t (some af) status = ground (
    arith,
    eq_iff t.status_ipv4 status,
    eq_iff t.status_ipv6 status,
    eq_iff af "ipv4",
    eq_iff af "ipv6",
    ipv4-ne-ipv6,
  )

  pub All-filter_by_status :
      (P : SliverTool F → Type 0) (tools : List (SliverTool F)) (af : Option String)
      (status : String)
      → All P tools
      → All (λ t. P t × StatusOn af status t) (filter_by_status tools af status)
  unfolding filter_by_status
  All-filter_by_status P tools af status h =
      All-map (λ t. P t × (any_status t status (status_attrs af) ≡ true))
        (λ t. P t × StatusOn af status t) _ (λ t p. (p.0, (any_status_iff t af status).0 p.1))
        (All-keep P (λ t. any_status t status (status_attrs af)) tools h)

  pub All-filter_by_country :
      (P : SliverTool F → Type 0) (tools : List (SliverTool F)) (country : String)
      → All P tools
      → All (λ t. P t × (t.country ≡ country)) (filter_by_country tools country)
  unfolding filter_by_country
  All-filter_by_country P tools country h =
      All-map (λ t. P t × ((t.country == country) ≡ true)) (λ t. P t × (t.country ≡ country)) _
        (λ t p. (p.0, (eq_iff t.country country).0 p.1))
        (All-keep P (λ t. t.country == country) tools h)

  -- A tool is kept by the status filter exactly if it was given and has the status on the
  -- interface that the address family names, or on either interface where none is named.
  pub filter_by_status_iff :
      (tools : List (SliverTool F)) (af : Option String) (status : String) (t : SliverTool F)
      → (Memᴰ t (filter_by_status tools af status) → Memᴰ t tools × StatusOn af status t)
        × (Memᴰ t tools → StatusOn af status t → Memᴰ t (filter_by_status tools af status))
  unfolding filter_by_status
  filter_by_status_iff tools af status t = (
    λ m.
        let kept =
          All-Memᴰ (λ x. Memᴰ x tools × StatusOn af status x)
            (All-filter_by_status (λ x. Memᴰ x tools) tools af status (All-self tools)) m in
        (kept.0, kept.1),
    λ m s. Memᴰ-keep _ tools m ((any_status_iff t af status).1 s),
  )
