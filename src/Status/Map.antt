-- ===== src/Status/Map.antt =====
-- The loop over the tools as a map: each tool gets what monitoring says of its FQDN.
use mathlib.Core.Path.{fun_ext}
use mlab_ns.Base.{if◌then◌else◌, Bool-cases}
use mlab_ns.Base.{
  ℕ, String, Option, none, some, List, [], ◌∷◌, ◌==◌, map, option_or, ◌≡◌, refl, sym, ap, ◌∙◌,
  eq_iff, if_elim, Option-cases, inl, inr,
}
use mlab_ns.Base.Dict.{lookup, insert, lookup-insert}
use mlab_ns.Model.{SliverTool}
use mlab_ns.Status.{
  SliverStatus, SliceStatus, unknown_ipv6, update_ipv4, update_ipv6, stamp, update_family,
  update_tools,
}

cons_path : {A : Type 0} {x y : A} {xs ys : List A} → x ≡ y → xs ≡ ys → x ∷ xs ≡ y ∷ ys
cons_path e f = cc

module _ {F : Type 0} (now : SliverTool F → ℕ) where
  -- An IPv6 status that monitoring does not know counts as offline.
  abbrev pub ipv6_result : Option SliverStatus → SliverTool F → SliverTool F
  ipv6_result found t = stamp now (update_ipv6 (option_or unknown_ipv6 found) t)

  -- An IPv4 status that monitoring does not know leaves the tool as it is, its time stamp too.
  abbrev pub ipv4_result : Option SliverStatus → SliverTool F → SliverTool F
  ipv4_result none t = t
  ipv4_result (some s) t = stamp now (update_ipv4 s t)

  -- To record a sliver as unknown changes no later answer.
  unknown-insert :
      (k j : String) (known : SliceStatus)
      → lookup k known ≡ none
      → option_or unknown_ipv6 (lookup j (insert k unknown_ipv6 known))
        ≡ option_or unknown_ipv6 (lookup j known)
  unknown-insert k j known e = rw (lookup-insert k j unknown_ipv6 known) (
      if_elim
        (λ (o : Option SliverStatus).
          option_or unknown_ipv6 o ≡ option_or unknown_ipv6 (lookup j known))
        (k == j) _ _
        (λ same.
          ap (option_or unknown_ipv6)
            (sym e ∙ ap (λ (i : String). lookup i known) ((eq_iff k j).0 same)))
        (λ _. refl))

  -- The IPv6 update of the slivers of a tool is a map.
  pub update_tools_ipv6_by :
      (known : SliceStatus) (ts : List (SliverTool F))
      → update_tools "_ipv6" now known ts ≡ map (λ t. ipv6_result (lookup t.fqdn known) t) ts
  unfolding update_tools update_family
  update_tools_ipv6_by known [] = refl
  update_tools_ipv6_by known (t ∷ ts) = elim (Option-cases (lookup t.fqdn known)) [
    | inl e ↦
        rw (e, update_tools)
          (cons_path refl (
            update_tools_ipv6_by (insert t.fqdn unknown_ipv6 known) ts
            ∙ ap (λ (f : SliverTool F → SliverTool F). map f ts)
                (fun_ext λ u.
                  ap (λ (s : SliverStatus). stamp now (update_ipv6 s u))
                    (unknown-insert t.fqdn u.fqdn known e))))
    | inr (s, e) ↦ rw (e, update_tools) (cons_path refl (update_tools_ipv6_by known ts))
  ]

  -- The IPv4 update is a map too.
  pub update_tools_ipv4_by :
      (known : SliceStatus) (ts : List (SliverTool F))
      → update_tools "" now known ts ≡ map (λ t. ipv4_result (lookup t.fqdn known) t) ts
  unfolding update_tools update_family
  update_tools_ipv4_by known [] = refl
  update_tools_ipv4_by known (t ∷ ts) = elim (Option-cases (lookup t.fqdn known)) [
    | inl e ↦ rw (e, update_tools) (cons_path refl (update_tools_ipv4_by known ts))
    | inr (s, e) ↦ rw (e, update_tools) (cons_path refl (update_tools_ipv4_by known ts))
  ]

  -- The status that is shown of a sliver: what monitoring says where it has an address; without one,
  -- offline in place of online, and else what it was.
  abbrev pub shown_status : String → String → String → String
  shown_status address said old =
      if address == "off" then (if old == "online" then "offline" else old) else said

  -- The note of monitoring, where the sliver has an address.
  abbrev pub shown_extra : String → String → String → String
  shown_extra address said old = if address == "off" then old else said

  -- What stands for a sliver that monitoring does not know.
  abbrev pub not_known : SliverStatus
  not_known = record {
    status = "offline";
    tool_extra = "Prometheus was here \\o/. (Family \"_ipv6\" for sliver not known by monitoring).";
  }

  -- A sliver after an update of its IPv4 status: one that monitoring does not know is as it was.
  abbrev pub shown_ipv4 : Option SliverStatus → SliverTool F → SliverTool F
  shown_ipv4 none t = t
  shown_ipv4 (some s) t = stamp now (record t {
    status_ipv4 = shown_status t.sliver_ipv4 s.status t.status_ipv4;
    tool_extra = shown_extra t.sliver_ipv4 s.tool_extra t.tool_extra;
  })

  abbrev pub shown_ipv6_as : SliverStatus → SliverTool F → SliverTool F
  shown_ipv6_as s t = stamp now (record t {
    status_ipv6 = shown_status t.sliver_ipv6 s.status t.status_ipv6;
    tool_extra = shown_extra t.sliver_ipv6 s.tool_extra t.tool_extra;
  })

  -- A sliver after an update of its IPv6 status.
  abbrev pub shown_ipv6 : Option SliverStatus → SliverTool F → SliverTool F
  shown_ipv6 found t = shown_ipv6_as (option_or not_known found) t

  update_ipv4-shown :
      (s : SliverStatus) (t : SliverTool F) → stamp now (update_ipv4 s t) ≡ shown_ipv4 (some s) t
  unfolding update_ipv4
  update_ipv4-shown s t = elim (Bool-cases (t.sliver_ipv4 == "off")) [
    | inl off ↦ elim (Bool-cases (t.status_ipv4 == "online")) [
      | inl on ↦ rw (off, on) refl
      | inr not_on ↦ rw (off, not_on) refl
    ]
    | inr address ↦ elim (Bool-cases (t.status_ipv4 == s.status)) [
      | inl same ↦ elim (Bool-cases (t.tool_extra == s.tool_extra)) [
        | inl noted ↦
            rw (address, same, noted)
              (ap (λ (x : String). stamp now (record t { status_ipv4 = x }))
                  ((eq_iff t.status_ipv4 s.status).0 same)
                ∙ ap
                    (λ (x : String).
                      stamp now (record t { status_ipv4 = s.status; tool_extra = x }))
                    ((eq_iff t.tool_extra s.tool_extra).0 noted))
        | inr other ↦ rw (address, same, other) refl
      ]
      | inr other ↦ rw (address, other) refl
    ]
  ]

  update_ipv6-shown :
      (s : SliverStatus) (t : SliverTool F) → stamp now (update_ipv6 s t) ≡ shown_ipv6_as s t
  unfolding update_ipv6
  update_ipv6-shown s t = elim (Bool-cases (t.sliver_ipv6 == "off")) [
    | inl off ↦ elim (Bool-cases (t.status_ipv6 == "online")) [
      | inl on ↦ rw (off, on) refl
      | inr not_on ↦ rw (off, not_on) refl
    ]
    | inr address ↦ elim (Bool-cases (t.status_ipv6 == s.status)) [
      | inl same ↦ elim (Bool-cases (t.tool_extra == s.tool_extra)) [
        | inl noted ↦
            rw (address, same, noted)
              (ap (λ (x : String). stamp now (record t { status_ipv6 = x }))
                  ((eq_iff t.status_ipv6 s.status).0 same)
                ∙ ap
                    (λ (x : String).
                      stamp now (record t { status_ipv6 = s.status; tool_extra = x }))
                    ((eq_iff t.tool_extra s.tool_extra).0 noted))
        | inr other ↦ rw (address, same, other) refl
      ]
      | inr other ↦ rw (address, other) refl
    ]
  ]

  ipv4_result-shown :
      (o : Option SliverStatus) (t : SliverTool F) → ipv4_result o t ≡ shown_ipv4 o t
  ipv4_result-shown none t = refl
  ipv4_result-shown (some s) t = update_ipv4-shown s t

  ipv6_result-shown :
      (o : Option SliverStatus) (t : SliverTool F) → ipv6_result o t ≡ shown_ipv6 o t
  ipv6_result-shown none t = update_ipv6-shown not_known t
  ipv6_result-shown (some s) t = update_ipv6-shown s t

  -- The IPv6 update of the slivers of a tool is a map: every sliver is written, in the order in which
  -- they are stored. One with an IPv6 address has the status and the note that monitoring gives, or
  -- offline and a note where monitoring does not know it; one without is offline if it was online, and
  -- else has the status and the note that it had.
  pub update_tools_ipv6 :
      (known : SliceStatus) (ts : List (SliverTool F))
      → update_tools "_ipv6" now known ts ≡ map (λ t. shown_ipv6 (lookup t.fqdn known) t) ts
  update_tools_ipv6 known ts =
      update_tools_ipv6_by known ts
      ∙ ap (λ (f : SliverTool F → SliverTool F). map f ts)
          (fun_ext λ t. ipv6_result-shown (lookup t.fqdn known) t)

  -- The IPv4 update of the slivers of a tool is a map: one that monitoring does not know is as it was,
  -- its time stamp too. Of the others, one with an IPv4 address has the status and the note that
  -- monitoring gives; one without is offline if it was online, and else has the status and the note
  -- that it had.
  pub update_tools_ipv4 :
      (known : SliceStatus) (ts : List (SliverTool F))
      → update_tools "" now known ts ≡ map (λ t. shown_ipv4 (lookup t.fqdn known) t) ts
  update_tools_ipv4 known ts =
      update_tools_ipv4_by known ts
      ∙ ap (λ (f : SliverTool F → SliverTool F). map f ts)
          (fun_ext λ t. ipv4_result-shown (lookup t.fqdn known) t)
