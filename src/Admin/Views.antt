-- ===== src/Admin/Views.antt =====
-- Where the redirects of the administration pages lead.
use mlab_ns.Base.{String, Option, none, some, List, [], ◌∷◌, ◌≡◌, refl, All, ◌⊎◌, inl, inr, Memᴰ}
use mlab_ns.Base.Dict.{lookup, All-lookup}
use mlab_ns.Base.Text.{rstrip}
use mlab_ns.Admin.{View, redirect, map_view, valid_paths, view_of, get}

-- A redirect leads to a map.
abbrev pub LeadsToMap : View → Type 0
LeadsToMap (redirect path) =
    (tool_id : String) × (family : String) × (get path ≡ map_view tool_id family)
LeadsToMap _ = Unit

valid_paths-LeadsToMap : All (λ (e : String × View). LeadsToMap e.1) valid_paths
unfolding valid_paths get
valid_paths-LeadsToMap =
    (all, (all, (tt, (tt, (all, (all, (tt, (tt, (tt, (tt, (tt, (tt, (tt, (tt, (tt, tt)))))))))))))))
  where
    all : LeadsToMap (redirect "/admin/map/ipv4/all")
    all = ("all", "ipv4", refl)

-- A path that is redirected is redirected to a map: no redirect leads to another.
pub get-LeadsToMap : (path : String) → LeadsToMap (get path)
unfolding get
get-LeadsToMap path = by_view (lookup (rstrip b'/' path) valid_paths) refl
  where
    by_view : (o : Option View) → lookup (rstrip b'/' path) valid_paths ≡ o → LeadsToMap (view_of o)
    by_view none e = tt
    by_view (some v) e =
        All-lookup (λ (e : String × View). LeadsToMap e.1) _ v valid_paths valid_paths-LeadsToMap e

-- The tools that have a map of their own, under their ids.
abbrev pub mapped_tools : List String
mapped_tools = "mobiperf" ∷ "neubot" ∷ "ndt" ∷ []

-- A map is that of all tools or of one of those.
abbrev pub IsOfMapped : View → Type 0
IsOfMapped (map_view tool_id family) = (tool_id ≡ "all") ⊎ Memᴰ tool_id mapped_tools
IsOfMapped _ = Unit

valid_paths-IsOfMapped : All (λ (e : String × View). IsOfMapped e.1) valid_paths
unfolding valid_paths
valid_paths-IsOfMapped = (
  tt,
  (
    tt,
    (
      tt,
      (
        tt,
        (
          tt,
          (
            tt,
            (
              inl refl,
              (mobiperf, (neubot, (ndt, (inl refl, (inl refl, (mobiperf, (neubot, (ndt, tt)))))))),
            ),
          ),
        ),
      ),
    ),
  ),
)
  where
    mobiperf : (◌≡◌ {A = String} "mobiperf" "all") ⊎ Memᴰ "mobiperf" mapped_tools
    mobiperf = inr (Memᴰ.head refl)

    neubot : (◌≡◌ {A = String} "neubot" "all") ⊎ Memᴰ "neubot" mapped_tools
    neubot = inr (Memᴰ.tail (Memᴰ.head refl))

    ndt : (◌≡◌ {A = String} "ndt" "all") ⊎ Memᴰ "ndt" mapped_tools
    ndt = inr (Memᴰ.tail (Memᴰ.tail (Memᴰ.head refl)))

pub get-IsOfMapped : (path : String) → IsOfMapped (get path)
unfolding get
get-IsOfMapped path = by_view (lookup (rstrip b'/' path) valid_paths) refl
  where
    by_view : (o : Option View) → lookup (rstrip b'/' path) valid_paths ≡ o → IsOfMapped (view_of o)
    by_view none e = tt
    by_view (some v) e =
        All-lookup (λ (e : String × View). IsOfMapped e.1) _ v valid_paths valid_paths-IsOfMapped e
