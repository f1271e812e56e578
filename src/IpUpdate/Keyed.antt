-- ===== src/IpUpdate/Keyed.antt =====
-- The slivers that the update of addresses writes are keyed by their ids.
use mlab_ns.Base.{ℕ, List, [], ◌∷◌, ◌≡◌, refl, All}
use mlab_ns.Model.{SliverTool, Site, Tool}
use mlab_ns.IpUpdate.{Row, Production, Slivers, sliver_key, initialize_sliver_tool, update_rows}
use mlab_ns.IpUpdate.Kept.{IsKept, update_rows-Kept}

abbrev pub HasKey : {F : Type 0} → SliverTool F → Type 0
HasKey t = t.key_name ≡ sliver_key t.tool_id t.slice_id t.server_id t.site_id

-- All slivers, those read and those put, have their key.
abbrev pub Keyed : {F : Type 0} → Slivers F → Type 0
Keyed s = All HasKey s.known × All HasKey s.puts

module _ {F : Type 0} (now : ℕ) where
  -- A key is that of the ids at any site.
  abbrev AnySite : Site F → Type 0
  AnySite x = Unit

  any_sites : (sites : List (Site F)) → All AnySite sites
  any_sites [] = tt
  any_sites (x ∷ xs) = (tt, any_sites xs)

  HasKey-IsKept : IsKept now HasKey AnySite
  unfolding initialize_sliver_tool
  HasKey-IsKept = record {
    changed = λ t ipv4 ipv6 rr fqdn h. h;
    made = λ tool site server_id fqdn at. refl;
  }

  -- The update of the addresses from any rows keeps every sliver under the key of its ids, those that
  -- were read and those that are written.
  pub update_rows-Keyed :
      (p : Production) (sites : List (Site F)) (tools : List Tool) (rows : List Row) (s : Slivers F)
      → Keyed s
      → Keyed (update_rows now p sites tools rows s)
  update_rows-Keyed p sites tools rows s k =
      update_rows-Kept now HasKey AnySite HasKey-IsKept p sites tools rows s (any_sites sites) k
