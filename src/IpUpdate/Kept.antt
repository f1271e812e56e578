-- ===== src/IpUpdate/Kept.antt =====
-- What the update of addresses keeps: a predicate on slivers that set_sliver_tool keeps, and that a
-- new sliver at a site has, holds of every sliver that is read or put.
use mlab_ns.Base.{
  ℕ, String, Bool, true, false, Option, none, some, List, [], ◌∷◌, ◌++◌, ◌==◌, if◌then◌else◌,
  if_elim, sym, subst, All, All-map, All-map_of, All-keep, All-append,
}
use mlab_ns.Model.{SliverTool, Site, Tool}
use mlab_ns.Fqdn.{get_slice_site_server_ids}
use mlab_ns.IpUpdate.{
  Row, Production, Slivers, on_site, of_ids, set_sliver_tool, initialize_sliver_tool, update_sliver,
  update_slice, update_rows, is_production_slice,
}
use mlab_ns.IpUpdate.Sliver.{set_sliver_tool_lem}

module _ {F : Type 0} (now : ℕ) (P : SliverTool F → Type 0) (AtSite : Site F → Type 0) where
  -- P does not read the fields that set_sliver_tool changes, and new slivers have it.
  pub record IsKept : Type 0 where
    pub changed :
        (t : SliverTool F) (ipv4 ipv6 : String) (rr : Bool) (fqdn : String)
        → P t
        → P (record t { sliver_ipv4 = ipv4; sliver_ipv6 = ipv6; roundrobin = rr; fqdn = fqdn })
    pub made :
        (tool : Tool) (site : Site F) (server_id fqdn : String)
        → AtSite site
        → P (initialize_sliver_tool now tool site server_id fqdn)

  -- All slivers, those read and those put.
  abbrev pub Kept : Slivers F → Type 0
  Kept s = All P s.known × All P s.puts

  put_if-All :
      (updated : Bool) (t : SliverTool F) (puts : List (SliverTool F))
      → P t
      → All P puts
      → All P (if updated then puts ++ t ∷ [] else puts)
  put_if-All true t puts h hs = All-append P puts (t ∷ []) hs (h, tt)
  put_if-All false t puts h hs = hs

  module _ (is : IsKept) where
    set_sliver_tool-kept :
        (t : SliverTool F) (ipv4 ipv6 : String) (rr : Bool) (fqdn : String)
        → P t
        → P (set_sliver_tool t ipv4 ipv6 rr fqdn).0
    set_sliver_tool-kept t ipv4 ipv6 rr fqdn h =
        subst P (sym (set_sliver_tool_lem t ipv4 ipv6 rr fqdn).0) (is.changed t _ _ rr fqdn h)

    update_sliver-Kept :
        (row : Row) (site : Site F) (tool : Tool) (server_id : String) (ts : List (SliverTool F))
        (s : Slivers F)
        → AtSite site
        → All P ts
        → Kept s
        → Kept (update_sliver now row site tool server_id ts s)
    unfolding update_sliver
    update_sliver-Kept row site tool server_id [] s at h (k, p) = (
      k,
      put_if-All _ _ s.puts
          (set_sliver_tool-kept (initialize_sliver_tool now tool site server_id row.hostname)
            row.ipv4 row.ipv6 site.roundrobin row.hostname
            (is.made tool site server_id row.hostname at))
          p,
    )
    update_sliver-Kept row site tool server_id (t ∷ []) s at (h, _) (k, p) =
        let new = set_sliver_tool-kept t row.ipv4 row.ipv6 site.roundrobin row.hostname h in
        (
          All-map_of P P _ s.known
              (λ u e. if_elim (λ r. P r) (u.key_name == t.key_name) _ u (λ _. new) (λ _. e)) k,
          put_if-All _ _ s.puts new p,
        )
    update_sliver-Kept row site tool server_id (t ∷ u ∷ ts) s at h k = k

    update_slice-Kept :
        (row : Row) (site : Site F) (slice_id server_id : String) (tools : List Tool)
        (s : Slivers F)
        → AtSite site
        → Kept s
        → Kept (update_slice now row site slice_id server_id tools s)
    unfolding update_slice
    update_slice-Kept row site slice_id server_id [] s at k = k
    update_slice-Kept row site slice_id server_id (tool ∷ tools) s at k =
        update_slice-Kept row site slice_id server_id tools _ at (
          update_sliver-Kept row site tool server_id _ s at
            (All-map _ P _ (λ u h. h.0) (All-keep P _ s.known k.0)) k)

    on_site-Kept :
        (row : Row) (slice_id server_id : String) (tools : List Tool) (sites : List (Site F))
        (s : Slivers F)
        → All AtSite sites
        → Kept s
        → Kept (on_site now row slice_id server_id tools sites s)
    on_site-Kept row slice_id server_id tools [] s ats k = k
    on_site-Kept row slice_id server_id tools (site ∷ more) s (at, ats) k =
        update_slice-Kept row site slice_id server_id _ s at k

    of_ids-Kept :
        (row : Row) (sites : List (Site F)) (tools : List Tool)
        (ids : Option (String × String × String)) (s : Slivers F)
        → All AtSite sites
        → Kept s
        → Kept (of_ids now row sites tools ids s)
    of_ids-Kept row sites tools none s ats k = k
    of_ids-Kept row sites tools (some (slice_id, site_id, server_id)) s ats k =
        on_site-Kept row slice_id server_id tools _ s
          (All-map _ AtSite _ (λ x h. h.0) (All-keep AtSite _ sites ats)) k

    -- The update of the addresses from any rows keeps P, of the slivers that were read and of those
    -- that are written.
    pub update_rows-Kept :
        (p : Production) (sites : List (Site F)) (tools : List Tool) (rows : List Row)
        (s : Slivers F)
        → All AtSite sites
        → Kept s
        → Kept (update_rows now p sites tools rows s)
    unfolding update_rows
    update_rows-Kept p sites tools [] s ats k = k
    update_rows-Kept p sites tools (row ∷ rows) s ats k =
        update_rows-Kept p sites tools rows _ ats (
          if_elim Kept (is_production_slice p row.hostname) _ s
            (λ _. of_ids-Kept row sites tools (get_slice_site_server_ids row.hostname) s ats k)
            (λ _. k))
