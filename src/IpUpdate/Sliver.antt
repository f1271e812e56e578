-- ===== src/IpUpdate/Sliver.antt =====
-- What the update of a sliver's addresses leaves behind.
use mlab_ns.Base.{String, Bool, true, false, ◌≡◌, ◌≢◌, arith, eq_iff}
use mlab_ns.Model.{SliverTool}
use mlab_ns.IpUpdate.{or_off, set_sliver_tool}

module _ {F : Type 0} (t : SliverTool F) (ipv4 ipv6 : String) (rr : Bool) (fqdn : String) where
  -- After an update the sliver has the addresses of the row ("off" for one that is missing), the
  -- round robin flag of the site and the host name, and all else as it was. The update reports a
  -- change exactly if the sliver was different before.
  pub set_sliver_tool_lem :
      ((set_sliver_tool t ipv4 ipv6 rr fqdn).0 ≡ record t {
        sliver_ipv4 = or_off ipv4;
        sliver_ipv6 = or_off ipv6;
        roundrobin = rr;
        fqdn = fqdn;
      })
      × ((set_sliver_tool t ipv4 ipv6 rr fqdn).1 ≡ false
          → (set_sliver_tool t ipv4 ipv6 rr fqdn).0 ≡ t)
      × ((set_sliver_tool t ipv4 ipv6 rr fqdn).1 ≡ true
          → (set_sliver_tool t ipv4 ipv6 rr fqdn).0 ≢ t)
  unfolding set_sliver_tool
  set_sliver_tool_lem = ground (
    arith,
    eq_iff t.sliver_ipv4 (or_off ipv4),
    eq_iff t.sliver_ipv6 (or_off ipv6),
    eq_iff t.fqdn fqdn,
  )
