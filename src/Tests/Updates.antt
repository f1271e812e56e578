-- ===== src/Tests/Updates.antt =====
-- Updates of the slivers of the small deployment.
use mlab_ns.Base.{String, some, ℕ, true, false, [], ◌∷◌, map, ◌≡◌, ◌≢◌, refl, arith, eq_iff, All}
use mlab_ns.Base.Dict.{lookup}
use mlab_ns.Model.{SliverTool}
use mlab_ns.Status.{SliverStatus, SliceStatus, update_tools}
use mlab_ns.Status.Map.{shown_ipv4, shown_ipv6, update_tools_ipv4, update_tools_ipv6}
use mlab_ns.Status.Offline.{HasAddresses, update_tools-HasAddresses}
use mlab_ns.IpUpdate.{set_sliver_tool}
use mlab_ns.Reports.{add_reports}
use mlab_ns.Reports.Last.{last_report}
use mlab_ns.Nagios.{get_slice_status, parse_sliver_tool_status, split_white, lines_of, reports_of}
use mlab_ns.Nagios.LastLine.{get_slice_status_last}
use mlab_ns.IpUpdate.Sliver.{set_sliver_tool_lem}
use mlab_ns.Tests.World.{slivers, lga_mlab1, sea_mlab1}

abbrev online : SliverStatus
online = record { status = "online"; tool_extra = "ok" }

-- Monitoring knows one sliver.
abbrev known : SliceStatus
known = ("ndt-iupui-mlab1-sea0c.mlab-oti.measurement-lab.org", online) ∷ []

abbrev clock : SliverTool ℕ → ℕ
clock t = 8

update_tools_ipv6_example :
    update_tools "_ipv6" clock known slivers
    ≡ map (λ t. shown_ipv6 clock (lookup t.fqdn known) t) slivers
update_tools_ipv6_example = update_tools_ipv6 clock known slivers

update_tools_ipv4_example :
    update_tools "" clock known slivers
    ≡ map (λ t. shown_ipv4 clock (lookup t.fqdn known) t) slivers
update_tools_ipv4_example = update_tools_ipv4 clock known slivers

lga_mlab1-HasAddresses : HasAddresses lga_mlab1
lga_mlab1-HasAddresses = record {
  ipv4 = ground (arith, eq_iff "4.14.159.86" "off");
  ipv6 = ground (arith, eq_iff "offline" "online");
}

sea_mlab1-HasAddresses : HasAddresses sea_mlab1
sea_mlab1-HasAddresses = record {
  ipv4 = ground (arith, eq_iff "offline" "online");
  ipv6 = ground (arith, eq_iff "offline" "online");
}

update_tools-HasAddresses_example :
    All HasAddresses (update_tools "" clock known (lga_mlab1 ∷ sea_mlab1 ∷ []))
    × All HasAddresses (update_tools "_ipv6" clock known (lga_mlab1 ∷ sea_mlab1 ∷ []))
update_tools-HasAddresses_example =
    update_tools-HasAddresses clock known (lga_mlab1 ∷ sea_mlab1 ∷ [])
      (lga_mlab1-HasAddresses, (sea_mlab1-HasAddresses, tt))

set_sliver_tool_lem_example :
    ((set_sliver_tool lga_mlab1 "4.14.159.86" "2001:550::1" false lga_mlab1.fqdn).0
      ≡ record lga_mlab1 { sliver_ipv4 = "4.14.159.86"; sliver_ipv6 = "2001:550::1" })
    × ((set_sliver_tool lga_mlab1 "4.14.159.86" "2001:550::1" false lga_mlab1.fqdn).1 ≡ false
        → (set_sliver_tool lga_mlab1 "4.14.159.86" "2001:550::1" false lga_mlab1.fqdn).0
          ≡ lga_mlab1)
    × ((set_sliver_tool lga_mlab1 "4.14.159.86" "2001:550::1" false lga_mlab1.fqdn).1 ≡ true
        → (set_sliver_tool lga_mlab1 "4.14.159.86" "2001:550::1" false lga_mlab1.fqdn).0
          ≢ lga_mlab1)
set_sliver_tool_lem_example =
    set_sliver_tool_lem lga_mlab1 "4.14.159.86" "2001:550::1" false lga_mlab1.fqdn

-- Two lines of Nagios, and one that is cut off.
abbrev page : String
page =
    "ndt.mlab1.lga03/ndt 0 1 TCP OK - 0.242 second response time\nndt.mlab2.lga03/ndt 2 1 CRITICAL - no answer\nndt.mlab1.lga03\n"

abbrev reported : SliceStatus
reported =
    (
      "ndt.mlab1.lga03",
      record { status = "online"; tool_extra = "TCP OK - 0.242 second response time" },
    )
    ∷ ("ndt.mlab2.lga03", record { status = "offline"; tool_extra = "CRITICAL - no answer" })
    ∷ []

page_parses : get_slice_status (some page) ≡ some reported
unfolding get_slice_status add_reports parse_sliver_tool_status split_white
page_parses = refl

get_slice_status_last_example :
    lookup "ndt.mlab2.lga03" reported ≡ last_report "ndt.mlab2.lga03" (reports_of (lines_of page))
get_slice_status_last_example = get_slice_status_last page reported "ndt.mlab2.lga03" page_parses
