-- ===== src/Tests/Answers.antt =====
-- The addresses that are answered in the small deployment.
use mlab_ns.Base.{none, ◌≢◌, All, inl, refl, arith, eq_iff}
use mlab_ns.Filters.Status.{StatusOn}
use mlab_ns.Lookup.{ips_of}
use mlab_ns.Lookup.Addresses.{ips_of-NoneOff}
use mlab_ns.Status.Offline.{HasAddresses}
use mlab_ns.Tests.World.{lga_mlab1}

lga_mlab1_addressed : HasAddresses lga_mlab1
lga_mlab1_addressed = record {
  ipv4 = ground (arith, eq_iff "4.14.159.86" "off");
  ipv6 = ground (arith, eq_iff "offline" "online");
}

lga_mlab1_online : StatusOn none "online" lga_mlab1
lga_mlab1_online = (λ e. refl, λ e. absurd (cc), inl refl)

ips_of-NoneOff_example : All (λ ip. ip ≢ "off") (ips_of none lga_mlab1)
ips_of-NoneOff_example = ips_of-NoneOff none lga_mlab1 lga_mlab1_addressed lga_mlab1_online
