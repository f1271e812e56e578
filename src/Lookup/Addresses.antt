-- ===== src/Lookup/Addresses.antt =====
-- The addresses in an answer are addresses.
use mlab_ns.Base.{
  String, true, Option, none, some, List, [], ◌∷◌, ◌==◌, opt_eq, ◌≡◌, ◌≢◌, ap, eq_iff, if_elim, All,
}
use mlab_ns.Model.{SliverTool}
use mlab_ns.Filters.Status.{StatusOn}
use mlab_ns.Status.Offline.{HasAddresses}
use mlab_ns.Lookup.{ips_of, if_online}

opt_eq→some : (o : Option String) (s : String) → opt_eq o s ≡ true → o ≡ some s
opt_eq→some none s h = cc
opt_eq→some (some t) s h = ap some ((eq_iff t s).0 h)

abbrev NoneOff : List String → Type 0
NoneOff ips = All (λ ip. ip ≢ "off") ips

if_online-NoneOff :
    (status ip : String) (ips : List String)
    → (ip ≡ "off" → status ≢ "online")
    → NoneOff ips
    → NoneOff (if_online status ip ips)
if_online-NoneOff status ip ips h rest =
    if_elim NoneOff (status == "online") (ip ∷ ips) ips
      (λ e. (λ off. h off ((eq_iff status "online").0 e), rest)) (λ _. rest)

module _ {F : Type 0} where
  -- For a tool that is online on the address family asked for and is not online on an interface
  -- without an address, each address that the JSON answer lists is an address, none is "off".
  pub ips_of-NoneOff :
      (family : Option String) (t : SliverTool F)
      → HasAddresses t
      → StatusOn family "online" t
      → All (λ ip. ip ≢ "off") (ips_of family t)
  unfolding ips_of
  ips_of-NoneOff family t h (on_ipv4, on_ipv6, on_either) =
      if_elim NoneOff (opt_eq family "ipv4") _ _
        (λ e. (λ off. h.ipv4 off (on_ipv4 (opt_eq→some family "ipv4" e)), tt))
        (λ _.
          if_elim NoneOff (opt_eq family "ipv6") _ _
            (λ e. (λ off. h.ipv6 off (on_ipv6 (opt_eq→some family "ipv6" e)), tt))
            (λ _.
              if_online-NoneOff t.status_ipv4 t.sliver_ipv4 _ h.ipv4
                (if_online-NoneOff t.status_ipv6 t.sliver_ipv6 [] h.ipv6 tt)))
