-- ===== src/Tests/Names.antt =====
-- Names of slivers, and the map of the sites.
use mlab_ns.Base.{ℕ, true, false, some, ◌==◌, ◌≡◌, refl}
use mlab_ns.Base.Regex.Matches.{attach, all_of-AllOf}
use mlab_ns.Fqdn.{parse, is_lower, replace, apply_af_awareness, rewrite}
use mlab_ns.Fqdn.Annotated.{is_other, rewrite-print}
use Prim.Native.String.{◌++◌}
use mlab_ns.Fqdn.RoundTrip.{IsWord, is_no_newline, machine_text, site_text, print, parse-print}
use mlab_ns.IpUpdate.{Production, is_production_slice}
use mlab_ns.Admin.{Rendering}
use mlab_ns.Tests.World.{sea_mlab1}

ndt-IsWord : IsWord "ndt"
ndt-IsWord = (refl, all_of-AllOf is_lower "ndt" refl)

iupui-IsWord : IsWord "iupui"
iupui-IsWord = (refl, all_of-AllOf is_lower "iupui" refl)

oti-IsWord : IsWord "oti"
oti-IsWord = (refl, all_of-AllOf is_lower "oti" refl)

parse-print_example :
    parse (
      print "-" "ndt" "iupui"
        (machine_text "1")
        (site_text "l" "g" "a" "0" "3")
        (attach "mlab-" "oti")
        "measurement-lab.org")
    ≡ some (record {
      experiment = some "ndt";
      org = some "iupui";
      machine = machine_text "1";
      site = site_text "l" "g" "a" "0" "3";
      project = some (attach "mlab-" "oti");
      domain = "measurement-lab.org";
    })
parse-print_example =
    parse-print "-" "ndt" "iupui" "1" "l" "g" "a" "0" "3" "oti" "measurement-lab.org" refl
      ndt-IsWord iupui-IsWord refl (refl, refl, refl, refl, refl) oti-IsWord
      (all_of-AllOf is_no_newline "measurement-lab.org" refl)

rewrite-print_example :
    (rewrite
        (print "-" "ndt" "iupui"
          (machine_text "1")
          (site_text "l" "g" "a" "0" "3")
          (attach "mlab-" "oti")
          "measurement-lab.org")
        (some "ipv4")
        "ndt"
      ≡ print "-" "ndt" "iupui"
          (machine_text "1" ++ "v4")
          (site_text "l" "g" "a" "0" "3")
          (attach "mlab-" "oti")
          "measurement-lab.org")
    × (rewrite
          (print "-" "ndt" "iupui"
            (machine_text "1")
            (site_text "l" "g" "a" "0" "3")
            (attach "mlab-" "oti")
            "measurement-lab.org")
          (some "ipv6")
          "ndt"
        ≡ print "-" "ndt" "iupui"
            (machine_text "1" ++ "v6")
            (site_text "l" "g" "a" "0" "3")
            (attach "mlab-" "oti")
            "measurement-lab.org")
rewrite-print_example =
    rewrite-print "-" "ndt" "iupui" "1" "l" "g" "a" "0" "3" "oti" "measurement-lab.org" refl
      ndt-IsWord iupui-IsWord refl (refl, refl, refl, refl, refl) oti-IsWord
      (all_of-AllOf is_no_newline "measurement-lab.org" refl)
      (all_of-AllOf (is_other "1") "measurement-lab.org" refl) "ndt"

-- What a client of IPv4 is sent to.
rewritten :
    rewrite "ndt-iupui-mlab1-lga03.mlab-oti.measurement-lab.org" (some "ipv4") "ndt"
    ≡ "ndt-iupui-mlab1v4-lga03.mlab-oti.measurement-lab.org"
unfolding rewrite apply_af_awareness parse replace
rewritten = refl

-- The name is the one that slivers have.
printed :
    print "-" "ndt" "iupui"
      (machine_text "1")
      (site_text "l" "g" "a" "0" "3")
      (attach "mlab-" "oti")
      "measurement-lab.org"
    ≡ "ndt-iupui-mlab1-lga03.mlab-oti.measurement-lab.org"
printed = refl

abbrev new_york_only : Production
new_york_only = record { site_matches = λ s. s == "lga03"; machine_matches = λ m. true }

abbrev rendering : Rendering ℕ
rendering = record { when_text = λ t. "2020-01-01 00:00:00"; items = λ is. is }

unplaced : is_production_slice new_york_only sea_mlab1.fqdn ≡ false
unfolding is_production_slice parse
unplaced = refl
