-- ===== src/Reports/Last.antt =====
-- What the reports say of a sliver is what the last one about it says.
use mlab_ns.Base.{
  String, Option, none, some, List, [], ◌∷◌, ◌==◌, if◌then◌else◌, ◌≡◌, refl, ap, ◌∙◌, arith,
}
use mlab_ns.Base.Dict.{lookup, lookup-insert}
use mlab_ns.Status.{SliverStatus, SliceStatus}
use mlab_ns.Reports.{Report, add_report, add_reports}

-- What a report says of a sliver, if it is about it.
abbrev pub said_by : String → Report → Option SliverStatus
said_by fqdn none = none
said_by fqdn (some (name, s)) = if name == fqdn then some s else none

abbrev or_else : Option SliverStatus → Option SliverStatus → Option SliverStatus
or_else none o = o
or_else (some s) o = some s

-- What the last report about a sliver says of it.
abbrev pub last_report : String → List Report → Option SliverStatus
last_report fqdn [] = none
last_report fqdn (r ∷ rs) = or_else (last_report fqdn rs) (said_by fqdn r)

or_else_assoc : (a b c : Option SliverStatus) → or_else a (or_else b c) ≡ or_else (or_else a b) c
or_else_assoc none b c = refl
or_else_assoc (some s) b c = refl

or_else-none : (o : Option SliverStatus) → or_else o none ≡ o
or_else-none none = refl
or_else-none (some s) = refl

lookup-add_report :
    (fqdn : String) (r : Report) (d : SliceStatus)
    → lookup fqdn (add_report r d) ≡ or_else (said_by fqdn r) (lookup fqdn d)
lookup-add_report fqdn none d = refl
lookup-add_report fqdn (some (name, s)) d = ground (arith, lookup-insert name fqdn s d)

lookup-add_reports_to :
    (fqdn : String) (rs : List Report) (d : SliceStatus)
    → lookup fqdn (add_reports rs d) ≡ or_else (last_report fqdn rs) (lookup fqdn d)
unfolding add_reports
lookup-add_reports_to fqdn [] d = refl
lookup-add_reports_to fqdn (r ∷ rs) d =
    lookup-add_reports_to fqdn rs _
    ∙ (ap (or_else (last_report fqdn rs)) (lookup-add_report fqdn r d)
        ∙ or_else_assoc (last_report fqdn rs) _ _)

pub lookup-add_reports :
    (fqdn : String) (rs : List Report) → lookup fqdn (add_reports rs []) ≡ last_report fqdn rs
lookup-add_reports fqdn rs = lookup-add_reports_to fqdn rs [] ∙ or_else-none (last_report fqdn rs)
