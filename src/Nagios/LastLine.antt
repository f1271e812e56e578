-- ===== src/Nagios/LastLine.antt =====
-- What Nagios says of a sliver is what its last line says.
use mathlib.Core.Option.{some-injective}
use mlab_ns.Base.{
  String, Option, none, some, List, [], ◌∷◌, map, ◌==◌, if◌then◌else◌, ◌≡◌, refl, sym, ap, ◌∙◌,
}
use mlab_ns.Base.Dict.{lookup}
use mlab_ns.Status.{SliverStatus, SliceStatus}
use mlab_ns.Reports.{Report}
use mlab_ns.Reports.Last.{last_report, lookup-add_reports}
use mlab_ns.Nagios.{
  parse_sliver_tool_status, report_of, reports_of, status_of_lines, lines_of, get_slice_status,
}

-- What a parsed line says: of which sliver, and that it is online for the state 0 and offline for any
-- other, with the note of the line.
abbrev pub line_said : Option (String × String × String) → Option (String × SliverStatus)
line_said none = none
line_said (some (fqdn, state, tool_extra)) = some (
  fqdn,
  record { status = if state == "0" then "online" else "offline"; tool_extra = tool_extra },
)

line_said-report_of : (o : Option (String × String × String)) → report_of o ≡ line_said o
line_said-report_of none = refl
line_said-report_of (some (fqdn, state, tool_extra)) = refl

lines_said-reports_of :
    (lines : List String)
    → reports_of lines ≡ map (λ line. line_said (parse_sliver_tool_status line)) lines
lines_said-reports_of [] = refl
lines_said-reports_of (line ∷ lines) =
    cons_path (line_said-report_of (parse_sliver_tool_status line)) (lines_said-reports_of lines)
  where
    cons_path : {x y : Report} {xs ys : List Report} → x ≡ y → xs ≡ ys → x ∷ xs ≡ y ∷ ys
    cons_path e f = cc

-- Where Nagios gives a status of the slivers, a sliver has in it what the last line about it says,
-- online for the state 0 and offline for any other, and a sliver that no line is about is not in it.
pub get_slice_status_last :
    (page : String) (status : SliceStatus) (fqdn : String)
    → get_slice_status (some page) ≡ some status
    → lookup fqdn status
      ≡ last_report fqdn (map (λ line. line_said (parse_sliver_tool_status line)) (lines_of page))
unfolding get_slice_status
get_slice_status_last page status fqdn e =
    of_lines (lines_of page) e ∙ ap (last_report fqdn) (lines_said-reports_of (lines_of page))
  where
    of_lines :
        (lines : List String)
        → status_of_lines lines ≡ some status
        → lookup fqdn status ≡ last_report fqdn (reports_of lines)
    of_lines [] e = absurd (cc)
    of_lines (line ∷ lines) e =
        ap (lookup fqdn) (sym (some-injective _ _ e))
        ∙ lookup-add_reports fqdn (reports_of (line ∷ lines))
