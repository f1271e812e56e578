-- ===== src/Nagios.antt =====
-- server/mlabns/util/nagios_status.py: the status of the slivers of a slice, from the lines of
-- Nagios. The page itself is a parameter, none where it cannot be opened.
pub mod LastLine
use Prim.Native.String.{◌++◌}
use mlab_ns.Base.{
  ℕ, zero, suc, String, Char, code, Bool, true, false, ◌||◌, ◌&&◌, not, Option, none, some, List,
  [], ◌∷◌, map, ◌==◌, keep, leb, nat_eq, if◌then◌else◌,
}
use mlab_ns.Base.Text.{split, strip, prepend, first_part}
use mlab_ns.Message.{nagios_service_status_ok}
use mlab_ns.Status.{SliceStatus}
use mlab_ns.Reports.{SliceInfo, Report, status_if, add_reports}

abbrev is_white : Char → Bool
is_white c = nat_eq (code c) 32 || leb 9 (code c) && leb (code c) 13

-- s.isspace()
abbrev is_blank : String → Bool
is_blank String.[] = true
is_blank (String.◌∷◌ c s) = is_white c && is_blank s

abbrev isspace : String → Bool
isspace String.[] = false
isspace (String.◌∷◌ c s) = is_blank (String.◌∷◌ c s)

-- s.strip()
abbrev lstrip_white : String → String
lstrip_white String.[] = ""
lstrip_white (String.◌∷◌ c s) =
    let rest = lstrip_white s in if is_white c then rest else String.◌∷◌ c s

abbrev rstrip_white : String → String
rstrip_white String.[] = ""
rstrip_white (String.◌∷◌ c s) =
    let rest = rstrip_white s in if is_blank (String.◌∷◌ c s) then "" else String.◌∷◌ c rest

-- re.split(r'\s+', s, maxsplit=n); within a run of white space in_gap is true.
unfoldable pub split_white : ℕ → Bool → String → List String
split_white n in_gap String.[] = "" ∷ []
split_white n true (String.◌∷◌ c s) =
    let gap = split_white n true s in
    let field = prepend c (split_white n false s) in if is_white c then gap else field
split_white zero false (String.◌∷◌ c s) = prepend c (split_white zero false s)
split_white (suc n) false (String.◌∷◌ c s) =
    let next = "" ∷ split_white n true s in
    let field = prepend c (split_white (suc n) false s) in if is_white c then next else field

abbrev of_fields : List String → Option (String × String × String)
of_fields (slice_fqdn ∷ state ∷ kind ∷ tool_extra ∷ []) =
    some (first_part (split b'/' slice_fqdn), state, tool_extra)
of_fields _ = none

-- parse_sliver_tool_status: the FQDN, the state and the note, with none for
-- NagiosStatusUnparseableError.
unfoldable pub parse_sliver_tool_status : String → Option (String × String × String)
unfolding split_white
parse_sliver_tool_status status =
    of_fields (split_white 3 false (rstrip_white (lstrip_white status)))

-- What the loop of get_slice_status records for a line.
abbrev pub report_of : Option (String × String × String) → Report
report_of none = none
report_of (some (fqdn, state, tool_extra)) =
    some (fqdn, status_if (state == nagios_service_status_ok) tool_extra)

abbrev pub reports_of : List String → List Report
reports_of lines = map (λ line. report_of (parse_sliver_tool_status line)) lines

abbrev pub status_of_lines : List String → Option SliceStatus
status_of_lines [] = none
status_of_lines (line ∷ lines) = some (add_reports (reports_of (line ∷ lines)) [])

-- strip('\n').split('\n'), without the lines of white space
abbrev pub lines_of : String → List String
lines_of page = keep (λ line. not (isspace line)) (split 10 (strip 10 page))

-- get_slice_info
unfoldable pub get_slice_info : String → String → String → SliceInfo
get_slice_info nagios_base_url tool_id address_family = record {
  slice_url =
      nagios_base_url
      ++ ("?show_state=1&service_name=" ++ (tool_id ++ (address_family ++ "&plugin_output=1")));
  tool_id = tool_id;
  address_family = address_family;
}

-- get_slice_status
unfoldable pub get_slice_status : Option String → Option SliceStatus
get_slice_status none = none
get_slice_status (some page) = status_of_lines (lines_of page)
