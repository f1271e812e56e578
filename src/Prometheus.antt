-- ===== src/Prometheus.antt =====
-- server/mlabns/util/prometheus_status.py: the status of the slivers of a slice, from the answer of
-- Prometheus. The answer is taken in the form that the API of Prometheus documents: an error with
-- its text, or rows, each with a metric of labels and a value of two items.
pub mod Queries
pub mod LastRow
use Prim.Native.String.{◌++◌}
use mlab_ns.Base.{String, Option, none, some, List, [], ◌∷◌, map, ◌==◌}
use mlab_ns.Base.Dict.{lookup}
use mlab_ns.Message.{prometheus_tool_extra, prometheus_service_status_ok}
use mlab_ns.Fqdn.{replace}
use mlab_ns.Status.{SliceStatus}
use mlab_ns.Reports.{SliceInfo, Report, status_if, add_reports}
use mlab_ns.Prometheus.Queries.{queries}

-- A row of the result: two labels of its metric, and the text of its value, with none for one that
-- is not there.
pub record Row : Type 0 where
  pub experiment : Option String
  pub machine : Option String
  pub value : Option String

pub data Statuses : Type 0 where
  error : String → Statuses
  success : List Row → Statuses

abbrev parsed : Option String → Option String → Option String → Option (String × String × String)
parsed (some value) (some experiment) (some machine) =
    some (replace "." "-" experiment ++ ("-" ++ machine), value, prometheus_tool_extra)
parsed _ _ _ = none

-- parse_sliver_tool_status: the FQDN, the state and the note, with none for
-- PrometheusStatusUnparseableError.
unfoldable pub parse_sliver_tool_status : Row → Option (String × String × String)
parse_sliver_tool_status row = parsed row.value row.experiment row.machine

abbrev pub report_of : Option (String × String × String) → Report
report_of none = none
report_of (some (fqdn, state, tool_extra)) =
    some (fqdn, status_if (state == prometheus_service_status_ok) tool_extra)

abbrev pub reports_of : List Row → List Report
reports_of rows = map (λ row. report_of (parse_sliver_tool_status row)) rows

abbrev pub slice_info_for :
    (String → String) → String → String → String → Option String → Option SliceInfo
slice_info_for quote_plus prometheus_base_url tool_id address_family none = none
slice_info_for quote_plus prometheus_base_url tool_id address_family (some query) = some (record {
  slice_url = prometheus_base_url ++ quote_plus query;
  tool_id = tool_id;
  address_family = address_family;
})

-- get_slice_info, over urllib.quote_plus
unfoldable pub get_slice_info : (String → String) → String → String → String → Option SliceInfo
get_slice_info quote_plus prometheus_base_url tool_id address_family =
    slice_info_for quote_plus prometheus_base_url tool_id address_family
      (lookup (tool_id ++ address_family) queries)

abbrev pub status_of : Option Statuses → Option SliceStatus
status_of none = none
status_of (some (error text)) = none
status_of (some (success rows)) = some (add_reports (reports_of rows) [])

-- get_slice_status, over json.loads, with none for ValueError; the page is none for an HTTPError.
unfoldable pub get_slice_status : (String → Option Statuses) → Option String → Option SliceStatus
get_slice_status loads none = none
get_slice_status loads (some raw_data) = status_of (loads raw_data)
