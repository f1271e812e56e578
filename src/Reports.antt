-- ===== src/Reports.antt =====
-- What Nagios and Prometheus have in common: NagiosSliceInfo of server/mlabns/util/nagios_status.py
-- and PrometheusSliceInfo of server/mlabns/util/prometheus_status.py, the configuration of each, and
-- the loop over reports at the end of get_slice_status of both.
pub mod Last
use mlab_ns.Base.{String, Bool, Option, none, some, List, [], ◌∷◌, if◌then◌else◌}
use mlab_ns.Base.Dict.{insert}
use mlab_ns.Message.{status_online, status_offline}
use mlab_ns.Status.{SliverStatus, SliceStatus}

-- NagiosSliceInfo and PrometheusSliceInfo.
pub record SliceInfo : Type 0 where
  pub slice_url : String
  pub tool_id : String
  pub address_family : String

-- model.Nagios and model.Prometheus, as far as they are read.
pub record MonitoringConfig : Type 0 where
  pub username : String
  pub password : String
  pub url : String

-- A sliver and its status; none for a report that cannot be parsed.
abbrev pub Report : Type 0
Report = Option (String × SliverStatus)

abbrev pub status_if : Bool → String → SliverStatus
status_if is_ok tool_extra = record {
  status = if is_ok then status_online else status_offline;
  tool_extra = tool_extra;
}

abbrev pub add_report : Report → SliceStatus → SliceStatus
add_report none d = d
add_report (some (fqdn, s)) d = insert fqdn s d

-- The loop: a report that cannot be parsed is passed over.
unfoldable pub add_reports : List Report → SliceStatus → SliceStatus
add_reports [] d = d
add_reports (r ∷ rs) d = add_reports rs (add_report r d)
