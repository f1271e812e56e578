-- ===== src/Prometheus/LastRow.antt =====
-- What Prometheus says of a sliver is what its last row says.
use mlab_ns.Base.{String, Option, some, List, ◌≡◌, refl}
use mlab_ns.Base.Dict.{lookup}
use mlab_ns.Status.{SliceStatus}
use mlab_ns.Reports.Last.{last_report, lookup-add_reports}
use mlab_ns.Prometheus.{Row, Statuses, success, reports_of, get_slice_status}

-- Where Prometheus answers with rows, there is a status of the slivers, in which a sliver has what
-- the last row about it says, online for the value 1 and offline for any other, and a sliver that
-- no row is about is not in it.
pub get_slice_status_rows :
    (loads : String → Option Statuses) (raw_data : String) (rows : List Row)
    → loads raw_data ≡ some (success rows)
    → (status : SliceStatus) × (get_slice_status loads (some raw_data) ≡ some status)
      × ((fqdn : String) → lookup fqdn status ≡ last_report fqdn (reports_of rows))
unfolding get_slice_status
get_slice_status_rows loads raw_data rows e =
    rw e (_, refl, λ fqdn. lookup-add_reports fqdn (reports_of rows))
