-- ===== src/Tests/Monitoring.antt =====
-- An answer of Prometheus.
use mlab_ns.Base.{String, Option, none, some, List, [], ◌∷◌, ◌==◌, if◌then◌else◌, ◌≡◌, refl}
use mlab_ns.Base.Dict.{lookup}
use mlab_ns.Status.{SliceStatus}
use mlab_ns.Reports.Last.{last_report}
use mlab_ns.Prometheus.{Row, Statuses, success, reports_of, get_slice_status}
use mlab_ns.Prometheus.LastRow.{get_slice_status_rows}

-- A machine that is up, then down, and a row without a machine.
abbrev rows : List Row
rows =
    record {
      experiment = some "ndt.iupui";
      machine = some "mlab1-lga03.mlab-oti.measurement-lab.org";
      value = some "1";
    }
    ∷ record {
      experiment = some "ndt.iupui";
      machine = some "mlab1-lga03.mlab-oti.measurement-lab.org";
      value = some "0";
    }
    ∷ record { experiment = some "ndt.iupui"; machine = none; value = some "1" }
    ∷ []

abbrev loads : String → Option Statuses
loads raw_data = if raw_data == "rows" then some (success rows) else none

get_slice_status_rows_example :
    (status : SliceStatus) × (get_slice_status loads (some "rows") ≡ some status)
    × ((fqdn : String) → lookup fqdn status ≡ last_report fqdn (reports_of rows))
get_slice_status_rows_example = get_slice_status_rows loads "rows" rows refl
