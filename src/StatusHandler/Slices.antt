-- ===== src/StatusHandler/Slices.antt =====
-- What the handler of the status passes on is about the slice and the family that it has asked for.
use Prim.Native.String.{◌++◌ as ◌<>◌}
use mlab_ns.Base.{String, Option, none, some, [], ◌∷◌, ◌≡◌, refl, if_elim, if◌then◌else◌, opt_eq}
use mlab_ns.Base.Dict.{lookup}
use mlab_ns.Prometheus.{slice_info_for}
use mlab_ns.Prometheus.Queries.{queries}
use mlab_ns.Base.Errors.{Result, ok, raise}
use mlab_ns.Model.{Tool}
use mlab_ns.Status.{SliceStatus}
use mlab_ns.Reports.{SliceInfo, MonitoringConfig}
use mlab_ns.StatusHandler.{
  Monitoring, Configs, Update, if_any, read_status, text_of, prometheus_slice, from_prometheus,
  from_nagios, check_tool,
}

-- An update is one of the slice and the family that have been asked for.
abbrev pub IsAbout : String → String → Result Update → Type 0
IsAbout tool_id family (raise e) = Unit
IsAbout tool_id family (ok none) = Unit
IsAbout tool_id family (ok (some (info, known))) =
    (info.tool_id ≡ tool_id) × (info.address_family ≡ family)

if_any-IsAbout :
    (tool_id family : String) (info : SliceInfo) (o : Option SliceStatus)
    → (info.tool_id ≡ tool_id) × (info.address_family ≡ family)
    → IsAbout tool_id family (ok (if_any info o))
if_any-IsAbout tool_id family info none h = tt
if_any-IsAbout tool_id family info (some []) h = tt
if_any-IsAbout tool_id family info (some (s ∷ known)) h = h

read_status-IsAbout :
    (tool_id family : String) (info : SliceInfo) (f : Option String → Option SliceStatus)
    (r : Result (Option String))
    → (info.tool_id ≡ tool_id) × (info.address_family ≡ family)
    → IsAbout tool_id family (read_status info f r)
read_status-IsAbout tool_id family info f (raise e) h = tt
read_status-IsAbout tool_id family info f (ok text) h =
    if_any-IsAbout tool_id family info (f text) h

from_prometheus-IsAbout :
    (m : Monitoring) (o : Option MonitoringConfig) (tool_id family : String)
    → IsAbout tool_id family (from_prometheus m o tool_id family)
unfolding mlab_ns.Prometheus.get_slice_info
from_prometheus-IsAbout m none tool_id family = tt
from_prometheus-IsAbout m (some config) tool_id family =
    by_query (lookup (tool_id <> family) queries)
  where
    by_query :
        (o : Option String)
        → IsAbout tool_id family
            (prometheus_slice m config (slice_info_for m.quote_plus config.url tool_id family o))
    by_query none = tt
    by_query (some query) =
        read_status-IsAbout tool_id family
          (record {
            slice_url = config.url <> m.quote_plus query;
            tool_id = tool_id;
            address_family = family;
          })
          (mlab_ns.Prometheus.get_slice_status m.loads)
          (text_of (m.prometheus_page config (config.url <> m.quote_plus query))) (refl, refl)

from_nagios-IsAbout :
    (m : Monitoring) (o : Option MonitoringConfig) (tool_id family : String)
    → IsAbout tool_id family (from_nagios m o tool_id family)
unfolding mlab_ns.Nagios.get_slice_info
from_nagios-IsAbout m none tool_id family = tt
from_nagios-IsAbout m (some config) tool_id family =
    read_status-IsAbout tool_id family (mlab_ns.Nagios.get_slice_info config.url tool_id family)
      mlab_ns.Nagios.get_slice_status
      (text_of
        (m.nagios_page config (mlab_ns.Nagios.get_slice_info config.url tool_id family).slice_url))
      (refl, refl)

pub check_tool-IsAbout :
    (m : Monitoring) (configs : Configs) (tool : Option Tool) (tool_id family : String)
    → IsAbout tool_id family (check_tool m configs tool tool_id family)
unfolding check_tool
check_tool-IsAbout m configs none tool_id family = tt
check_tool-IsAbout m configs (some tool) tool_id family =
    if_elim (IsAbout tool_id family) (opt_eq tool.status_source "prometheus")
      (from_prometheus m configs.prometheus tool_id family)
      (if opt_eq tool.status_source "nagios"
        then from_nagios m configs.nagios tool_id family
        else ok none)
      (λ _. from_prometheus-IsAbout m configs.prometheus tool_id family)
      (λ _.
        if_elim (IsAbout tool_id family) (opt_eq tool.status_source "nagios") _ (ok none)
          (λ _. from_nagios-IsAbout m configs.nagios tool_id family) (λ _. tt))
