-- ===== src/StatusHandler.antt =====
-- StatusUpdateHandler.get of server/mlabns/handlers/update.py: which source says what of which tool,
-- and what is done with it; get_status_source_deps of server/mlabns/db/model.py; and
-- nagios_config_wrapper.py and prometheus_config_wrapper.py of server/mlabns/db.
pub mod Slices
pub mod Total
use mlab_ns.Base.{
  ℕ, String, Bool, true, false, ◌&&◌, not, Option, none, some, List, [], ◌∷◌, is_empty, is_some,
  opt_eq, if◌then◌else◌,
}
use mlab_ns.Base.Dict.{lookup, insert}
use mlab_ns.Base.Errors.{PyError, Result, ok, raise}
use mlab_ns.Model.{SliverTool, Tool, get_tool_from_tool_id, get_all_tool_ids}
use mlab_ns.Status.{SliceStatus, update_sliver_tools_status}
use mlab_ns.Reports.{SliceInfo, MonitoringConfig}
use mlab_ns.Prometheus.{Statuses}
use mlab_ns.Page.{
  Answer, received, http_error, url_error, Reply, success, not_found, and_then, succeeded,
}
use mlab_ns.Store.{Store, Platform, Outcome, env_of, apply_writes}
use mlab_ns.System.{Family, ipv4, ipv6, family_text}

-- constants.DEFAULT_NAGIOS_ENTRY and DEFAULT_PROMETHEUS_ENTRY
abbrev pub default_nagios_entry : String
default_nagios_entry = "default"

abbrev pub default_prometheus_entry : String
default_prometheus_entry = "prometheus_default"

-- What memcache holds of the configurations.
abbrev pub ConfigCache : Type 0
ConfigCache = List (String × MonitoringConfig)

-- What the handler runs on, but for the store: the configurations in the datastore, which writes to
-- memcache succeed, the tools that a query on status_source returns, the pages that an opener with
-- a configuration's credentials reads, and two functions of Python's library.
pub record Monitoring : Type 0 where
  pub nagios_by_key_name : String → Option MonitoringConfig
  pub prometheus_by_key_name : String → Option MonitoringConfig
  pub accepts : String → Bool
  pub tools_by_source : String → List Tool
  pub nagios_page : MonitoringConfig → String → Answer String
  pub prometheus_page : MonitoringConfig → String → Answer String
  pub quote_plus : String → String
  pub loads : String → Option Statuses

abbrev keep_config : Bool → String → Option MonitoringConfig → ConfigCache → ConfigCache
keep_config accepts key none cache = cache
keep_config accepts key (some config) cache = if accepts then insert key config cache else cache

abbrev config_from :
    Option MonitoringConfig
    → Bool
    → String
    → Option MonitoringConfig
    → ConfigCache
    → Option MonitoringConfig × ConfigCache
config_from (some config) accepts key stored cache = (some config, cache)
config_from none accepts key stored cache = (stored, keep_config accepts key stored cache)

-- get_nagios_config
unfoldable pub get_nagios_config : Monitoring → ConfigCache → Option MonitoringConfig × ConfigCache
get_nagios_config m cache =
    config_from (lookup default_nagios_entry cache) (m.accepts default_nagios_entry)
      default_nagios_entry (m.nagios_by_key_name default_nagios_entry) cache

-- get_prometheus_config
unfoldable pub get_prometheus_config :
    Monitoring → ConfigCache → Option MonitoringConfig × ConfigCache
get_prometheus_config m cache =
    config_from (lookup default_prometheus_entry cache) (m.accepts default_prometheus_entry)
      default_prometheus_entry (m.prometheus_by_key_name default_prometheus_entry) cache

-- get_status_source_deps
abbrev pub get_status_source_deps : Monitoring → String → List Tool
get_status_source_deps m source = m.tools_by_source source

-- The two configurations.
pub record Configs : Type 0 where
  pub prometheus : Option MonitoringConfig
  pub nagios : Option MonitoringConfig

-- The configurations, that of Prometheus first.
abbrev pub configs_of : Monitoring → ConfigCache → Configs
configs_of m cache =
    let (prometheus, cache') = get_prometheus_config m cache in
    record { prometheus = prometheus; nagios = (get_nagios_config m cache').0 }

-- opener.open(url).read(), with none for the HTTPError that both get_slice_status catch.
abbrev pub text_of : Answer String → Result (Option String)
text_of (received text) = ok (some text)
text_of http_error = ok none
text_of url_error = raise PyError.url_error

-- What update_sliver_tools_status is called with: the slice, and a status that is not empty.
abbrev pub Update : Type 0
Update = Option (SliceInfo × SliceStatus)

-- if slice_status
abbrev pub if_any : SliceInfo → Option SliceStatus → Update
if_any info none = none
if_any info (some []) = none
if_any info (some (s ∷ known)) = some (info, s ∷ known)

abbrev pub read_status :
    SliceInfo → (Option String → Option SliceStatus) → Result (Option String) → Result Update
read_status info get_slice_status (raise e) = raise e
read_status info get_slice_status (ok text) = ok (if_any info (get_slice_status text))

abbrev pub prometheus_slice : Monitoring → MonitoringConfig → Option SliceInfo → Result Update
prometheus_slice m config none = ok none
prometheus_slice m config (some info) =
    read_status info (mlab_ns.Prometheus.get_slice_status m.loads)
      (text_of (m.prometheus_page config info.slice_url))

abbrev pub from_prometheus : Monitoring → Option MonitoringConfig → String → String → Result Update
from_prometheus m none tool_id address_family = ok none
from_prometheus m (some config) tool_id address_family =
    prometheus_slice m config
      (mlab_ns.Prometheus.get_slice_info m.quote_plus config.url tool_id address_family)

abbrev pub from_nagios : Monitoring → Option MonitoringConfig → String → String → Result Update
from_nagios m none tool_id address_family = ok none
from_nagios m (some config) tool_id address_family =
    let info = mlab_ns.Nagios.get_slice_info config.url tool_id address_family in
    read_status info mlab_ns.Nagios.get_slice_status (text_of (m.nagios_page config info.slice_url))

-- The choice of the source. A tool that is not found is None, which has no status_source.
unfoldable pub check_tool : Monitoring → Configs → Option Tool → String → String → Result Update
check_tool m configs none tool_id address_family = raise PyError.attribute_error
check_tool m configs (some tool) tool_id address_family =
    if opt_eq tool.status_source "prometheus"
    then from_prometheus m configs.prometheus tool_id address_family
    else if opt_eq tool.status_source "nagios"
    then from_nagios m configs.nagios tool_id address_family
    else ok none

-- The clock, the generator and the ends of the writes, at each call of update_sliver_tools_status.
pub record Course (F G : Type 0) : Type 0 where
  pub now : String → Family → SliverTool F → ℕ
  pub draw : String → Family → G
  pub ends : String → Family → Outcome F

module _ {F G : Type 0} (p : Platform F G) (m : Monitoring) (configs : Configs)
    (course : Course F G) where
  -- update_sliver_tools_status, its writes included
  unfoldable pub apply_update : String → Family → SliceInfo × SliceStatus → Store F → Store F
  apply_update tool_id family (info, slice_status) s =
      apply_writes (course.ends tool_id family)
        (update_sliver_tools_status (env_of p s) (course.now tool_id family) slice_status
          info.tool_id info.address_family (course.draw tool_id family))
        s

  -- One pass of the loop over the address families: an exception, continue, or an update.
  abbrev pub apply_check : String → Family → Result Update → Store F → Result {0} Unit × Store F
  apply_check tool_id family (raise e) s = (raise e, s)
  apply_check tool_id family (ok none) s = (ok tt, s)
  apply_check tool_id family (ok (some u)) s = (ok tt, apply_update tool_id family u s)

  -- for address_family in ['', '_ipv6']
  unfoldable pub check_families :
      Option Tool → String → List Family → Store F → Result {0} Unit × Store F
  check_families tool tool_id [] s = (ok tt, s)
  check_families tool tool_id (family ∷ families) s =
      and_then
        (apply_check tool_id family (check_tool m configs tool tool_id (family_text family)) s)
        (λ s'. check_families tool tool_id families s')

  -- for tool_id in model.get_all_tool_ids()
  unfoldable pub check_tools : List String → Store F → Result {0} Unit × Store F
  check_tools [] s = (ok tt, s)
  check_tools (tool_id ∷ tool_ids) s =
      and_then
        (check_families (get_tool_from_tool_id (env_of p s).backend tool_id) tool_id
          (ipv4 ∷ ipv6 ∷ []) s)
        (λ s'. check_tools tool_ids s')

-- There are tools on both sources, and neither configuration.
unfoldable pub is_aborted : Monitoring → Configs → Bool
is_aborted m configs =
    (not (is_empty (get_status_source_deps m "prometheus")) && not (is_some configs.prometheus))
    && (not (is_empty (get_status_source_deps m "nagios")) && not (is_some configs.nagios))

module _ {F G : Type 0} (p : Platform F G) (m : Monitoring) (course : Course F G) where
  -- StatusUpdateHandler.get once the configurations are there
  unfoldable pub update_statuses : Configs → Store F → Result Reply × Store F
  update_statuses configs s =
      if is_aborted m configs
      then (ok not_found, s)
      else succeeded (check_tools p m configs course (get_all_tool_ids (env_of p s).backend) s)

  -- StatusUpdateHandler.get
  unfoldable pub get : ConfigCache → Store F → Result Reply × Store F × ConfigCache
  get cache s =
      let (reply, s') = update_statuses (configs_of m cache) s in
      (reply, s', (get_nagios_config m (get_prometheus_config m cache).1).1)
