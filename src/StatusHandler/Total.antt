-- ===== src/StatusHandler/Total.antt =====
-- The handler of the status ends without an exception where the pages of monitoring can be read.
use mlab_ns.Base.{String, none, List, [], ◌≡◌, ◌≢◌}
use mlab_ns.Base.Errors.{Result, ok}
use mlab_ns.Model.{Tool}
use mlab_ns.Reports.{MonitoringConfig}
use mlab_ns.Page.{url_error}
use mlab_ns.Store.{Store, Platform, DatastoreLaws}
use mlab_ns.StatusHandler.{Monitoring, Configs, Course}

abbrev Ends : {A : Type 0} → Result A → Type 0
Ends {A} r = (a : A) × (r ≡ ok a)

-- Every page of monitoring is read, or gives an HTTPError, which is caught.
pub record IsReadable (m : Monitoring) : Type 0 where
  pub nagios : (config : MonitoringConfig) (url : String) → m.nagios_page config url ≢ url_error
  pub prometheus :
      (config : MonitoringConfig) (url : String) → m.prometheus_page config url ≢ url_error

module _ {F G : Type 0} (p : Platform F G) (laws : DatastoreLaws p.datastore) (m : Monitoring)
    (readable : IsReadable m) (course : Course F G) (tools : List Tool) where
  abbrev HasTools : Store F → Type 0
  HasTools s = s.tools ≡ tools

-- There are tools that rely on Prometheus and tools that rely on Nagios, and neither configuration is
-- there.
pub record HasNoSource (m : Monitoring) (configs : Configs) : Type 0 where
  pub prometheus_tools : m.tools_by_source "prometheus" ≢ []
  pub no_prometheus : configs.prometheus ≡ none
  pub nagios_tools : m.tools_by_source "nagios" ≢ []
  pub no_nagios : configs.nagios ≡ none
