-- ===== src/Tests/Handlers.antt =====
-- Runs of the cron handlers.
use mlab_ns.Base.{
  ℕ, true, false, none, some, List, [], ◌∷◌, ◌==◌, opt_eq, if◌then◌else◌, ◌≡◌, ◌⊎◌, refl, All,
}
use mlab_ns.Base.Dict.{lookup}
use mlab_ns.Base.Errors.{PyError, ok, raise}
use mlab_ns.Model.{SliverTool, get_tool_from_tool_id, get_all_tool_ids}
use mlab_ns.Fetcher.{datastore_fetch}
use mlab_ns.Fqdn.{replace, replace_from}
use mlab_ns.Status.{
  SliceStatus, update_sliver_tools_status, update_tools, update_family, update_ipv4, update_ipv6,
}
use mlab_ns.Status.Repaired.{OfflineWithout6, OfflineWithout4, update_tools_repairs}
use mlab_ns.Reports.{MonitoringConfig, add_reports}
use mlab_ns.Prometheus.{Row, Statuses, success}
use mlab_ns.Prometheus.Queries.{queries}
use mlab_ns.Page.{received, http_error, Reply}
use mlab_ns.Store.{put_tools, apply_write, apply_writes}
use mlab_ns.StatusHandler.{
  Monitoring, Course, ConfigCache, is_aborted, get_prometheus_config, get_nagios_config, check_tool,
  apply_update, check_families, check_tools, update_statuses,
}
use mlab_ns.AddressHandler.{Addresses}
use mlab_ns.Registration.{SiteInfo, number, text, register_sites}
use mlab_ns.Registration.Listed.{last_listed, or_else, lookup-register_sites}
use mlab_ns.Registration.Ends.{IsRead, get_listed}
use mlab_ns.Tests.World.{thousandths, lga03}
use mlab_ns.Tests.Systems.{platform, production, row, added, stored, with_sliver}

abbrev config : MonitoringConfig
config = record { username = "mlab"; password = "secret"; url = "https://prometheus/query=" }

-- Prometheus says that the sliver is up on IPv4, and has no page for IPv6.
abbrev up : List Row
up =
    record {
      experiment = some "ndt.iupui";
      machine = some "mlab4-lga03.mlab-oti.measurement-lab.org";
      value = some "1";
    }
    ∷ []

abbrev pub monitoring : Monitoring
monitoring = record {
  nagios_by_key_name = λ key. none;
  prometheus_by_key_name = λ key. some config;
  accepts = λ key. true;
  tools_by_source = λ source. [];
  nagios_page = λ c url. http_error;
  prometheus_page =
      λ c url. if url == "https://prometheus/query=v4" then received "up" else http_error;
  quote_plus = λ query. if opt_eq (lookup "ndt" queries) query then "v4" else "v6";
  loads = λ raw_data. if raw_data == "up" then some (success up) else none;
}

abbrev pub course : Course ℕ ℕ
course = record {
  now = λ tool_id family t. 10;
  draw = λ tool_id family. 0;
  ends = λ tool_id family. stored;
}

-- The status handler puts the sliver online.
handled :
    (mlab_ns.StatusHandler.get platform monitoring course [] with_sliver.store).1.slivers
    ≡ (
      added.key_name,
      record added {
        status_ipv4 = "online";
        tool_extra = "Prometheus was here \\o/.";
        update_request_timestamp = 10;
      },
    )
      ∷ []
unfolding mlab_ns.StatusHandler.get get_all_tool_ids get_tool_from_tool_id datastore_fetch replace
    replace_from update_sliver_tools_status update_tools update_family update_ipv4 update_ipv6
    add_reports put_tools apply_write apply_writes is_aborted get_prometheus_config
    get_nagios_config check_tool apply_update check_families check_tools update_statuses
    mlab_ns.Prometheus.get_slice_info mlab_ns.Prometheus.get_slice_status
    mlab_ns.Prometheus.parse_sliver_tool_status
handled = refl

-- Siteinfo lists a site with coordinates, and one whose latitude is no number.
abbrev pub infos : List (SiteInfo ℕ)
infos =
    record {
      site = some "sea0c";
      metro = some ("sea" ∷ []);
      city = some "Seattle";
      country = some "US";
      latitude = some (number 47400);
      longitude = some (number 122300);
      roundrobin = some false;
    }
    ∷ record {
      site = some "lax04";
      metro = some ("lax" ∷ []);
      city = some "Los Angeles";
      country = some "US";
      latitude = some (text "north");
      longitude = some (number 118400);
      roundrobin = some false;
    }
    ∷ []

abbrev pub hostnames : Addresses ℕ
hostnames = record {
  hostnames = received (some (row ∷ []));
  now = 11;
  production = production;
  ends = stored;
}

lookup-register_sites_example :
    lookup "sea0c"
      (register_sites thousandths 11 (λ x. true) production infos (("lga03", lga03) ∷ []))
    ≡ or_else
        (last_listed thousandths 11 (λ x. true) production "sea0c" infos)
        (lookup "sea0c" (("lga03", lga03) ∷ []))
lookup-register_sites_example =
    lookup-register_sites thousandths 11 (λ x. true) production "sea0c" infos
      (("lga03", lga03) ∷ [])

get_listed_example :
    ((mlab_ns.Registration.get thousandths 11
        (λ x. true)
        hostnames
        (received (some infos))
        with_sliver.store).1.sites
      ≡ register_sites thousandths 11 (λ x. true) production infos with_sliver.store.sites)
    × (IsRead hostnames.hostnames
        → (mlab_ns.Registration.get thousandths 11
            (λ x. true)
            hostnames
            (received (some infos))
            with_sliver.store).0
          ≡ ok Reply.success)
    × (((e : PyError) × ((mlab_ns.Registration.get thousandths 11
              (λ x. true)
              hostnames
              (received (some infos))
              with_sliver.store).0
            ≡ raise e))
        ⊎ IsRead hostnames.hostnames)
get_listed_example = get_listed thousandths 11 (λ x. true) hostnames infos with_sliver.store

abbrev clock : SliverTool ℕ → ℕ
clock t = 8

-- One sliver is shown as online although it has lost its addresses.
abbrev lost : List (SliverTool ℕ)
lost = record added { sliver_ipv4 = "off"; status_ipv4 = "online"; status_ipv6 = "online" } ∷ []

abbrev known : SliceStatus
known = (added.fqdn, record { status = "online"; tool_extra = "ok" }) ∷ []

update_tools_repairs_example :
    All OfflineWithout6 (update_tools "_ipv6" clock known lost)
    × All (OfflineWithout4 known) (update_tools "" clock known lost)
update_tools_repairs_example = update_tools_repairs clock known lost
