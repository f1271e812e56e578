-- ===== src/Tests/Pages.antt =====
-- Pages in the small deployment.
use mlab_ns.Base.{
  ℕ, String, true, false, none, some, List, [], ◌∷◌, if◌then◌else◌, ◌≡◌, refl, is_some,
}
use mlab_ns.Base.Errors.{ok}
use mlab_ns.Admin.{Rendering}
use mlab_ns.Admin.Pages.{Page, Listing}
use mlab_ns.System.Placed.{ArePlaced, Reach-ArePlaced}
use mlab_ns.Maxmind.{Maxmind, opened, address_not_found}
use mlab_ns.Request.{Request}
use mlab_ns.Page.{received}
use mlab_ns.System.{Reach}
use mlab_ns.System.Handlers.{at_rest}
use mlab_ns.Base.Regex.{re_match}
use mlab_ns.Base.Regex.Matches.{all_of-AllOf}
use mlab_ns.Application.{Setting, Webapp, admin, lookup, handle_found, serve, serve_all}
use mlab_ns.Application.Routes.{handler_of, not_newline, TakesFirst, serve_routes}
use mlab_ns.Application.Runs.{on_platform, serve_all-Reached}
use mlab_ns.Lookup.{JsonData, json}
use mlab_ns.Model.{get_tool_from_tool_id}
use mlab_ns.Lookup.Served.{Served}
use mlab_ns.Request.{LookupQuery}
use mlab_ns.Query.{initialize_from_http_request, tool_id_of}
use mlab_ns.Store.{env_of}
use mlab_ns.System.Answers.{Reach-get}
use mlab_ns.Tests.World.{thousandths, counting_laws}
use mlab_ns.Tests.Handlers.{monitoring, course, infos, hostnames}
use mlab_ns.Tests.Systems.{
  platform, datastore_laws, production, final, final-Reach, empty, empty-Reach,
}

abbrev rendering : Rendering ℕ
rendering = record { when_text = λ t. "2020-01-01 00:00:00"; items = λ is. is }

abbrev listing : Listing ℕ
listing = record {
  by_tool_id = λ ts. ts;
  by_site_id = λ xs. xs;
  query_is_true = λ ts. true;
  without_namespace = λ id. none;
  sliver_when = λ t. "2020-01-01 00:00:00";
  site_when = λ x. "2020-01-01 00:00:00";
}

Reach-ArePlaced_example : ArePlaced final
Reach-ArePlaced_example = Reach-ArePlaced platform datastore_laws final-Reach

abbrev unknown_to_maxmind : Maxmind ℕ
unknown_to_maxmind = record {
  opening = opened;
  city = λ ip. address_not_found;
  country_by_key_name = λ c. none;
  first_city = λ city country. none;
}

abbrev setting : Setting ℕ ℕ
setting = record {
  platform = platform;
  monitoring = monitoring;
  course = course;
  config_cache = [];
  now = 11;
  stores = λ x. true;
  addresses = hostnames;
  locations = received (some infos);
  listing = listing;
  production = production;
  rendering = rendering;
  maxmind = unknown_to_maxmind;
  loaded = true;
  database_file = ok tt;
  ip_addr = record { ipv4 = λ ip. false; ipv6 = λ ip. false };
  send_proxy_response = λ url. ok true;
  proxy_store = record { probabilities = []; accepts = λ p. true };
  proxy_cache = [];
  request_keys = [];
  draw = 0;
}

abbrev request_of : String → Request
request_of path = record {
  path = path;
  path_qs = path;
  remote_addr = "1.2.3.4";
  get = λ name. none;
  headers = λ name. none;
}

-- webapp's choice: the first route whose pattern matches.
first_match : Webapp
first_match [] path = none
first_match ((r, h) ∷ rs) path =
    let rest = first_match rs path in if is_some (re_match r path) then some h else rest

first_match-TakesFirst : TakesFirst first_match
unfolding first_match
first_match-TakesFirst = record {
  select_none = λ path. refl;
  select_matched = λ r h rs path gs e. rw e refl;
  select_passed = λ r h rs path e. rw e refl;
}

serve_routes_example :
    serve setting first_match (request_of "/ndt") final.store
    ≡ handle_found setting (handler_of "/ndt") (request_of "/ndt") final.store
serve_routes_example =
    serve_routes first_match first_match-TakesFirst setting (request_of "/ndt") final.store
      (all_of-AllOf not_newline "/ndt" refl)

-- Where some paths lead to.
looked_up : handler_of "/ndt" ≡ some lookup
unfolding handler_of
looked_up = refl

administered : handler_of "/administration" ≡ some admin
unfolding handler_of
administered = refl

abbrev requests : List (Setting ℕ ℕ × Request)
requests =
    (setting, request_of "/cron/check_site")
    ∷ (setting, request_of "/cron/check_status")
    ∷ (setting, request_of "/ndt")
    ∷ []

serve_all-Reached_example :
    Reach platform
      (at_rest platform [] (serve_all first_match (on_platform platform [] requests) empty.store))
serve_all-Reached_example =
    serve_all-Reached platform [] first_match requests empty.store empty-Reach

abbrev monitored_data : JsonData
monitored_data = record {
  url = some "http://ndt-iupui-mlab4-lga03.mlab-oti.measurement-lab.org:7123";
  port = some "3001";
  fqdn = "ndt-iupui-mlab4-lga03.mlab-oti.measurement-lab.org";
  ip = "4.14.159.120" ∷ [];
  site = "lga03";
  city = "New York";
  country = "US";
  tool_extra = some "ok";
}

-- The sliver that is online answers a client whose position is not known.
answered :
    mlab_ns.Lookup.get
      (env_of platform final.store)
      unknown_to_maxmind
      setting.ip_addr
      (λ url. ok true)
      setting.proxy_store
      []
      true
      (request_of "/ndt")
      0
    ≡ ok (json false (monitored_data ∷ []))
unfolding mlab_ns.Lookup.get mlab_ns.Lookup.lookup_of initialize_from_http_request
    mlab_ns.Query.settle mlab_ns.Geolocation.set_geolocation mlab_ns.Geolocation.choose_source
    mlab_ns.Geolocation.get_user_defined_lat_lon mlab_ns.Geolocation.set_appengine_geolocation
    mlab_ns.Query.fields_of mlab_ns.Query.ip_address_of mlab_ns.Query.is_valid_ip
    mlab_ns.Geolocation.set_maxmind_geolocation mlab_ns.Geolocation.maxmind_record
    mlab_ns.Geolocation.use_source mlab_ns.Maxmind.get_ip_geolocation mlab_ns.Maxmind.ask_reader
    mlab_ns.Maxmind.get_geo_reader mlab_ns.Maxmind.record_of_answer
    mlab_ns.Lookup.proxied_or_resolved mlab_ns.ReverseProxy.try_reverse_proxy_url
    mlab_ns.Lookup.resolve mlab_ns.Lookup.respond mlab_ns.Lookup.logged mlab_ns.Lookup.send_response
    mlab_ns.Lookup.send_json_response mlab_ns.Lookup.json_list mlab_ns.Lookup.json_data
    mlab_ns.Lookup.create_tool_url mlab_ns.Lookup.ips_of mlab_ns.Fqdn.rewrite
    mlab_ns.Fqdn.apply_af_awareness mlab_ns.Fqdn.parse mlab_ns.Fqdn.replace
    mlab_ns.LocationLog.log_location tool_id_of mlab_ns.Query.response_format_of
    mlab_ns.Query.tool_address_family_of mlab_ns.Policy.set_policy mlab_ns.Policy.resolved_policy
    mlab_ns.Policy.policy_without_place mlab_ns.Policy.get_default_policy
    mlab_ns.Resolver.new_resolver mlab_ns.Resolver.answer_query
    mlab_ns.Resolver.fetch_tools_with_properties mlab_ns.Fetcher.fetch
    mlab_ns.Fetcher.memcache_fetch mlab_ns.Fetcher.fetch_cached mlab_ns.Fetcher.apply_filters
    mlab_ns.Fetcher.apply_filter mlab_ns.Filters.filter_by_status
    mlab_ns.Hosts.choose_one_host_per_site mlab_ns.Hosts.add_hosts mlab_ns.Hosts.add_host
    mlab_ns.Model.get_tool_from_tool_id mlab_ns.Resolver.choose_of mlab_ns.Resolver.chosen
answered = refl

Reach-get_example :
    (q : LookupQuery ℕ) × ((initialize_from_http_request thousandths unknown_to_maxmind
        setting.ip_addr
        (request_of "/ndt")
        true).0
      ≡ ok q)
    × (q.tool_id ≡ tool_id_of "/ndt")
    × Served (env_of platform final.store) (λ url. ok true) q (json false (monitored_data ∷ []))
Reach-get_example =
    Reach-get platform datastore_laws counting_laws final-Reach unknown_to_maxmind setting.ip_addr
      (λ url. ok true) setting.proxy_store [] true (request_of "/ndt") 0
      (json false (monitored_data ∷ [])) answered
