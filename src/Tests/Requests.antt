-- ===== src/Tests/Requests.antt =====
-- Requests, the queries that they lead to, and the reverse proxy.
use mlab_ns.Base.{
  ℕ, String, true, false, none, some, List, [], ◌∷◌, ◌==◌, if◌then◌else◌, ◌≡◌, refl, inl,
}
use mlab_ns.Base.Dict.{lookup}
use mlab_ns.Base.Errors.{ok}
use mlab_ns.Maxmind.{
  GeoRecord, empty_record, Maxmind, get_ip_geolocation, ask_reader, record_of_answer,
  get_geo_reader, opened, io_error, address_not_found, found,
}
use mlab_ns.Request.{Request, LookupQuery, unset, maxmind}
use mlab_ns.Policy.{set_policy, resolved_policy}
use mlab_ns.Geolocation.{
  get_user_defined_lat_lon, set_geolocation, set_appengine_geolocation, choose_source, use_source,
  set_maxmind_geolocation, maxmind_record,
}
use mlab_ns.Query.{
  IpAddr, initialize_from_http_request, fields_of, settle, tool_id_of, response_format_of,
  tool_address_family_of, ip_address_of, is_valid_ip,
}
use mlab_ns.Query.Fields.{IsQuery, initialize_from_http_request-IsQuery}
use mlab_ns.ReverseProxy.{
  ReverseProxyProbability, ProxyStore, get_reverse_proxy, try_reverse_proxy_url, reverse_proxy_of,
  refresh, proxy_url,
}
use mlab_ns.RequestLog.{Texts, log_request, log2csv}
use mlab_ns.RequestLog.Unread.{log2csv_unread}
use mlab_ns.Tests.World.{thousandths, counting}

abbrev parameters : List (String × String)
parameters = ("lat", "40.7") ∷ ("lon", "40.7") ∷ ("ip", "5.6.7.8") ∷ ("format", "json") ∷ []

abbrev request_with : List (String × String) → Request
request_with ps = record {
  path = "/ndt7/";
  path_qs = "/ndt7/?format=json";
  remote_addr = "1.2.3.4";
  get = λ name. lookup name ps;
  headers = λ name. none;
}

abbrev request : Request
request = request_with parameters

-- The same without coordinates.
abbrev from_address : Request
from_address = request_with (("ip", "5.6.7.8") ∷ [])

abbrev database : Maxmind ℕ
database = record {
  opening = opened;
  city = λ ip.
      if ip == "5.6.7.8"
      then found (record empty_record { latitude = some 33900; longitude = some 118400 })
      else address_not_found;
  country_by_key_name = λ c. none;
  first_city = λ city country. none;
}

abbrev unreadable : Maxmind ℕ
unreadable = record database { opening = io_error }

abbrev addresses : IpAddr
addresses = record { ipv4 = λ ip. ip == "5.6.7.8"; ipv6 = λ ip. false }

abbrev fields : LookupQuery ℕ
unfolding fields_of ip_address_of is_valid_ip
fields = fields_of addresses request

named : tool_id_of "/ndt7/" ≡ "ndt7"
unfolding tool_id_of
named = refl

coordinates : get_user_defined_lat_lon thousandths request ≡ some (40700, 40700)
unfolding get_user_defined_lat_lon
coordinates = refl

no_coordinates : get_user_defined_lat_lon thousandths from_address ≡ none
unfolding get_user_defined_lat_lon
no_coordinates = refl

fields_explicit : fields.ip_is_explicit ≡ true
unfolding fields fields_of ip_address_of is_valid_ip
fields_explicit = refl

abbrev angeles : GeoRecord ℕ
angeles = record empty_record { latitude = some 33900; longitude = some 118400 }

-- The query of the request.
abbrev asked : LookupQuery ℕ
asked = record {
  tool_id = "ndt7";
  path = "/ndt7/";
  path_qs = "/ndt7/?format=json";
  user_agent = "";
  response_format = "json";
  policy = some "geo";
  metro = none;
  ip_address = "5.6.7.8";
  ip_is_explicit = true;
  tool_address_family = none;
  geolocation_type = maxmind;
  location = angeles;
  given = record empty_record { country = some "" };
  gae = empty_record;
  mm = angeles;
}

initialized :
    (initialize_from_http_request thousandths database addresses from_address false).0 ≡ ok asked
unfolding initialize_from_http_request settle fields_of tool_id_of response_format_of
    tool_address_family_of ip_address_of is_valid_ip set_geolocation set_appengine_geolocation
    choose_source use_source set_maxmind_geolocation maxmind_record get_ip_geolocation ask_reader
    record_of_answer get_geo_reader get_user_defined_lat_lon set_policy resolved_policy
initialized = refl

initialize_from_http_request-IsQuery_example : IsQuery addresses from_address asked
initialize_from_http_request-IsQuery_example =
    initialize_from_http_request-IsQuery thousandths database addresses from_address false asked
      initialized

abbrev ndt7_proxy : ReverseProxyProbability ℕ
ndt7_proxy = record { name = "ndt7"; probability = 500; url = "https://locate.measurementlab.net" }

abbrev proxies : ProxyStore ℕ
proxies = record { probabilities = ndt7_proxy ∷ []; accepts = λ p. true }

abbrev located : LookupQuery ℕ
located = record {
  tool_id = "ndt7";
  path = "/ndt7";
  path_qs = "/ndt7";
  user_agent = "";
  response_format = "json";
  policy = none;
  metro = none;
  ip_address = "1.2.3.4";
  ip_is_explicit = false;
  tool_address_family = none;
  geolocation_type = unset;
  location = record empty_record { latitude = some 40700; longitude = some 73900 };
  given = empty_record;
  gae = empty_record;
  mm = empty_record;
}

proxied_to :
    (try_reverse_proxy_url thousandths counting.uniform proxies located [] 3).0
    ≡ ok "https://locate.measurementlab.net/ndt7?lat=0.0&lon=0.0"
unfolding try_reverse_proxy_url get_reverse_proxy reverse_proxy_of refresh proxy_url
proxied_to = refl

abbrev texts : Texts ℕ
texts = record { str = λ x. "40.7"; time = "1500000000.0" }

-- A lookup of which the log makes no row.
log2csv_unread_example :
    log2csv (record {
      messages = log_request texts from_address asked [] ∷ [];
      latency = "0.1";
      user_agent = "Mozilla";
    })
    ≡ none
log2csv_unread_example =
    log2csv_unread texts ((from_address, asked, []) ∷ []) "0.1" "Mozilla" (inl refl, tt)
