-- ===== src/Query.antt =====
-- LookupQuery.initialize_from_http_request of server/mlabns/util/lookup_query.py: the fields of a
-- query from those of a request.
pub mod Fields
use mlab_ns.Base.{
  String, Bool, true, false, ◌||◌, ◌&&◌, not, Option, none, some, List, [], ◌∷◌, ◌==◌, contains,
  option_or, opt_eq, if◌then◌else◌,
}
use mlab_ns.Base.Text.{first_part, strip, split}
use mlab_ns.Base.Errors.{Result, ok, raise}
use mlab_ns.Message.{
  valid_formats, default_response_format, address_family_ipv4, address_family_ipv6,
}
use mlab_ns.Runtime.{FloatOps}
use mlab_ns.Maxmind.{GeoRecord, empty_record, Maxmind}
use mlab_ns.Request.{Request, LookupQuery, GeolocationType, unset}
use mlab_ns.Geolocation.{set_geolocation}
use mlab_ns.Policy.{set_policy}

-- What the library ipaddr takes for a well-formed address.
pub record IpAddr : Type 0 where
  pub ipv4 : String → Bool
  pub ipv6 : String → Bool

-- _is_valid_ip
unfoldable pub is_valid_ip : IpAddr → String → Bool
is_valid_ip a ip = a.ipv4 ip || a.ipv6 ip

-- request.path.strip('/').split('/')[0]
unfoldable pub tool_id_of : String → String
tool_id_of path = first_part (split b'/' (strip b'/' path))

-- _set_response_format
unfoldable pub response_format_of : Request → String
response_format_of r =
    let asked = option_or default_response_format (r.get "format") in
    if contains asked valid_formats then asked else default_response_format

-- _set_tool_address_family
unfoldable pub tool_address_family_of : Request → Option String
tool_address_family_of r =
    if opt_eq (r.get "address_family") address_family_ipv4
      || opt_eq (r.get "address_family") address_family_ipv6
    then r.get "address_family"
    else none

-- _set_ip_address: the address, and whether the user has given it.
unfoldable pub ip_address_of : IpAddr → Request → String × Bool
ip_address_of a r =
    let asked = option_or "" (r.get "ip") in
    if is_valid_ip a asked && not (asked == r.remote_addr)
    then (asked, true)
    else (r.remote_addr, false)

module _ {F : Type 0} where
  -- The query before _set_geolocation.
  unfoldable pub fields_of : IpAddr → Request → LookupQuery F
  fields_of a r =
      let (ip, explicit) = ip_address_of a r in
      record {
        tool_id = tool_id_of r.path;
        path = r.path;
        path_qs = r.path_qs;
        user_agent = option_or "" (r.headers "User-Agent");
        response_format = response_format_of r;
        policy = none;
        metro = none;
        ip_address = ip;
        ip_is_explicit = explicit;
        tool_address_family = tool_address_family_of r;
        geolocation_type = unset;
        location = empty_record;
        given = empty_record;
        gae = empty_record;
        mm = empty_record;
      }

  -- The metro and the policy, which are set last.
  unfoldable pub settle :
      FloatOps F → Request → Result (LookupQuery F) × Bool → Result (LookupQuery F) × Bool
  settle fl r (ok q, loaded) =
      (ok (set_policy fl (r.get "policy") (record q { metro = r.get "metro" })), loaded)
  settle fl r (raise e, loaded) = (raise e, loaded)

  unfoldable pub initialize_from_http_request :
      FloatOps F → Maxmind F → IpAddr → Request → Bool → Result (LookupQuery F) × Bool
  initialize_from_http_request fl m a r loaded =
      settle fl r (set_geolocation fl m r (fields_of a r) loaded)
