-- ===== src/Lookup.antt =====
-- LookupHandler of server/mlabns/handlers/lookup.py: the answer to a request. What an answer holds
-- is kept as data; its rendering as JSON or HTML text, headers and logging are left out.
pub mod Addresses
pub mod Ends
pub mod Outcome
pub mod Served
use Prim.Native.String.{◌++◌}
use mlab_ns.Base.{
  String, Bool, true, false, ◌&&◌, not, Option, none, some, List, [], ◌∷◌, map, ◌==◌, opt_eq,
  truthy, text_or_none, option_or, if◌then◌else◌,
}
use mlab_ns.Base.Text.{no_text}
use mlab_ns.Base.Errors.{PyError, Result, ok, raise, ◌>>=◌, index_error, attribute_error}
use mlab_ns.Message.{
  status_online, format_json, format_html, format_redirect, format_bt, format_map,
  address_family_ipv4, address_family_ipv6,
}
use mlab_ns.Model.{SliverTool, Tool, get_tool_from_tool_id, is_valid_tool}
use mlab_ns.Env.{Env}
use mlab_ns.Request.{Request, LookupQuery}
use mlab_ns.Maxmind.{Maxmind}
use mlab_ns.Signature.{calculate_client_signature}
use mlab_ns.Fqdn.{rewrite}
use mlab_ns.Query.{IpAddr, initialize_from_http_request}
use mlab_ns.LocationLog.{log_location}
use mlab_ns.ReverseProxy.{ProxyStore, ProxyCache, try_reverse_proxy_url}
use mlab_ns.Resolver.{Wanted, Resolver, new_resolver, answer_query}

-- The dict that send_json_response writes for one tool.
pub record JsonData : Type 0 where
  pub url : Option String
  pub port : Option String
  pub fqdn : String
  pub ip : List String
  pub site : String
  pub city : String
  pub country : String
  pub tool_extra : Option String

-- The answers of the handler. The first argument of json tells whether it is an array.
pub data Response (F : Type 0) : Type 0 where
  no_content : Response F
  not_found : String → Response F
  json : Bool → List JsonData → Response F
  html : List (SliverTool F) → Response F
  redirect : String → Response F
  bt : String → Response F
  proxied : String → Response F

-- _create_tool_url
unfoldable pub create_tool_url : String → String → String
create_tool_url fqdn http_port = "http://" ++ (fqdn ++ (":" ++ http_port))

abbrev pub if_online : String → String → List String → List String
if_online status ip ips = if status == status_online then ip ∷ ips else ips

module _ {F : Type 0} where
  -- The addresses that send_json_response lists.
  unfoldable pub ips_of : Option String → SliverTool F → List String
  ips_of family t =
      if opt_eq family address_family_ipv4
      then t.sliver_ipv4 ∷ []
      else if opt_eq family address_family_ipv6
      then t.sliver_ipv6 ∷ []
      else if_online t.status_ipv4 t.sliver_ipv4 (if_online t.status_ipv6 t.sliver_ipv6 [])

  abbrev pub fqdn_for : Option String → SliverTool F → String
  fqdn_for family t = rewrite t.fqdn family t.tool_id

  abbrev pub url_for : Option String → SliverTool F → Option String
  url_for family t = elim (text_or_none t.http_port) [
    | none ↦ none
    | some port ↦ some (create_tool_url (fqdn_for family t) port)
  ]

  -- sliver_tool.tool_extra and tool.show_tool_extra: without a tool the second is an AttributeError.
  abbrev pub extra_for : Option Tool → SliverTool F → Result (Option String)
  extra_for none t = if no_text t.tool_extra then ok none else raise attribute_error
  extra_for (some tool) t =
      ok (if not (no_text t.tool_extra) && tool.show_tool_extra then some t.tool_extra else none)

  unfoldable pub json_data : Option String → Option Tool → SliverTool F → Result JsonData
  json_data family tool t = do
    extra ← extra_for tool t
    ok (record {
      url = url_for family t;
      port = text_or_none t.server_port;
      fqdn = fqdn_for family t;
      ip = ips_of family t;
      site = t.site_id;
      city = t.city;
      country = t.country;
      tool_extra = extra;
    })

  abbrev pub several : List (SliverTool F) → Bool
  several (t ∷ u ∷ ts) = true
  several _ = false

  abbrev pub json_or_none : Bool → List JsonData → Response F
  json_or_none array [] = no_content
  json_or_none array (d ∷ ds) = json array (d ∷ ds)

  -- send_bt_response
  unfoldable pub send_bt_response : Option String → List (SliverTool F) → String
  send_bt_response family [] = ""
  send_bt_response family (t ∷ ts) =
      t.city
      ++ (", "
          ++ (t.country ++ ("|" ++ (fqdn_for family t ++ ("\n" ++ send_bt_response family ts)))))

  -- send_redirect_response
  unfoldable pub send_redirect_response : Option String → List (SliverTool F) → Result (Response F)
  send_redirect_response family [] = raise index_error
  send_redirect_response family (t ∷ ts) = elim (url_for family t) [
    | none ↦ ok (not_found format_html)
    | some url ↦ ok (redirect url)
  ]

  -- The fields of the query that a resolver reads.
  abbrev pub wanted : LookupQuery F → Wanted F
  wanted q = record {
    tool_id = q.tool_id;
    tool_address_family = q.tool_address_family;
    latitude = q.location.latitude;
    longitude = q.location.longitude;
    country = q.location.country;
    metro = q.metro;
  }

module _ {F G : Type 0} (env : Env F G) where
  abbrev pub tool_if_none : Option Tool → SliverTool F → Option Tool
  tool_if_none none t = get_tool_from_tool_id env.backend t.tool_id
  tool_if_none (some tool) t = some tool

  -- The loop of send_json_response, with its variable tool.
  unfoldable pub json_list :
      Option String → Option Tool → List (SliverTool F) → Result (List JsonData)
  json_list family tool [] = ok []
  json_list family tool (t ∷ ts) = do
    d ← json_data family (tool_if_none tool t) t
    ds ← json_list family (tool_if_none tool t) ts
    ok (d ∷ ds)

  unfoldable pub send_json_response : Option String → List (SliverTool F) → Result (Response F)
  send_json_response family ts = do ds ← json_list family none ts; ok (json_or_none (several ts) ds)

  -- The choice of the response by its format; no resolver has the method get_candidates.
  unfoldable pub send_response : LookupQuery F → List (SliverTool F) → Result (Response F)
  send_response q ts =
      if q.response_format == format_json
      then send_json_response q.tool_address_family ts
      else if q.response_format == format_html
      then ok (html ts)
      else if q.response_format == format_redirect
      then send_redirect_response q.tool_address_family ts
      else if q.response_format == format_bt
      then ok (bt (send_bt_response q.tool_address_family ts))
      else if q.response_format == format_map
      then raise attribute_error
      else send_json_response q.tool_address_family ts

module _ {F G : Type 0} (env : Env F G) (m : Maxmind F) where
  -- What follows a response: an exception of log_location takes its place.
  unfoldable pub logged :
      LookupQuery F → Bool → List (SliverTool F) → Result (Response F) → Result (Response F)
  logged q loaded ts sent = do r ← sent; difference ← log_location env.fl m q loaded ts; ok r

  -- The response to a resolver's answer: None is no capacity or an invalid tool.
  unfoldable pub respond :
      LookupQuery F → Bool → Result (Option (List (SliverTool F))) → Result (Response F)
  respond q loaded (raise e) = raise e
  respond q loaded (ok none) =
      ok (if is_valid_tool env.backend q.tool_id then no_content else not_found q.response_format)
  respond q loaded (ok (some ts)) = logged q loaded ts (send_response env q ts)

  -- The part of get that resolves the query.
  unfoldable pub resolve : LookupQuery F → Bool → G → Result (Response F)
  resolve q loaded g =
      respond q loaded
        (answer_query env (new_resolver q.policy) (wanted q)
          (calculate_client_signature q.ip_address q.user_agent q.path_qs) g).0

  -- A URL to proxy to is fetched: send_proxy_response tells whether that succeeds, false where it
  -- meets a URLError; any other exception of the fetch is not caught.
  unfoldable pub proxied_or_resolved :
      (String → Result Bool) → LookupQuery F → Bool → Result String → G → Result (Response F)
  proxied_or_resolved send_proxy_response q loaded (raise e) g = raise e
  proxied_or_resolved send_proxy_response q loaded (ok url) g =
      if no_text url then resolve q loaded g else (do
        success ← send_proxy_response url
        if success then ok (proxied url) else resolve q loaded g)

  unfoldable pub lookup_of :
      (String → Result Bool)
      → ProxyStore F
      → ProxyCache F
      → Result (LookupQuery F) × Bool
      → G
      → Result (Response F)
  lookup_of send_proxy_response store cache (raise e, loaded) g = raise e
  lookup_of send_proxy_response store cache (ok q, loaded) g =
      let (url, cache', g') = try_reverse_proxy_url env.fl env.rng.uniform store q cache g in
      proxied_or_resolved send_proxy_response q loaded url g'

  -- LookupHandler.get.
  unfoldable pub get :
      IpAddr
      → (String → Result Bool)
      → ProxyStore F
      → ProxyCache F
      → Bool
      → Request
      → G
      → Result (Response F)
  get a send_proxy_response store cache loaded r g =
      lookup_of send_proxy_response store cache (initialize_from_http_request env.fl m a r loaded) g
