-- ===== src/RequestLog.antt =====
-- The log of lookups: LookupHandler.log_request of server/mlabns/handlers/lookup.py writes an entry,
-- and log2csv of server/mlabns/handlers/log2bq.py makes rows of the entries.
pub mod Unread
use Prim.Native.String.{◌++◌}
use mlab_ns.Base.{String, Bool, Option, none, some, List, [], ◌∷◌, ◌==◌, option_or, if◌then◌else◌}
use mlab_ns.Base.Text.{split, join}
use mlab_ns.Model.{SliverTool}
use mlab_ns.Fqdn.{rewrite}
use mlab_ns.Request.{
  Request, LookupQuery, GeolocationType, unset, app_engine, maxmind, user_defined,
}

-- '%s' % x, for a float, and the time of the entry as text.
pub record Texts (F : Type 0) : Type 0 where
  pub str : F → String
  pub time : String

-- '%s' % None is 'None'.
abbrev pub or_none : Option String → String
or_none none = "None"
or_none (some s) = s

abbrev pub geolocation_text : GeolocationType → String
geolocation_text unset = "None"
geolocation_text app_engine = "app_engine"
geolocation_text maxmind = "maxmind"
geolocation_text user_defined = "user_defined"

module _ {F : Type 0} (texts : Texts F) where
  -- "(%s %s ...) "
  abbrev pub sliver_text : Option String → SliverTool F → String
  sliver_text family t =
      "("
      ++ (join " " (
            t.slice_id
            ∷ t.server_id
            ∷ t.sliver_ipv4
            ∷ t.sliver_ipv6
            ∷ t.fqdn
            ∷ rewrite t.fqdn family t.tool_id
            ∷ t.site_id
            ∷ t.city
            ∷ t.country
            ∷ texts.str t.latitude
            ∷ texts.str t.longitude
            ∷ [])
          ++ ") ")

  -- sliver_tool_info
  abbrev pub sliver_tool_info : Option String → List (SliverTool F) → String
  sliver_tool_info family [] = ""
  sliver_tool_info family (t ∷ ts) = sliver_text family t ++ sliver_tool_info family ts

  -- The message of the entry, for the tools that answer the query. query.distance is always None.
  unfoldable pub log_request : Request → LookupQuery F → List (SliverTool F) → String
  log_request r q ts =
      "[lookup]"
      ++ (or_none q.tool_address_family
          ++ (","
              ++ join "," (
                  q.ip_address
                  ∷ option_or "" (r.headers "User-Agent")
                  ∷ sliver_tool_info q.tool_address_family ts
                  ∷ q.tool_id
                  ∷ or_none q.policy
                  ∷ q.response_format
                  ∷ geolocation_text q.geolocation_type
                  ∷ or_none q.metro
                  ∷ texts.time
                  ∷ or_none none
                  ∷ [])))

-- The entries of a request, with its latency as text and its user agent.
pub record RequestEntry : Type 0 where
  pub messages : List String
  pub latency : String
  pub user_agent : String

abbrev appended : List String → List String → List String
appended [] ys = ys
appended (x ∷ xs) ys = x ∷ appended xs ys

abbrev row_of : List String → RequestEntry → Option (List String) → Option (List String)
row_of [] r rest = rest
row_of (word ∷ words) r rest =
    if word == "[lookup]" then some (appended words (r.latency ∷ r.user_agent ∷ [])) else rest

-- log2csv, up to the writing of the row.
unfoldable pub log2csv_from : List String → RequestEntry → Option (List String)
log2csv_from [] r = none
log2csv_from (message ∷ messages) r = row_of (split b',' message) r (log2csv_from messages r)

unfoldable pub log2csv : RequestEntry → Option (List String)
log2csv r = log2csv_from r.messages r
