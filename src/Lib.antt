-- ===== src/Lib.antt =====
-- mlab-ns, the M-Lab naming server: which measurement servers answer a client.
--
-- A request names a tool and, perhaps, a policy and a place. LookupQuery reads it, finds out where
-- the client is, and settles the policy; a resolver then fetches the slivers of the tool from
-- memcache or the datastore, filters them and picks the answer. Cron handlers keep the slivers up to
-- date: one registers the sites and then updates the addresses, one updates the status, from Nagios
-- and from Prometheus.
--
-- The parts, and the code of each (paths from the repository's root):
--   Model         server/mlabns/db/model.py: entities as records, the datastore as a Backend
--   Message       server/mlabns/util/message.py, constants.py
--   Filters, Hosts, Fetcher
--                 server/mlabns/db/sliver_tool_fetcher.py: _filter_by_status, _filter_by_country;
--                 _filter_choose_one_host_per_site; the two fetchers and ToolProperties
--   ClientSignature
--                 server/mlabns/db/client_signature_fetcher.py
--   Distance, Resolver
--                 server/mlabns/util/distance.py and resolver.py: each resolver class is a
--                 constructor of Resolver, and answer_query its method
--   Maxmind, Request, Geolocation
--                 server/mlabns/util/maxmind.py, and _set_geolocation of lookup_query.py
--   Policy, Signature
--                 _set_policy and calculate_client_signature of server/mlabns/util/lookup_query.py
--   Fqdn          server/mlabns/util/parse_fqdn.py, fqdn_rewrite.py, and
--                 get_slice_site_server_ids of server/mlabns/db/model.py
--   IpUpdate      IPUpdateHandler of server/mlabns/handlers/update.py, and
--                 server/mlabns/util/production_check.py
--   Status        StatusUpdateHandler.update_sliver_tools_status of
--                 server/mlabns/handlers/update.py
--   Query         the rest of LookupQuery.initialize_from_http_request
--   ReverseProxy  server/mlabns/util/reverse_proxy.py
--   Lookup        LookupHandler of server/mlabns/handlers/lookup.py: get is its method get, and a
--                 Response what it sends
--   Nagios        server/mlabns/util/nagios_status.py, from the page
--   Prometheus    server/mlabns/util/prometheus_status.py, from the answer of Prometheus
--   Reports       what the two sources have in common: the loop that records what they report
--   Store         the datastore and memcache as the handlers change them, and their writes
--   System        the steps of the handlers, with writes that are under way: which states are reached
--   StatusHandler StatusUpdateHandler.get of server/mlabns/handlers/update.py, with
--                 server/mlabns/db/nagios_config_wrapper.py and prometheus_config_wrapper.py
--   AddressHandler, Registration
--                 IPUpdateHandler.update and SiteRegistrationHandler of the same file
--   Page          what a URL gives, and how a handler ends
--   RequestLog    log_request of server/mlabns/handlers/lookup.py, log2csv of log2bq.py beside it
--   Admin         AdminHandler of server/mlabns/handlers/admin.py: the pages and the map's data
--   LocationLog   log_location of server/mlabns/handlers/lookup.py
--   Application   server/main.py: the routes, all handlers at work on one store, and the small
--                 handlers of server/mlabns/handlers/update.py, docs.py and privacy.py
--   Compare       compare_instances.py: two instances compared, sample by sample
--   Environment   environment_bootstrap.py: the links that choose the environment
--   Base          lists, texts, dicts, exceptions and regular expressions of Python
--   Runtime, Env  what Python and App Engine provide, as records of operations and of laws
--   Tests         a small deployment, and runs of the code in it
--
-- Python's floats are a type F with its operations, and the random module a generator G that every
-- function passes along; shuffle gives some order of the items, a sample stands first in some order,
-- and uniform(0, 1) is at most 1. A dict is an association list, and the order of dict.values() is a
-- parameter. Memcache and the datastore are functions of what is asked, which hold still during a
-- request; a query returns what its conditions admit. None is none, an exception that a handler can
-- meet is a constructor of PyError. Times are natural numbers. A regular expression is matched by
-- backtracking, by recursion on the expression and the text. The loop of get_metrics alone takes
-- fuel, a unit for each round: 61 are enough for the 60 samples that are taken without an option.
--
-- Logging is left out, but for the entry of a lookup and what log_location may raise. The handlers of
-- cron read the store and queue writes, which reach it one by one; a put may store some entities
-- only, and memcache may forget. Which route webapp picks is a parameter. The square root of a float
-- may be a ValueError, as math.sqrt is of a negative one, and so may a distance. The fetch of
-- send_proxy_response is a parameter that says if a server has answered, or which exception it ends
-- with. Not modelled: the fetching of pages, openers and their passwords, the rendering of pages and
-- of JSON, send_map_response, which no request reaches, the pipelines that export logs, which only
-- call App Engine's, the path setup, and the vendored libraries.
pub mod Base
pub mod Message
pub mod Runtime
pub mod Model
pub mod Env
pub mod Filters
pub mod Hosts
pub mod Fetcher
pub mod ClientSignature
pub mod Distance
pub mod Resolver
pub mod Maxmind
pub mod Request
pub mod Geolocation
pub mod Policy
pub mod Fqdn
pub mod IpUpdate
pub mod Status
pub mod Signature
pub mod Store
pub mod Page
pub mod System
pub mod StatusHandler
pub mod AddressHandler
pub mod Registration
pub mod Reports
pub mod Nagios
pub mod Prometheus
pub mod Admin
pub mod Tests
pub mod Query
pub mod ReverseProxy
pub mod Lookup
pub mod RequestLog
pub mod LocationLog
pub mod Compare
pub mod Application
pub mod Environment
