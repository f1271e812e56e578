-- ===== src/Message.antt =====
-- The constants of server/mlabns/util/message.py and server/mlabns/util/constants.py.
use mlab_ns.Base.{String, List, [], ◌∷◌}

abbrev pub address_family_ipv4 : String
address_family_ipv4 = "ipv4"

abbrev pub address_family_ipv6 : String
address_family_ipv6 = "ipv6"

abbrev pub format_html : String
format_html = "html"

abbrev pub format_json : String
format_json = "json"

abbrev pub format_map : String
format_map = "map"

abbrev pub format_redirect : String
format_redirect = "redirect"

abbrev pub format_bt : String
format_bt = "bt"

abbrev pub valid_formats : List String
valid_formats = format_html ∷ format_json ∷ format_map ∷ format_redirect ∷ format_bt ∷ []

abbrev pub default_response_format : String
default_response_format = format_json

abbrev pub policy_geo : String
policy_geo = "geo"

abbrev pub policy_geo_options : String
policy_geo_options = "geo_options"

abbrev pub policy_metro : String
policy_metro = "metro"

abbrev pub policy_random : String
policy_random = "random"

abbrev pub policy_country : String
policy_country = "country"

abbrev pub policy_all : String
policy_all = "all"

abbrev pub no_ip_address : String
no_ip_address = "off"

abbrev pub status_offline : String
status_offline = "offline"

abbrev pub status_online : String
status_online = "online"

abbrev pub prometheus_tool_extra : String
prometheus_tool_extra = "Prometheus was here \\o/."

abbrev pub nagios_service_status_ok : String
nagios_service_status_ok = "0"

abbrev pub prometheus_service_status_ok : String
prometheus_service_status_ok = "1"

abbrev pub unknown_city : String
unknown_city = "Zion"
