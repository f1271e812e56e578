-- ===== src/Request.antt =====
-- The HTTP request, and the fields of the LookupQuery of server/mlabns/util/lookup_query.py.
use mlab_ns.Base.{String, Bool, Option}
use mlab_ns.Maxmind.{GeoRecord}

pub record Request : Type 0 where
  pub path : String
  pub path_qs : String
  pub remote_addr : String
  -- request.get(name, default_value=None)
  pub get : String → Option String
  pub headers : String → Option String

pub data GeolocationType : Type 0 where
  unset app_engine maxmind user_defined : GeolocationType

-- The fields _gae_city, _gae_country, ... are those of one record, and so for the other sources.
pub record LookupQuery (F : Type 0) : Type 0 where
  pub tool_id : String
  pub path : String
  pub path_qs : String
  pub user_agent : String
  pub response_format : String
  pub policy : Option String
  pub metro : Option String
  pub ip_address : String
  pub ip_is_explicit : Bool
  pub tool_address_family : Option String
  pub geolocation_type : GeolocationType
  pub location : GeoRecord F
  pub given : GeoRecord F
  pub gae : GeoRecord F
  pub mm : GeoRecord F
