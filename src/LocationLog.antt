-- ===== src/LocationLog.antt =====
-- LookupHandler.log_location of server/mlabns/handlers/lookup.py: how far App Engine and MaxMind are
-- apart on where a client is.
pub mod Ends
use mlab_ns.Base.{String, Bool, true, false, Option, none, some, List, [], ◌∷◌, ◌==◌, if◌then◌else◌}
use mlab_ns.Base.Errors.{Result, ok, raise, type_error, ◌>>=◌}
use mlab_ns.Runtime.{FloatOps}
use mlab_ns.Distance.{distance}
use mlab_ns.Maxmind.{Maxmind}
use mlab_ns.Model.{SliverTool}
use mlab_ns.Request.{LookupQuery, GeolocationType, unset, app_engine, maxmind, user_defined}
use mlab_ns.Geolocation.{set_maxmind_geolocation}

abbrev pub is_app_engine : GeolocationType → Bool
is_app_engine app_engine = true
is_app_engine unset = false
is_app_engine maxmind = false
is_app_engine user_defined = false

module _ {F : Type 0} (fl : FloatOps F) where
  -- distance.distance of App Engine's position and MaxMind's, the latter known; a coordinate of the
  -- former that is None is a TypeError.
  abbrev pub difference_from : Option F → Option F → F → F → Result (Option F)
  difference_from (some lat1) (some lon1) lat2 lon2 = do
    x ← distance fl lat1 lon1 lat2 lon2
    ok (some x)
  difference_from _ _ lat2 lon2 = raise type_error

  abbrev pub difference_to : Option F → Option F → Option F → Option F → Result (Option F)
  difference_to lat1 lon1 (some lat2) (some lon2) = difference_from lat1 lon1 lat2 lon2
  difference_to lat1 lon1 _ _ = ok none

  abbrev pub difference_of : Result (LookupQuery F) → Result (Option F)
  difference_of (raise e) = raise e
  difference_of (ok q) = difference_to q.gae.latitude q.gae.longitude q.mm.latitude q.mm.longitude

  abbrev pub of_first : Maxmind F → LookupQuery F → Bool → List (SliverTool F) → Result (Option F)
  of_first m q loaded [] = ok none
  of_first m q loaded (t ∷ ts) =
      if is_app_engine q.geolocation_type
      then difference_of (set_maxmind_geolocation m (some q.ip_address) none none q loaded).0
      else ok none

  -- The difference that is logged, with none where none is.
  unfoldable pub log_location :
      Maxmind F → LookupQuery F → Bool → List (SliverTool F) → Result (Option F)
  log_location m q loaded ts = if q.tool_id == "ndt_ssl" then of_first m q loaded ts else ok none
