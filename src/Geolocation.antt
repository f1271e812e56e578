-- ===== src/Geolocation.antt =====
-- Where the client is: _set_geolocation of server/mlabns/util/lookup_query.py and what it calls.
pub mod Loaded
pub mod Sources
use mlab_ns.Base.{
  String, Bool, false, ◌||◌, ◌&&◌, not, Option, none, some, List, [], ◌∷◌, truthy, text_or_none,
  option_or, if◌then◌else◌,
}
use mlab_ns.Base.Text.{split}
use mlab_ns.Base.Errors.{Result, ok, raise}
use mlab_ns.Runtime.{FloatOps}
use mlab_ns.Maxmind.{
  GeoRecord, empty_record, Maxmind, get_ip_geolocation, get_country_geolocation,
  get_city_geolocation,
}
use mlab_ns.Request.{Request, LookupQuery, unset, app_engine, maxmind, user_defined}

-- The truth value of a float that may be None: 0.0 is false.
abbrev pub float_truthy : {F : Type 0} → FloatOps F → Option F → Bool
float_truthy fl none = false
float_truthy fl (some x) = not (fl.is_zero x)

module _ {F : Type 0} (fl : FloatOps F) where
  abbrev pub in_range : F → F → Bool
  in_range lat lon =
      not (fl.less (fl.ratio 90 1) (fl.abs lat) || fl.less (fl.ratio 180 1) (fl.abs lon))

  abbrev pub checked : F → F → Option (F × F)
  checked lat lon = if in_range lat lon then some (lat, lon) else none

  abbrev pub both_floats : Option F → Option F → Option (F × F)
  both_floats (some lat) (some lon) = checked lat lon
  both_floats _ _ = none

  abbrev pub parse_lat_lon : Option String → Option String → Option (F × F)
  parse_lat_lon (some lat) (some lon) = both_floats (fl.float lat) (fl.float lon)
  parse_lat_lon _ _ = none

  -- _get_user_defined_lat_lon, with none for (None, None)
  unfoldable pub get_user_defined_lat_lon : Request → Option (F × F)
  get_user_defined_lat_lon r =
      parse_lat_lon (text_or_none (r.get "lat")) (text_or_none (r.get "lon"))

  -- [float(x) for x in parts], with none for ValueError
  abbrev pub floats : List String → Option (List F)
  floats [] = some []
  floats (s ∷ ss) = elim (fl.float s) [
    | none ↦ none
    | some x ↦ elim (floats ss) [ none ↦ none | some xs ↦ some (x ∷ xs) ]
  ]

  -- The assignment of a list to two variables: any other length is a ValueError, which is caught.
  abbrev pub assign_lat_lon : Option (List F) → GeoRecord F → GeoRecord F
  assign_lat_lon (some (lat ∷ lon ∷ [])) g = record g { latitude = some lat; longitude = some lon }
  assign_lat_lon _ g = g

  unfoldable pub set_appengine_geolocation : Request → LookupQuery F → LookupQuery F
  set_appengine_geolocation r q =
      let named = record q.gae {
        city = (elim (r.headers "X-AppEngine-City") [ none ↦ q.gae.city | some c ↦ some c ]);
        country = (elim (r.headers "X-AppEngine-Country") [
          | none ↦ q.gae.country
          | some c ↦ some c
        ]);
      } in
      record q {
        gae = elim (r.headers "X-AppEngine-CityLatLong") [
          | none ↦ named
          | some lat_long ↦ assign_lat_lon (floats (split b',' lat_long)) named
        ];
      }

module _ {F : Type 0} (m : Maxmind F) where
  -- The chain of conditions of _set_maxmind_geolocation, which picks what to look up.
  unfoldable pub maxmind_record :
      Option String → Option String → Option String → Bool → Result (GeoRecord F) × Bool
  maxmind_record (some ip) country city loaded = get_ip_geolocation m ip loaded
  maxmind_record none (some country) (some city) loaded =
      (ok (get_city_geolocation m city country), loaded)
  maxmind_record none (some country) none loaded = (ok (get_country_geolocation m country), loaded)
  maxmind_record none none city loaded = (ok empty_record, loaded)

  abbrev pub store_maxmind : LookupQuery F → Result (GeoRecord F) → Result (LookupQuery F)
  store_maxmind q (ok g) = ok (record q { mm = g })
  store_maxmind q (raise e) = raise e

  -- _set_maxmind_geolocation(ip_address, country, city)
  unfoldable pub set_maxmind_geolocation :
      Option String
      → Option String
      → Option String
      → LookupQuery F
      → Bool
      → Result (LookupQuery F) × Bool
  set_maxmind_geolocation ip country city q loaded =
      let (g, loaded') = maxmind_record ip country city loaded in (store_maxmind q g, loaded')

-- The last part of _set_geolocation: the fields of the chosen source.
unfoldable pub use_source : {F : Type 0} → LookupQuery F → LookupQuery F
use_source q = elim q.geolocation_type [
  | user_defined ↦ record q { location = record q.given { country = text_or_none q.given.country } }
  | maxmind ↦ record q { location = q.mm }
  | app_engine ↦ record q { location = q.gae }
  | unset ↦ q
]

abbrev pub finish : {F : Type 0} → Result (LookupQuery F) × Bool → Result (LookupQuery F) × Bool
finish (ok q, loaded) = (ok (use_source q), loaded)
finish (raise e, loaded) = (raise e, loaded)

module _ {F : Type 0} (fl : FloatOps F) (m : Maxmind F) where
  -- The branches of _set_geolocation, on the query with the fields of App Engine and of the user.
  unfoldable pub choose_source :
      Option (F × F) → LookupQuery F → Bool → Result (LookupQuery F) × Bool
  choose_source (some (lat, lon)) q loaded = (
    ok (record q {
      geolocation_type = user_defined;
      given = record q.given { latitude = some lat; longitude = some lon };
    }),
    loaded,
  )
  choose_source none q loaded =
      if q.ip_is_explicit || truthy q.given.country
      then set_maxmind_geolocation m (if q.ip_is_explicit then some q.ip_address else none)
          q.given.country q.given.city (record q { geolocation_type = maxmind }) loaded
      else if float_truthy fl q.gae.latitude && float_truthy fl q.gae.longitude
      then (ok (record q { geolocation_type = app_engine }), loaded)
      else set_maxmind_geolocation m (some q.ip_address) q.gae.country q.gae.city
          (record q { geolocation_type = maxmind }) loaded

  unfoldable pub set_geolocation : Request → LookupQuery F → Bool → Result (LookupQuery F) × Bool
  set_geolocation r q loaded =
      let q1 = set_appengine_geolocation fl r q in
      let q2 = record q1 {
        given = record q1.given {
          city = r.get "city";
          country = some (option_or "" (r.get "country"));
        };
      } in
      finish (choose_source (get_user_defined_lat_lon fl r) q2 loaded)
