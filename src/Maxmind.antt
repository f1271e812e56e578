-- ===== src/Maxmind.antt =====
-- server/mlabns/util/maxmind.py. The MaxMind reader, Cloud Storage and the datastore are parameters.
use mlab_ns.Base.{String, Bool, true, false, Option, none, some}
use mlab_ns.Base.Errors.{Result, ok, raise, type_error, gcs_not_found}
use mlab_ns.Message.{unknown_city}

pub record GeoRecord (F : Type 0) : Type 0 where
  pub city : Option String
  pub country : Option String
  pub latitude : Option F
  pub longitude : Option F

abbrev pub empty_record : {F : Type 0} → GeoRecord F
empty_record = record { city = none; country = none; latitude = none; longitude = none }

-- CountryCode and MaxmindCityLocation of server/mlabns/db/model.py, as far as they are read.
pub record CountryCode (F : Type 0) : Type 0 where
  pub alpha2_code : Option String
  pub latitude : Option F
  pub longitude : Option F

pub record MaxmindCityLocation (F : Type 0) : Type 0 where
  pub city : Option String
  pub country : Option String
  pub latitude : Option F
  pub longitude : Option F

-- What Reader.city(ip_address) does: an exception, a false answer, or an answer.
pub data CityAnswer (F : Type 0) : Type 0 where
  malformed_ip address_not_found no_answer : CityAnswer F
  found : GeoRecord F → CityAnswer F

-- What opening the database file in Cloud Storage and reading it does.
pub data Opening : Type 0 where
  opened invalid_database io_error file_not_found : Opening

pub record Maxmind (F : Type 0) : Type 0 where
  pub opening : Opening
  pub city : String → CityAnswer F
  -- country_table.get_by_key_name
  pub country_by_key_name : String → Option (CountryCode F)
  -- city_table.gql(...).get(), for a city and a country
  pub first_city : String → String → Option (MaxmindCityLocation F)

-- What get_geo_reader returns: the reader, or an empty GeoRecord in its place.
pub data GeoReader : Type 0 where
  reader record_instead : GeoReader

-- get_geo_reader. The Boolean tells whether the module's _maxmind_geo_reader is set.
unfoldable pub get_geo_reader : Opening → Bool → Result GeoReader × Bool
get_geo_reader opening true = (ok reader, true)
get_geo_reader opened false = (ok reader, true)
get_geo_reader invalid_database false = (ok record_instead, false)
get_geo_reader io_error false = (ok record_instead, false)
get_geo_reader file_not_found false = (raise gcs_not_found, false)

module _ {F : Type 0} (m : Maxmind F) where
  unfoldable pub record_of_answer : CityAnswer F → GeoRecord F
  record_of_answer malformed_ip = empty_record
  record_of_answer address_not_found = empty_record
  record_of_answer no_answer = empty_record
  record_of_answer (found r) = r

  -- The call of .city: on an empty GeoRecord it calls None, which no handler catches.
  unfoldable pub ask_reader : String → Result GeoReader → Result (GeoRecord F)
  ask_reader ip (ok reader) = ok (record_of_answer (m.city ip))
  ask_reader ip (ok record_instead) = raise type_error
  ask_reader ip (raise e) = raise e

  unfoldable pub get_ip_geolocation : String → Bool → Result (GeoRecord F) × Bool
  get_ip_geolocation ip loaded =
      let (r, loaded') = get_geo_reader m.opening loaded in (ask_reader ip r, loaded')

  unfoldable pub get_country_geolocation : String → GeoRecord F
  get_country_geolocation country = elim (m.country_by_key_name country) [
    | none ↦ empty_record
    | some l ↦ record {
      city = some unknown_city;
      country = l.alpha2_code;
      latitude = l.latitude;
      longitude = l.longitude;
    }
  ]

  unfoldable pub get_city_geolocation : String → String → GeoRecord F
  get_city_geolocation city country = elim (m.first_city city country) [
    | none ↦ empty_record
    | some l ↦ record {
      city = l.city;
      country = l.country;
      latitude = l.latitude;
      longitude = l.longitude;
    }
  ]
