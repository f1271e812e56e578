-- ===== src/Registration.antt =====
-- SiteRegistrationHandler of server/mlabns/handlers/update.py, and is_production_site of
-- server/mlabns/util/production_check.py: the sites that siteinfo lists.
pub mod Listed
pub mod Ends
use mlab_ns.Base.{
  ℕ, String, Bool, true, false, ◌||◌, not, Option, none, some, List, [], ◌∷◌, map, keep, contains,
  if◌then◌else◌,
}
use mlab_ns.Base.Dict.{insert, values}
use mlab_ns.Base.Errors.{PyError, Result, ok, raise}
use mlab_ns.Runtime.{FloatOps}
use mlab_ns.Model.{Site}
use mlab_ns.IpUpdate.{Production}
use mlab_ns.Page.{Answer, received, http_error, url_error, Reply, not_found, succeeded}
use mlab_ns.Store.{Store, stored_sites}
use mlab_ns.AddressHandler.{Addresses, update}

-- A coordinate in JSON.
pub data Coordinate (F : Type 0) : Type 0 where
  number : F → Coordinate F
  text : String → Coordinate F

-- An entry of siteinfo, with none for a field that it does not have.
pub record SiteInfo (F : Type 0) : Type 0 where
  pub site : Option String
  pub metro : Option (List String)
  pub city : Option String
  pub country : Option String
  pub latitude : Option (Coordinate F)
  pub longitude : Option (Coordinate F)
  pub roundrobin : Option Bool

-- One that has them all.
pub record ValidSite (F : Type 0) : Type 0 where
  pub site : String
  pub metro : List String
  pub city : String
  pub country : String
  pub latitude : Coordinate F
  pub longitude : Coordinate F
  pub roundrobin : Bool

abbrev pub is_production_site : Production → String → Bool
is_production_site p site_name = p.site_matches site_name

-- site_ids.intersection(mlab_site_ids) and site_ids.difference(mlab_site_ids)
abbrev pub intersection : List String → List String → List String
intersection ids others = keep (λ id. contains id others) ids

abbrev pub difference : List String → List String → List String
difference ids others = keep (λ id. not (contains id others)) ids

module _ {F : Type 0} where
  abbrev required_fields :
      Option String
      → Option (List String)
      → Option String
      → Option String
      → Option (Coordinate F)
      → Option (Coordinate F)
      → Option Bool
      → Option (ValidSite F)
  required_fields (some site) (some metro) (some city) (some country) (some latitude)
        (some longitude) (some roundrobin) =
      some (record {
        site = site;
        metro = metro;
        city = city;
        country = country;
        latitude = latitude;
        longitude = longitude;
        roundrobin = roundrobin;
      })
  required_fields _ _ _ _ _ _ _ = none

  abbrev in_production : Production → Option (ValidSite F) → Option (ValidSite F)
  in_production p none = none
  in_production p (some v) = if is_production_site p v.site then some v else none

  -- _is_valid_site, with the fields of a valid site.
  unfoldable pub valid_site : Production → SiteInfo F → Option (ValidSite F)
  valid_site p i =
      in_production p
        (required_fields i.site i.metro i.city i.country i.latitude i.longitude i.roundrobin)

  abbrev pub with_some : Option (ValidSite F) → List (ValidSite F) → List (ValidSite F)
  with_some none vs = vs
  with_some (some v) vs = v ∷ vs

  -- valid_sites_json
  unfoldable pub valid_sites : Production → List (SiteInfo F) → List (ValidSite F)
  valid_sites p [] = []
  valid_sites p (i ∷ is) = with_some (valid_site p i) (valid_sites p is)

module _ {F : Type 0} (fl : FloatOps F) (now : ℕ) (stores : Site F → Bool) where
  -- float(coordinate), with none for ValueError
  abbrev pub float_of : Coordinate F → Option F
  float_of (number x) = some x
  float_of (text s) = fl.float s

  abbrev with_coordinates : ValidSite F → Option F → Option F → Option (Site F)
  with_coordinates v (some latitude) (some longitude) = some (record {
    site_id = v.site;
    city = v.city;
    country = v.country;
    latitude = latitude;
    longitude = longitude;
    metro = v.metro;
    registration_timestamp = now;
    roundrobin = v.roundrobin;
  })
  with_coordinates v _ _ = none

  -- The entity that update_site makes.
  unfoldable pub site_of : ValidSite F → Option (Site F)
  site_of v = with_coordinates v (float_of v.latitude) (float_of v.longitude)

  -- site.put(), which may raise TransactionFailedError
  abbrev pub put_site : Option (Site F) → List (String × Site F) → Bool × List (String × Site F)
  put_site none sites = (false, sites)
  put_site (some x) sites = if stores x then (true, insert x.site_id x sites) else (false, sites)

  -- update_site
  unfoldable pub update_site : ValidSite F → List (String × Site F) → Bool × List (String × Site F)
  update_site v sites = put_site (site_of v) sites

  -- The second loop of get; what update_site returns is logged only.
  unfoldable pub register :
      List String
      → List String
      → List (ValidSite F)
      → List (String × Site F)
      → List (String × Site F)
  register new_site_ids unchanged_site_ids [] sites = sites
  register new_site_ids unchanged_site_ids (v ∷ vs) sites =
      register new_site_ids unchanged_site_ids vs (
        if contains v.site new_site_ids || contains v.site unchanged_site_ids
        then (update_site v sites).1
        else sites)

  -- The sites after both loops of get.
  unfoldable pub register_sites :
      Production → List (SiteInfo F) → List (String × Site F) → List (String × Site F)
  register_sites p infos sites =
      let valid = valid_sites p infos in
      let site_ids = map (λ (v : ValidSite F). v.site) valid in
      let mlab_site_ids = map (λ (x : Site F). x.site_id) (values sites) in
      register (difference site_ids mlab_site_ids) (intersection site_ids mlab_site_ids) valid sites

  abbrev pub register_listed :
      Addresses F → Answer (Option (List (SiteInfo F))) → Store F → Result Reply × Store F
  register_listed a http_error s = (ok not_found, s)
  register_listed a url_error s = (raise PyError.url_error, s)
  register_listed a (received none) s = (ok not_found, s)
  register_listed a (received (some infos)) s =
      succeeded (update a (record s { sites = register_sites a.production infos s.sites }))

  -- SiteRegistrationHandler.get, from what siteinfo answers, with none for JSON that is not valid.
  unfoldable pub get :
      Addresses F → Answer (Option (List (SiteInfo F))) → Store F → Result Reply × Store F
  get a locations s = register_listed a locations s
