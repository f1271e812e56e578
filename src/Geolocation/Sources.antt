-- ===== src/Geolocation/Sources.antt =====
-- Which source the client's position comes from.
use mathlib.Core.Option.{some-injective}
use mlab_ns.Base.{
  String, Bool, true, false, ◌||◌, ◌&&◌, Option, none, some, ◌≡◌, ◌⊎◌, inl, inr, refl, subst, arith,
  truthy, text_or_none, if_elim, if◌then◌else◌,
}
use mlab_ns.Base.Errors.{Result, ok, raise}
use mlab_ns.Runtime.{FloatOps}
use mlab_ns.Maxmind.{
  Maxmind, Opening, opened, invalid_database, io_error, file_not_found, get_geo_reader, ask_reader,
  get_ip_geolocation, reader,
}
use mlab_ns.Request.{Request, LookupQuery}
use mlab_ns.Geolocation.{
  in_range, both_floats, parse_lat_lon, get_user_defined_lat_lon, maxmind_record,
  set_maxmind_geolocation, choose_source, finish, float_truthy, set_geolocation,
}

module _ {F : Type 0} (fl : FloatOps F) where
  abbrev Legal : F → F → Type 0
  Legal lat lon =
      (fl.less (fl.ratio 90 1) (fl.abs lat) ≡ false)
      × (fl.less (fl.ratio 180 1) (fl.abs lon) ≡ false)

  both_floats-Legal :
      (a b : Option F) (lat lon : F) → both_floats fl a b ≡ some (lat, lon) → Legal lat lon
  both_floats-Legal none b lat lon e = absurd (cc)
  both_floats-Legal (some x) none lat lon e = absurd (cc)
  both_floats-Legal (some x) (some y) lat lon e = legal (in_range fl x y) refl e
    where
      legal :
          (b : Bool)
          → in_range fl x y ≡ b
          → if◌then◌else◌ {A = Option (F × F)} b (some (x, y)) none ≡ some (lat, lon)
          → Legal lat lon
      legal true h e =
          subst (λ (p : F × F). Legal p.0 p.1) (some-injective _ _ e)
            (ground (arith, h), ground (arith, h))
      legal false h e = absurd (cc)

  parse_lat_lon-Legal :
      (a b : Option String) (lat lon : F) → parse_lat_lon fl a b ≡ some (lat, lon) → Legal lat lon
  parse_lat_lon-Legal none b lat lon e = absurd (cc)
  parse_lat_lon-Legal (some s) none lat lon e = absurd (cc)
  parse_lat_lon-Legal (some s) (some t) lat lon e =
      both_floats-Legal (fl.float s) (fl.float t) lat lon e

  -- Coordinates that a request gives are used only where neither is found to be beyond 90 or 180
  -- degrees.
  pub get_user_defined_lat_lon-Legal :
      (r : Request) (lat lon : F)
      → get_user_defined_lat_lon fl r ≡ some (lat, lon)
      → (fl.less (fl.ratio 90 1) (fl.abs lat) ≡ false)
        × (fl.less (fl.ratio 180 1) (fl.abs lon) ≡ false)
  unfolding get_user_defined_lat_lon
  get_user_defined_lat_lon-Legal r lat lon e =
      parse_lat_lon-Legal (text_or_none (r.get "lat")) (text_or_none (r.get "lon")) lat lon e

module _ {F : Type 0} (fl : FloatOps F) (m : Maxmind F) where
  -- An address can be looked up: the database is in memory, or can be opened.
  abbrev pub IsReadable : Bool → Type 0
  IsReadable loaded = (loaded ≡ true) ⊎ (m.opening ≡ opened)

  pub get_geo_reader-reader :
      (opening : Opening) (loaded : Bool)
      → (loaded ≡ true) ⊎ (opening ≡ opened)
      → get_geo_reader opening loaded ≡ (ok reader, true)
  unfolding get_geo_reader
  get_geo_reader-reader opening true h = refl
  get_geo_reader-reader opened false h = refl
  get_geo_reader-reader invalid_database false (inl e) = absurd (cc)
  get_geo_reader-reader invalid_database false (inr e) = absurd (cc)
  get_geo_reader-reader io_error false (inl e) = absurd (cc)
  get_geo_reader-reader io_error false (inr e) = absurd (cc)
  get_geo_reader-reader file_not_found false (inl e) = absurd (cc)
  get_geo_reader-reader file_not_found false (inr e) = absurd (cc)

  abbrev IsOk : {A : Type 0} → Result A → Type 0
  IsOk {A} r = (a : A) × (r ≡ ok a)

  set_maxmind_geolocation-IsOk :
      (ip country city : Option String) (q : LookupQuery F) (loaded : Bool)
      → IsReadable loaded
      → IsOk (set_maxmind_geolocation m ip country city q loaded).0
  unfolding set_maxmind_geolocation maxmind_record get_ip_geolocation ask_reader
  set_maxmind_geolocation-IsOk (some ip) country city q loaded h =
      rw (get_geo_reader-reader m.opening loaded h) (_, refl)
  set_maxmind_geolocation-IsOk none none city q loaded h = (_, refl)
  set_maxmind_geolocation-IsOk none (some country) none q loaded h = (_, refl)
  set_maxmind_geolocation-IsOk none (some country) (some city) q loaded h = (_, refl)

  choose_source-IsOk :
      (given : Option (F × F)) (q : LookupQuery F) (loaded : Bool)
      → IsReadable loaded
      → IsOk (choose_source fl m given q loaded).0
  unfolding choose_source
  choose_source-IsOk (some (lat, lon)) q loaded h = (_, refl)
  choose_source-IsOk none q loaded h =
      if_elim (λ (r : Result (LookupQuery F) × Bool). IsOk r.0)
        (q.ip_is_explicit || truthy q.given.country) _ _
        (λ _. set_maxmind_geolocation-IsOk _ _ _ _ loaded h)
        (λ _.
          if_elim (λ (r : Result (LookupQuery F) × Bool). IsOk r.0)
            (float_truthy fl q.gae.latitude && float_truthy fl q.gae.longitude) _ _ (λ _. (_, refl))
            (λ _. set_maxmind_geolocation-IsOk _ _ _ _ loaded h))

  finish-IsOk : (r : Result (LookupQuery F) × Bool) → IsOk r.0 → IsOk (finish r).0
  finish-IsOk (ok q, loaded) h = (_, refl)
  finish-IsOk (raise e, loaded) (q, h) = absurd (cc)

  -- Where the database of MaxMind is in memory or can be opened, no request makes the geolocation
  -- raise an exception.
  pub set_geolocation-total :
      (r : Request) (q : LookupQuery F) (loaded : Bool)
      → IsReadable loaded
      → (q' : LookupQuery F) × ((set_geolocation fl m r q loaded).0 ≡ ok q')
  unfolding set_geolocation
  set_geolocation-total r q loaded h = finish-IsOk _ (choose_source-IsOk _ _ loaded h)
