-- ===== src/LocationLog/Ends.antt =====
-- The log of the location raises no exception where MaxMind can be read.
use mlab_ns.Base.{
  Bool, true, ◌&&◌, ◌||◌, Option, none, some, List, [], ◌∷◌, ◌==◌, ◌≡◌, refl, sym, subst, ◌∙◌,
  arith, if_elim, truthy, is_some, eq_iff,
}
use mlab_ns.Base.Errors.{Result, ok, raise, ◌>>=◌}
use mlab_ns.Distance.{distance}
use mlab_ns.Runtime.{FloatOps}
use mlab_ns.Maxmind.{GeoRecord, Maxmind}
use mlab_ns.Model.{SliverTool}
use mlab_ns.Request.{
  Request, LookupQuery, GeolocationType, unset, app_engine, maxmind, user_defined,
}
use mlab_ns.Maxmind.{get_ip_geolocation, ask_reader, record_of_answer}
use mlab_ns.Geolocation.{
  set_maxmind_geolocation, store_maxmind, maxmind_record, choose_source, use_source, finish,
  float_truthy, set_geolocation,
}
use mlab_ns.Geolocation.Sources.{IsReadable, get_geo_reader-reader}
use mlab_ns.LocationLog.{difference_to, difference_of, is_app_engine, of_first, log_location}

-- A position that App Engine gave has both coordinates.
abbrev pub HasPosition : {F : Type 0} → LookupQuery F → Type 0
HasPosition q =
    q.geolocation_type ≡ app_engine
    → (is_some q.gae.latitude ≡ true) × (is_some q.gae.longitude ≡ true)

abbrev Ends : {A : Type 0} → Result A → Type 0
Ends {A} r = (a : A) × (r ≡ ok a)

is_app_engine_iff : (t : GeolocationType) → is_app_engine t ≡ true → t ≡ app_engine
is_app_engine_iff app_engine e = refl
is_app_engine_iff unset e = absurd (cc)
is_app_engine_iff maxmind e = absurd (cc)
is_app_engine_iff user_defined e = absurd (cc)

module _ {F : Type 0} (fl : FloatOps F) where
  -- The distance of App Engine's position and MaxMind's, where both are known, can be computed.
  abbrev pub CanCompare : LookupQuery F → Type 0
  CanCompare q =
      (lat1 lon1 lat2 lon2 : F)
      → q.gae.latitude ≡ some lat1
      → q.gae.longitude ≡ some lon1
      → q.mm.latitude ≡ some lat2
      → q.mm.longitude ≡ some lon2
      → Ends (distance fl lat1 lon1 lat2 lon2)

  difference_of-Ends :
      (q : LookupQuery F)
      → (is_some q.gae.latitude ≡ true) × (is_some q.gae.longitude ≡ true)
      → CanCompare q
      → Ends (difference_of fl (ok q))
  difference_of-Ends q (lat, lon) near =
      by_position q.gae.latitude q.gae.longitude lat lon q.mm.latitude q.mm.longitude near
    where
      Near : (a b c d : Option F) → Type 0
      Near a b c d =
          (lat1 lon1 lat2 lon2 : F)
          → a ≡ some lat1
          → b ≡ some lon1
          → c ≡ some lat2
          → d ≡ some lon2
          → Ends (distance fl lat1 lon1 lat2 lon2)

      measured : (r : Result F) → Ends r → Ends (r >>= λ x. ok (some x))
      measured r (x, e) = (some x, rw e refl)

      by_position :
          (a b : Option F)
          → is_some a ≡ true
          → is_some b ≡ true
          → (c d : Option F) → Near a b c d
          → Ends (difference_to fl a b c d)
      by_position a b h k none d near = (none, refl)
      by_position a b h k (some x) none near = (none, refl)
      by_position none b h k (some x) (some y) near = absurd (cc)
      by_position (some z) none h k (some x) (some y) near = absurd (cc)
      by_position (some z) (some w) h k (some x) (some y) near =
          measured (distance fl z w x y) (near z w x y refl refl refl refl)

  module _ (m : Maxmind F) where
    -- The query with what MaxMind says of its address.
    abbrev pub with_maxmind : LookupQuery F → LookupQuery F
    with_maxmind q = record q { mm = record_of_answer m (m.city q.ip_address) }

    -- Where the database of MaxMind is in memory or can be opened, the distance that is logged for
    -- ndt_ssl can be computed, and a position that App Engine gave
    -- has both coordinates, nothing that log_location does raises an exception.
    pub log_location-total :
        (q : LookupQuery F) (loaded : Bool) (ts : List (SliverTool F))
        → IsReadable fl m loaded
        → HasPosition q
        → (q.tool_id ≡ "ndt_ssl" → CanCompare (with_maxmind q))
        → (o : Option F) × (log_location fl m q loaded ts ≡ ok o)
    unfolding log_location set_maxmind_geolocation maxmind_record get_ip_geolocation ask_reader
    log_location-total q loaded [] h k near =
        if_elim (λ (r : Result (Option F)). Ends r) (q.tool_id == "ndt_ssl") (ok none) (ok none)
          (λ _. (none, refl)) (λ _. (none, refl))
    log_location-total q loaded (t ∷ ts) h k near =
        if_elim (λ (r : Result (Option F)). Ends r) (q.tool_id == "ndt_ssl")
          (of_first fl m q loaded (t ∷ ts)) (ok none)
          (λ ssl.
            if_elim (λ (r : Result (Option F)). Ends r) (is_app_engine q.geolocation_type) _
              (ok none)
              (λ e. rw (get_geo_reader-reader fl m m.opening loaded h) (
                difference_of-Ends (with_maxmind q) (k (is_app_engine_iff q.geolocation_type e))
                  (near ((eq_iff q.tool_id "ndt_ssl").0 ssl))))
              (λ _. (none, refl)))
          (λ _. (none, refl))

    abbrev GivesPosition : Result (LookupQuery F) → Type 0
    GivesPosition (raise e) = Unit
    GivesPosition (ok q) = HasPosition q

    store_maxmind-GivesPosition :
        (q : LookupQuery F) (r : Result (GeoRecord F))
        → HasPosition q
        → GivesPosition (store_maxmind m q r)
    store_maxmind-GivesPosition q (raise e) h = tt
    store_maxmind-GivesPosition q (ok g) h = h

    float_truthy-some : (o : Option F) → float_truthy fl o ≡ true → is_some o ≡ true
    float_truthy-some none e = cc
    float_truthy-some (some x) e = refl

    choose_source-GivesPosition :
        (given : Option (F × F)) (q : LookupQuery F) (loaded : Bool)
        → GivesPosition (choose_source fl m given q loaded).0
    unfolding choose_source set_maxmind_geolocation
    choose_source-GivesPosition (some (lat, lon)) q loaded = λ e. absurd (cc)
    choose_source-GivesPosition none q loaded =
        if_elim (λ (r : Result (LookupQuery F) × Bool). GivesPosition r.0)
          (q.ip_is_explicit || truthy q.given.country) _ _
          (λ _.
            store_maxmind-GivesPosition (record q { geolocation_type = maxmind }) _
              (λ e. absurd (cc)))
          (λ _.
            if_elim (λ (r : Result (LookupQuery F) × Bool). GivesPosition r.0)
              (float_truthy fl q.gae.latitude && float_truthy fl q.gae.longitude) _ _
              (λ both _. (
                float_truthy-some q.gae.latitude (ground (arith, both)),
                float_truthy-some q.gae.longitude (ground (arith, both)),
              ))
              (λ _.
                store_maxmind-GivesPosition (record q { geolocation_type = maxmind }) _
                  (λ e. absurd (cc))))

    use_source-HasPosition : (q : LookupQuery F) → HasPosition q → HasPosition (use_source q)
    unfolding use_source
    use_source-HasPosition q h =
        let (type, gae) = kept q.geolocation_type refl in
        subst
          (λ (g : GeoRecord F).
            (use_source q).geolocation_type ≡ app_engine
            → (is_some g.latitude ≡ true) × (is_some g.longitude ≡ true))
          (sym gae) (λ e. h (sym type ∙ e))
      where
        kept :
            (t : GeolocationType)
            → q.geolocation_type ≡ t
            → ((use_source q).geolocation_type ≡ q.geolocation_type) × ((use_source q).gae ≡ q.gae)
        kept unset e = rw (e, use_source) (e, refl)
        kept app_engine e = rw (e, use_source) (e, refl)
        kept maxmind e = rw (e, use_source) (e, refl)
        kept user_defined e = rw (e, use_source) (e, refl)

    finish-GivesPosition :
        (r : Result (LookupQuery F) × Bool) → GivesPosition r.0 → GivesPosition (finish r).0
    finish-GivesPosition (ok q, loaded) h = use_source-HasPosition q h
    finish-GivesPosition (raise e, loaded) h = tt

    -- After _set_geolocation, a position that App Engine gave has both coordinates, whatever the request.
    pub set_geolocation-HasPosition :
        (r : Request) (q q' : LookupQuery F) (loaded : Bool)
        → (set_geolocation fl m r q loaded).0 ≡ ok q'
        → HasPosition q'
    unfolding set_geolocation
    set_geolocation-HasPosition r q q' loaded e =
        subst GivesPosition e (finish-GivesPosition _ (choose_source-GivesPosition _ _ loaded))
