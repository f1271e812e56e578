-- ===== src/Geolocation/Loaded.antt =====
-- The database of MaxMind stays readable while a request is located.
use mlab_ns.Base.{String, Bool, ◌||◌, ◌&&◌, Option, none, some, inl, refl, truthy, if_elim}
use mlab_ns.Base.Errors.{Result, ok, raise}
use mlab_ns.Runtime.{FloatOps}
use mlab_ns.Maxmind.{Maxmind, get_ip_geolocation}
use mlab_ns.Request.{Request, LookupQuery}
use mlab_ns.Geolocation.{
  get_user_defined_lat_lon, maxmind_record, set_maxmind_geolocation, choose_source, finish,
  float_truthy, set_geolocation,
}
use mlab_ns.Geolocation.Sources.{IsReadable, get_geo_reader-reader}

module _ {F : Type 0} (fl : FloatOps F) (m : Maxmind F) where
  abbrev Readable : Result (LookupQuery F) × Bool → Type 0
  Readable r = IsReadable fl m r.1

  set_maxmind_geolocation-Readable :
      (ip country city : Option String) (q : LookupQuery F) (loaded : Bool)
      → IsReadable fl m loaded
      → Readable (set_maxmind_geolocation m ip country city q loaded)
  unfolding set_maxmind_geolocation maxmind_record get_ip_geolocation
  set_maxmind_geolocation-Readable (some ip) country city q loaded h =
      rw (get_geo_reader-reader fl m m.opening loaded h) (inl refl)
  set_maxmind_geolocation-Readable none none city q loaded h = h
  set_maxmind_geolocation-Readable none (some country) none q loaded h = h
  set_maxmind_geolocation-Readable none (some country) (some city) q loaded h = h

  choose_source-Readable :
      (given : Option (F × F)) (q : LookupQuery F) (loaded : Bool)
      → IsReadable fl m loaded
      → Readable (choose_source fl m given q loaded)
  unfolding choose_source
  choose_source-Readable (some (lat, lon)) q loaded h = h
  choose_source-Readable none q loaded h =
      if_elim Readable (q.ip_is_explicit || truthy q.given.country) _ _
        (λ _. set_maxmind_geolocation-Readable _ _ _ _ loaded h)
        (λ _.
          if_elim Readable (float_truthy fl q.gae.latitude && float_truthy fl q.gae.longitude) _ _
            (λ _. h) (λ _. set_maxmind_geolocation-Readable _ _ _ _ loaded h))

  finish-Readable : (r : Result (LookupQuery F) × Bool) → Readable r → Readable (finish r)
  finish-Readable (ok q, loaded) h = h
  finish-Readable (raise e, loaded) h = h

  -- Where the database is in memory or can be opened before a request is located, it is so after.
  pub set_geolocation-Readable :
      (r : Request) (q : LookupQuery F) (loaded : Bool)
      → IsReadable fl m loaded
      → IsReadable fl m (set_geolocation fl m r q loaded).1
  unfolding set_geolocation
  set_geolocation-Readable r q loaded h =
      finish-Readable _ (choose_source-Readable (get_user_defined_lat_lon fl r) _ loaded h)
