-- ===== src/System/Ends.antt =====
-- How a request to the lookup handler ends in the states that the system reaches.
use mlab_ns.Base.{some, ◌≡◌, ◌≢◌, All}
use mlab_ns.Env.{EnvLaws}
use mlab_ns.Lookup.Outcome.{CanLog}
use mlab_ns.Runtime.{ChanceLaws}
use mlab_ns.Maxmind.{Maxmind}
use mlab_ns.Request.{Request, LookupQuery}
use mlab_ns.Fetcher.Stored.{IsStoredWith}
use mlab_ns.Resolver.Total.{CanMeasure}
use mlab_ns.Store.{Platform, DatastoreLaws, env_of}
use mlab_ns.System.{State}
use mlab_ns.System.Lookups.{env_of-EnvLaws}

-- No site is stored under an empty id.
abbrev pub HasIds : {F : Type 0} → State F → Type 0
HasIds s = All (λ e. e.0 ≢ "") s.store.sites

module _ {F G : Type 0} (p : Platform F G) (laws : DatastoreLaws p.datastore)
    (chance : ChanceLaws p.fl p.rng) where
  abbrev laws_of : (s : State F) → EnvLaws (env_of p s.store)
  laws_of s = env_of-EnvLaws p laws chance s.store

  -- The distances that are computed for a query in the state are no ValueError: that of the client
  -- from each stored sliver, if the client's position is known, and that which is logged for ndt_ssl.
  pub record IsMeasured (m : Maxmind F) (s : State F) (q : LookupQuery F) : Type 0 where
    pub stored :
        (lat lon : F)
        → q.location.latitude ≡ some lat
        → q.location.longitude ≡ some lon
        → IsStoredWith (CanMeasure (env_of p s.store) chance lat lon) (env_of p s.store).backend
    pub logged : CanLog (env_of p s.store) (laws_of s) m q
