-- ===== src/System/Answers.antt =====
-- What the lookup handler answers in the states that the system reaches.
use mlab_ns.Base.{String, Bool, ◌≡◌}
use mlab_ns.Base.Errors.{Result, ok}
use mlab_ns.Runtime.{ChanceLaws}
use mlab_ns.Maxmind.{Maxmind}
use mlab_ns.Request.{Request, LookupQuery}
use mlab_ns.Query.{IpAddr, initialize_from_http_request, tool_id_of}
use mlab_ns.ReverseProxy.{ProxyStore, ProxyCache}
use mlab_ns.Lookup.{Response, get}
use mlab_ns.Lookup.Served.{Served, get-Served}
use mlab_ns.Store.{Platform, DatastoreLaws, env_of}
use mlab_ns.System.{State, Reach}
use mlab_ns.System.Lookups.{env_of-EnvLaws, Reach-IsCacheFiled}

module _ {F G : Type 0} (p : Platform F G) (laws : DatastoreLaws p.datastore)
    (chance : ChanceLaws p.fl p.rng) where
  -- In every state that the system reaches, whatever handlers are at work, whichever writes have
  -- failed and whatever memcache has forgotten, an answer of the lookup handler to a request is: no
  -- content; 404 where the path names a tool that is not known; the content of a server that the
  -- request was passed on to; or the response made of tools that have the tool id of the path, are
  -- online on the address family asked for, lie in the metro or country of such a policy, are of
  -- different sites, and are at most 4 with geo_options and 1 with every other policy but all.
  pub Reach-get :
      {s : State F}
      → Reach p s
      → (m : Maxmind F) (a : IpAddr) (send : String → Result Bool) (store : ProxyStore F)
      → (cache : ProxyCache F) (loaded : Bool) (r : Request) (g : G) (answer : Response F)
      → get (env_of p s.store) m a send store cache loaded r g ≡ ok answer
      → (q : LookupQuery F) × ((initialize_from_http_request p.fl m a r loaded).0 ≡ ok q)
        × (q.tool_id ≡ tool_id_of r.path)
        × Served (env_of p s.store) send q answer
  Reach-get {s} reached m a send store cache loaded r g answer e =
      get-Served (env_of p s.store) m (env_of-EnvLaws p laws chance s.store)
        (Reach-IsCacheFiled p laws reached) send a store cache loaded r g answer e
