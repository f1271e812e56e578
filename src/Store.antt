-- ===== src/Store.antt =====
-- The datastore and memcache as the cron handlers of server/mlabns/handlers/update.py change them:
-- the entities by key name, and the namespace memcache_tools. How a query selects from the entities
-- is App Engine's.
pub mod Puts
use mlab_ns.Base.{String, Bool, Option, List, [], ◌∷◌, if◌then◌else◌, All, Memᴰ}
use mlab_ns.Base.Dict.{lookup, insert, values}
use mlab_ns.Runtime.{FloatOps, Chance}
use mlab_ns.Model.{SliverTool, Site, Tool, SliverToolQuery, Answers, Backend}
use mlab_ns.Env.{Env}
use mlab_ns.Status.{Write, put, cache}

pub record Store (F : Type 0) : Type 0 where
  pub slivers : List (String × SliverTool F)
  pub sites : List (String × Site F)
  pub tools : List Tool
  pub tools_cache : List (String × List (SliverTool F))

-- What a query returns of the entities there are.
pub record Datastore (F : Type 0) : Type 0 where
  pub select : List (SliverTool F) → SliverToolQuery → List (SliverTool F)
  pub in_metro : List (Site F) → String → List (Site F)
  pub with_tool_id : List Tool → String → List Tool

-- A query returns the entities that its conditions admit, all of them and no others.
pub record DatastoreLaws {F : Type 0} (ds : Datastore F) : Type 0 where
  pub select_answers :
      (ts : List (SliverTool F)) (q : SliverToolQuery)
      → All (λ t. Memᴰ t ts × Answers q t) (ds.select ts q)
  pub select_all :
      (ts : List (SliverTool F)) (q : SliverToolQuery) (t : SliverTool F)
      → Memᴰ t ts
      → Answers q t
      → Memᴰ t (ds.select ts q)
  pub with_tool_id_all :
      (tools : List Tool) (t : Tool) → Memᴰ t tools → Memᴰ t (ds.with_tool_id tools t.tool_id)

-- What the program runs on, but for the store: floats, the random module, the datastore's queries,
-- and the signatures that memcache has recorded.
pub record Platform (F G : Type 0) : Type 0 where
  pub fl : FloatOps F
  pub rng : Chance G F (SliverTool F)
  pub datastore : Datastore F
  pub cached_requests : String → Option String

module _ {F : Type 0} where
  abbrev pub stored_slivers : Store F → List (SliverTool F)
  stored_slivers s = values s.slivers

  abbrev pub stored_sites : Store F → List (Site F)
  stored_sites s = values s.sites

  abbrev pub backend_of : Datastore F → (String → Option String) → Store F → Backend F
  backend_of ds requests s = record {
    cached_tools = λ id. lookup id s.tools_cache;
    cached_requests = requests;
    query_sliver_tools = λ q. ds.select (stored_slivers s) q;
    sites_in_metro = λ m. ds.in_metro (stored_sites s) m;
    all_tools = s.tools;
    tools_by_id = λ id. ds.with_tool_id s.tools id;
  }

  abbrev pub env_of : {G : Type 0} → Platform F G → Store F → Env F G
  env_of p s = record {
    fl = p.fl;
    rng = p.rng;
    backend = backend_of p.datastore p.cached_requests s;
  }

-- How a write ends: which entities of a put reach the datastore, where db.put may raise
-- TransactionFailedError, and whether memcache.set succeeds. Neither is an error to the handlers.
pub record Outcome (F : Type 0) : Type 0 where
  pub stores : SliverTool F → Bool
  pub caches : Bool

module _ {F : Type 0} where
  abbrev pub put_tool :
      Bool → SliverTool F → List (String × SliverTool F) → List (String × SliverTool F)
  put_tool stores t d = if stores then insert t.key_name t d else d

  -- db.put of entities, each under its key name.
  unfoldable pub put_tools :
      (SliverTool F → Bool)
      → List (SliverTool F)
      → List (String × SliverTool F)
      → List (String × SliverTool F)
  put_tools stores [] d = d
  put_tools stores (t ∷ ts) d = put_tools stores ts (put_tool (stores t) t d)

  unfoldable pub apply_write : Outcome F → Write F → Store F → Store F
  apply_write o (put ts) s = record s { slivers = put_tools o.stores ts s.slivers }
  apply_write o (cache id ts) s =
      if o.caches then record s { tools_cache = insert id ts s.tools_cache } else s

  -- Writes, one after the other.
  unfoldable pub apply_writes : Outcome F → List (Write F) → Store F → Store F
  apply_writes o [] s = s
  apply_writes o (w ∷ ws) s = apply_writes o ws (apply_write o w s)
