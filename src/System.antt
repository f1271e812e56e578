-- ===== src/System.antt =====
-- The system at work: handlers that read the store and queue their writes, and writes that reach the
-- store one by one, in any order, between those of other handlers. StatusUpdateHandler,
-- IPUpdateHandler and SiteRegistrationHandler of server/mlabns/handlers/update.py write.
pub mod Sound
pub mod Lookups
pub mod Handlers
pub mod Registered
pub mod Placed
pub mod Maps
pub mod Answers
pub mod Ends
pub mod Stored
use mlab_ns.Base.{ℕ, String, Bool, Option, none, some, List, [], ◌∷◌, ◌++◌, map, ◌≡◌}
use mlab_ns.Base.Dict.{lookup, insert}
use mlab_ns.Model.{SliverTool, Site, Tool}
use mlab_ns.Status.{Write, put, cache, SliceStatus, update_sliver_tools_status}
use mlab_ns.IpUpdate.{Row, Production, Slivers, update_rows}
use mlab_ns.Store.{Store, Platform, Outcome, stored_slivers, stored_sites, env_of, apply_write}

-- The store, and the writes that have not reached it.
pub record State (F : Type 0) : Type 0 where
  pub store : Store F
  pub pending : List (Write F)

-- The values of the argument family: '' and '_ipv6'.
pub data Family : Type 0 where
  ipv4 ipv6 : Family

abbrev pub family_text : Family → String
family_text ipv4 = ""
family_text ipv6 = "_ipv6"

-- The writes of IPUpdateHandler.update: each updated sliver is put on its own.
abbrev pub address_writes : {F : Type 0} → ℕ → Production → List Row → Store F → List (Write F)
address_writes now production rows s =
    map (λ t. put (t ∷ []))
      (update_rows now production (stored_sites s) s.tools rows
        (record { known = stored_slivers s; puts = [] })).puts

module _ {F G : Type 0} (p : Platform F G) where
  pub data Step (s : State F) : State F → Type 0 where
    -- update_sliver_tools_status, up to its writes
    status :
        (family : Family) (tool_id : String) (slice_status : SliceStatus) (now : SliverTool F → ℕ)
        (g : G)
        → Step s (record s {
          pending =
              s.pending
              ++ update_sliver_tools_status
                  (env_of p s.store)
                  now
                  slice_status
                  tool_id
                  (family_text family)
                  g;
        })
    -- IPUpdateHandler.update, up to its writes
    addresses :
        (now : ℕ) (production : Production) (rows : List Row)
        → Step s (record s { pending = s.pending ++ address_writes now production rows s.store })
    -- a write ends, well or not
    write :
        (before after : List (Write F)) (w : Write F) (o : Outcome F)
        → s.pending ≡ before ++ w ∷ after
        → Step s (record { store = apply_write o w s.store; pending = before ++ after })
    -- update_site puts a site
    site :
        (x : Site F)
        → Step s (record s { store = record s.store { sites = insert x.site_id x s.store.sites } })
    -- the tools are loaded by the operators
    load : (tools : List Tool) → Step s (record s { store = record s.store { tools = tools } })
    -- memcache forgets the entries that it does not keep
    evict :
        (kept : List (String × List (SliverTool F)))
        → ((id : String) (ts : List (SliverTool F))
            → lookup id kept ≡ some ts
            → lookup id s.store.tools_cache ≡ some ts)
        → Step s (record s { store = record s.store { tools_cache = kept } })

  -- From the empty store.
  abbrev pub start : State F
  start = record {
    store = record { slivers = []; sites = []; tools = []; tools_cache = [] };
    pending = [];
  }

  pub data Reach : State F → Type 0 where
    here : Reach start
    next : {s t : State F} → Reach s → Step s t → Reach t
