-- ===== src/Application/Runs.antt =====
-- What requests to the application do to the store.
use mlab_ns.Base.{Option, none, some, List, [], ◌∷◌}
use mlab_ns.Status.{Write}
use mlab_ns.Request.{Request}
use mlab_ns.Store.{Store, Platform}
use mlab_ns.System.{Reach}
use mlab_ns.System.Handlers.{at_rest, get-Reach}
use mlab_ns.System.Registered.{get-Reached}
use mlab_ns.Application.{
  Handler, admin, check_status, check_site, count_request_signatures, reload_maxmind_db, privacy,
  docs, warmup, lookup, routes, Webapp, Setting, handle, handle_found, serve, serve_all,
}

module _ {F G : Type 0} (p : Platform F G) (pending : List (Write F)) where
  -- What a request meets, on the platform.
  abbrev pub OnPlatform : Setting F G → Setting F G
  OnPlatform x = record x { platform = p }

  abbrev Reached : Store F → Type 0
  Reached s = Reach p (at_rest p pending s)

  handle-Reached :
      (x : Setting F G) (h : Handler) (r : Request) (s : Store F)
      → Reached s
      → Reached (handle (OnPlatform x) h r s).1
  unfolding handle
  handle-Reached x admin r s reached = reached
  handle-Reached x check_status r s reached =
      get-Reach p x.monitoring x.course pending x.config_cache s reached
  handle-Reached x check_site r s reached =
      get-Reached p pending p.fl x.now x.stores x.addresses x.locations s reached
  handle-Reached x count_request_signatures r s reached = reached
  handle-Reached x reload_maxmind_db r s reached = reached
  handle-Reached x privacy r s reached = reached
  handle-Reached x docs r s reached = reached
  handle-Reached x warmup r s reached = reached
  handle-Reached x lookup r s reached = reached

  handle_found-Reached :
      (x : Setting F G) (o : Option Handler) (r : Request) (s : Store F)
      → Reached s
      → Reached (handle_found (OnPlatform x) o r s).1
  handle_found-Reached x none r s reached = reached
  handle_found-Reached x (some h) r s reached = handle-Reached x h r s reached

  -- GET requests, each in a setting of its own.
  pub on_platform : List (Setting F G × Request) → List (Setting F G × Request)
  on_platform [] = []
  on_platform ((x, r) ∷ rest) = (OnPlatform x, r) ∷ on_platform rest

  -- Any sequence of GET requests to the application, to whichever handlers, whatever the servers that
  -- these ask answer, and however each ends, is a sequence of steps of the system: from a state that
  -- is reached it leads to one that is reached, with the same writes of other handlers under way.
  pub serve_all-Reached :
      (select : Webapp) (requests : List (Setting F G × Request)) (s : Store F)
      → Reach p (at_rest p pending s)
      → Reach p (at_rest p pending (serve_all select (on_platform requests) s))
  unfolding serve_all serve on_platform
  serve_all-Reached select [] s reached = reached
  serve_all-Reached select ((x, r) ∷ rest) s reached =
      serve_all-Reached select rest _ (handle_found-Reached x (select routes r.path) r s reached)
