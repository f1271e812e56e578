-- ===== src/Application.antt =====
-- server/main.py: the handlers of the application, which request goes to which, and the small
-- handlers of server/mlabns/handlers/update.py, docs.py and privacy.py.
pub mod Runs
pub mod Routes
use mlab_ns.Base.{
  ℕ, suc, ◌+◌, String, Bool, Option, none, some, List, [], ◌∷◌, if◌then◌else◌, nat_eq, code,
  is_some,
}
use mlab_ns.Base.Regex.{Regex, one, many, seq, at_end}
use mlab_ns.Base.Errors.{PyError, Result, ok, raise, type_error}
use mlab_ns.Runtime.{FloatOps}
use mlab_ns.Model.{Site}
use mlab_ns.Maxmind.{Maxmind, Opening, get_geo_reader}
use mlab_ns.Request.{Request}
use mlab_ns.Query.{IpAddr}
use mlab_ns.IpUpdate.{Production}
use mlab_ns.ReverseProxy.{ProxyStore, ProxyCache}
use mlab_ns.Page.{Answer, Reply}
use mlab_ns.Store.{Store, Platform, env_of}
use mlab_ns.StatusHandler.{Monitoring, ConfigCache, Course}
use mlab_ns.AddressHandler.{Addresses}
use mlab_ns.Registration.{SiteInfo}
use mlab_ns.Lookup.{Response}
use mlab_ns.Admin.{Rendering}
use mlab_ns.Admin.Pages.{Page, Listing, get_page}

-- The classes of handlers that main.py names.
pub data Handler : Type 0 where
  admin check_status check_site count_request_signatures reload_maxmind_db : Handler
  privacy docs warmup lookup : Handler

infixr 40 ◌▸◌
abbrev ◌▸◌ : Regex → Regex → Regex
r ▸ s = seq r s

-- A text, and then the rest of a pattern.
abbrev pub literal : String → Regex → Regex
literal String.[] r = r
literal (String.◌∷◌ c s) r = one (λ d. nat_eq d (code c)) ▸ literal s r

-- .*
abbrev pub any : Regex
any = many (λ c. if nat_eq c 10 then Bool.false else Bool.true)

-- The routes, each a pattern for the whole path.
unfoldable pub routes : List (Regex × Handler)
routes =
    (literal "/" at_end, admin)
    ∷ (literal "/admin" (any ▸ at_end), admin)
    ∷ (literal "/cron/check_status" at_end, check_status)
    ∷ (literal "/cron/check_site" at_end, check_site)
    ∷ (literal "/cron/count_request_signatures" at_end, count_request_signatures)
    ∷ (literal "/reload_maxminddb" at_end, reload_maxmind_db)
    ∷ (literal "/privacy" at_end, privacy)
    ∷ (literal "/docs" at_end, docs)
    ∷ (literal "/_ah/warmup" at_end, warmup)
    ∷ (literal "/" (any ▸ at_end), lookup)
    ∷ []

-- How webapp's WSGIApplication picks the handler of a path from the routes.
abbrev pub Webapp : Type 0
Webapp = List (Regex × Handler) → String → Option Handler

-- PRIVACY_DOC_URL and DESIGN_DOC_URL
abbrev pub privacy_doc_url : String
privacy_doc_url = "https://github.com/m-lab/mlab-ns/blob/master/MLAB-NS_PRIVACY_POLICY.md"

abbrev pub design_doc_url : String
design_doc_url = "https://github.com/m-lab/mlab-ns/blob/master/DESIGN_DOC.md"

-- What a request meets: what others answer, what the caches hold, the clock and the dice.
pub record Setting (F G : Type 0) : Type 0 where
  pub platform : Platform F G
  pub monitoring : Monitoring
  pub course : Course F G
  pub config_cache : ConfigCache
  pub now : ℕ
  pub stores : Site F → Bool
  pub addresses : Addresses F
  pub locations : Answer (Option (List (SiteInfo F)))
  pub listing : Listing F
  pub production : Production
  pub rendering : Rendering F
  pub maxmind : Maxmind F
  pub loaded : Bool
  -- gcs.stat and gcs.open of the MaxMind database
  pub database_file : Result {0} Unit
  pub ip_addr : IpAddr
  pub send_proxy_response : String → Result Bool
  pub proxy_store : ProxyStore F
  pub proxy_cache : ProxyCache F
  -- the names of the keys of model.Requests
  pub request_keys : List String
  pub draw : G

-- What a handler sends, or logs where it sends nothing.
pub data Sent (F : Type 0) : Type 0 where
  page : Page F → Sent F
  reply : Reply → Sent F
  answer : Response F → Sent F
  redirected : String → Sent F
  counts : ℕ → ℕ → Sent F
  nothing : Sent F

-- CountRequestSignaturesHandler.get: how many keys memcache has, and how many it has not.
unfoldable pub count_signatures : (String → Option String) → List String → ℕ × ℕ
count_signatures cached [] = (0, 0)
count_signatures cached (key ∷ keys) =
    let (found, missing) = count_signatures cached keys in
    if is_some (cached key) then (suc found, missing) else (found, suc missing)

-- ReloadMaxmindDb.get; the Boolean tells whether the reader is in memory afterwards.
unfoldable pub reload : Opening → Result {0} Unit → Bool → Result {0} Unit × Bool
reload opening (raise e) loaded = (raise e, loaded)
reload opening (ok u) loaded = reread (get_geo_reader opening loaded)
  where
    reread : {A : Type 0} → Result A × Bool → Result {0} Unit × Bool
    reread (raise e, loaded') = (raise e, loaded')
    reread (ok r, loaded') = (ok tt, loaded')

abbrev pub sent_as : {A F : Type 0} → (A → Sent F) → Result A → Result (Sent F)
sent_as f (raise e) = raise e
sent_as f (ok a) = ok (f a)

module _ {F G : Type 0} (x : Setting F G) where
  -- The method get of each handler, with the store that it leaves behind.
  unfoldable pub handle : Handler → Request → Store F → Result (Sent F) × Store F
  handle admin r s =
      (sent_as page (get_page x.listing x.production x.rendering x.platform.datastore s r.path), s)
  handle check_status r s =
      let (replied, s', cache') =
        mlab_ns.StatusHandler.get x.platform x.monitoring x.course x.config_cache s in
      (sent_as reply replied, s')
  handle check_site r s =
      let (replied, s') =
        mlab_ns.Registration.get x.platform.fl x.now x.stores x.addresses x.locations s in
      (sent_as reply replied, s')
  handle count_request_signatures r s =
      let (found, missing) = count_signatures x.platform.cached_requests x.request_keys in
      (ok (counts found missing), s)
  handle reload_maxmind_db r s =
      (sent_as (λ u. nothing) (reload x.maxmind.opening x.database_file x.loaded).0, s)
  handle privacy r s = (ok (redirected privacy_doc_url), s)
  handle docs r s = (ok (redirected design_doc_url), s)
  -- get_reverse_proxy() is called without its argument.
  handle warmup r s = (raise type_error, s)
  handle lookup r s = (
    sent_as answer (
        mlab_ns.Lookup.get (env_of x.platform s) x.maxmind x.ip_addr x.send_proxy_response
          x.proxy_store x.proxy_cache x.loaded r x.draw),
    s,
  )

  abbrev pub handle_found : Option Handler → Request → Store F → Option (Result (Sent F)) × Store F
  handle_found none r s = (none, s)
  handle_found (some h) r s = let (sent, s') = handle h r s in (some sent, s')

  -- A GET request to the application; none is webapp's own answer to a path without a route.
  unfoldable pub serve : Webapp → Request → Store F → Option (Result (Sent F)) × Store F
  serve select r s = handle_found (select routes r.path) r s

-- The method post, which answers with 404; none where a handler has no such method.
unfoldable pub post : Handler → Option Reply
post admin = some Reply.not_found
post privacy = some Reply.not_found
post docs = some Reply.not_found
post lookup = some Reply.not_found
post _ = none

-- GET requests, one after the other, each in a setting of its own: the store at the end.
unfoldable pub serve_all :
    {F G : Type 0} → Webapp → List (Setting F G × Request) → Store F → Store F
serve_all select [] s = s
serve_all select ((x, r) ∷ rest) s = serve_all select rest (serve x select r s).1
