-- ===== src/Lookup/Served.antt =====
-- What the lookup handler answers with.
use mlab_ns.Base.{
  String, Bool, true, false, Option, none, some, List, ◌≡◌, refl, subst, if_elim, if◌then◌else◌,
}
use mlab_ns.Base.Errors.{Result, ok, raise, ◌>>=◌, ok-injective}
use mlab_ns.Base.Text.{no_text}
use mlab_ns.Model.{SliverTool, is_valid_tool}
use mlab_ns.Env.{Env, EnvLaws}
use mlab_ns.Maxmind.{Maxmind}
use mlab_ns.Request.{Request, LookupQuery}
use mlab_ns.Signature.{calculate_client_signature}
use mlab_ns.Fetcher.{find_site_ids_for_metro}
use mlab_ns.Fetcher.Sound.{Fits, IsCacheFiled}
use mlab_ns.Resolver.{new_resolver, answer_query}
use mlab_ns.Resolver.Answers.{Good, criteria, limit, answer_query-Good}
use mlab_ns.Query.{IpAddr, initialize_from_http_request, tool_id_of}
use mlab_ns.Query.Fields.{initialize_from_http_request-IsQuery}
use mlab_ns.ReverseProxy.{ProxyStore, ProxyCache}
use mlab_ns.LocationLog.{log_location}
use mlab_ns.Lookup.{
  Response, no_content, not_found, proxied, wanted, send_response, logged, respond, resolve,
  proxied_or_resolved, lookup_of, get,
}

module _ {F G : Type 0} (env : Env F G) where
  abbrev pub GoodFor : LookupQuery F → List (SliverTool F) → Type 0
  GoodFor q ts =
      Good (Fits (find_site_ids_for_metro env) (criteria (new_resolver q.policy) (wanted q)))
        (limit (new_resolver q.policy)) ts

  -- The answers that a query may get: no content, 404 for a tool that is not known, the content of
  -- another server, or a response made of tools that fit the query.
  pub data Served (send_proxy_response : String → Result Bool) (q : LookupQuery F)
      : Response F → Type 0 where
    no_capacity : Served send_proxy_response q no_content
    unknown_tool :
        is_valid_tool env.backend q.tool_id ≡ false
        → Served send_proxy_response q (not_found q.response_format)
    passed_on :
        (url : String)
        → send_proxy_response url ≡ ok true
        → Served send_proxy_response q (proxied url)
    resolved :
        (ts : List (SliverTool F)) (answer : Response F)
        → GoodFor q ts
        → send_response env q ts ≡ ok answer
        → Served send_proxy_response q answer

  module _ (m : Maxmind F) where
    logged-eq-ok :
        (q : LookupQuery F) (loaded : Bool) (ts : List (SliverTool F)) (sent : Result (Response F))
        (answer : Response F)
        → logged env m q loaded ts sent ≡ ok answer
        → sent ≡ ok answer
    unfolding logged
    logged-eq-ok q loaded ts sent answer e = first_of sent (log_location env.fl m q loaded ts) e
      where
        first_of :
            (r : Result (Response F)) (d : Result (Option F))
            → (r >>= λ x. d >>= λ y. ok x) ≡ ok answer
            → r ≡ ok answer
        first_of (raise x) d e = absurd (cc)
        first_of (ok x) (raise y) e = absurd (cc)
        first_of (ok x) (ok y) e = e

    module _ (laws : EnvLaws env) (filed : IsCacheFiled env.backend)
        (send : String → Result Bool) where
      resolve-Served :
          (q : LookupQuery F) (loaded : Bool) (g : G) (answer : Response F)
          → resolve env m q loaded g ≡ ok answer
          → Served send q answer
      unfolding resolve respond
      resolve-Served q loaded g answer e = answered _ refl e
        where
          by_tool :
              (known : Bool)
              → is_valid_tool env.backend q.tool_id ≡ known
              → Served send q (if known then no_content else not_found q.response_format)
          by_tool true h = no_capacity
          by_tool false h = unknown_tool h

          answered :
              (r : Result (Option (List (SliverTool F))))
              → (answer_query env
                  (new_resolver q.policy)
                  (wanted q)
                  (calculate_client_signature q.ip_address q.user_agent q.path_qs)
                  g).0
                ≡ r
              → respond env m q loaded r ≡ ok answer
              → Served send q answer
          answered (raise x) same h = absurd (cc)
          answered (ok none) same h =
              subst (Served send q) (ok-injective h)
                (by_tool (is_valid_tool env.backend q.tool_id) refl)
          answered (ok (some ts)) same h =
              resolved ts answer
                (answer_query-Good env laws filed (new_resolver q.policy) (wanted q) _ g ts same)
                (logged-eq-ok q loaded ts (send_response env q ts) answer h)

      proxied_or_resolved-Served :
          (q : LookupQuery F) (loaded : Bool) (url : Result String) (g : G) (answer : Response F)
          → proxied_or_resolved env m send q loaded url g ≡ ok answer
          → Served send q answer
      unfolding proxied_or_resolved
      proxied_or_resolved-Served q loaded (raise x) g answer e = absurd (cc)
      proxied_or_resolved-Served q loaded (ok url) g answer e =
          if_elim (λ (r : Result (Response F)). r ≡ ok answer → Served send q answer) (no_text url)
            _ _ (λ _ same. resolve-Served q loaded g answer same) (λ _. sent (send url) refl) e
        where
          sent :
              (r : Result Bool)
              → send url ≡ r
              → (r >>= λ success. if success then ok (proxied url) else resolve env m q loaded g)
                ≡ ok answer
              → Served send q answer
          sent (raise x) same h = absurd (cc)
          sent (ok true) same h = subst (Served send q) (ok-injective h) (passed_on url same)
          sent (ok false) same h = resolve-Served q loaded g answer h

      lookup_of-Served :
          (store : ProxyStore F) (cache : ProxyCache F) (s : Result (LookupQuery F) × Bool) (g : G)
          (answer : Response F)
          → lookup_of env m send store cache s g ≡ ok answer
          → (q : LookupQuery F) × (s.0 ≡ ok q) × Served send q answer
      unfolding lookup_of
      lookup_of-Served store cache (raise x, loaded) g answer e = absurd (cc)
      lookup_of-Served store cache (ok q, loaded) g answer e =
          (q, refl, proxied_or_resolved-Served q loaded _ _ answer e)

      -- Whatever the handler answers to a request, and whatever is drawn: it is no content; 404 where
      -- the path names a tool that is not known; the content of a server that the request was passed
      -- on to; or the response made of tools that have the tool id of the path, are online on the
      -- address family asked for, lie in the metro or country of such a policy, are of different
      -- sites, and are at most 4 with geo_options and 1 with every other policy but all. The
      -- condition is that memcache holds under an id slivers of that tool only.
      pub get-Served :
          (a : IpAddr) (store : ProxyStore F) (cache : ProxyCache F) (loaded : Bool) (r : Request)
          (g : G) (answer : Response F)
          → get env m a send store cache loaded r g ≡ ok answer
          → (q : LookupQuery F) × ((initialize_from_http_request env.fl m a r loaded).0 ≡ ok q)
            × (q.tool_id ≡ tool_id_of r.path)
            × Served send q answer
      unfolding get
      get-Served a store cache loaded r g answer e =
          let (q, same, served) = lookup_of-Served store cache _ g answer e in
          (q, same, (initialize_from_http_request-IsQuery env.fl m a r loaded q same).tool, served)
