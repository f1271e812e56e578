-- ===== src/Lookup/Ends.antt =====
-- How a request to the lookup handler ends.
use mlab_ns.Base.{
  String, Bool, true, false, if◌then◌else◌, Option, none, some, ◌==◌, not, ◌&&◌, ◌≡◌, ◌≢◌, ◌⊎◌, inl,
  inr, refl, sym, subst, ap, contains, option_or, arith, eq_iff, ◌∙◌, if_elim, is_some,
}
use mlab_ns.Base.Errors.{Result, ok, raise, ok-injective, ◌>>=◌}
use mlab_ns.Base.Text.{no_text}
use mlab_ns.Model.{get_tool_from_tool_id}
use mlab_ns.Message.{valid_formats, default_response_format}
use mlab_ns.Env.{Env, EnvLaws}
use mlab_ns.Runtime.{FloatOps}
use mlab_ns.Maxmind.{Maxmind}
use mlab_ns.Request.{Request, LookupQuery}
use mlab_ns.Policy.{set_policy}
use mlab_ns.Geolocation.Sources.{IsReadable}
use mlab_ns.Geolocation.Loaded.{set_geolocation-Readable}
use mlab_ns.LocationLog.Ends.{HasPosition, set_geolocation-HasPosition}
use mlab_ns.Query.{
  IpAddr, initialize_from_http_request, settle, fields_of, tool_id_of, response_format_of,
}
use mlab_ns.Query.Fields.{initialize_from_http_request-IsQuery, initialize_from_http_request-total}
use mlab_ns.ReverseProxy.{ProxyStore, ProxyCache, try_reverse_proxy_url}
use mlab_ns.ReverseProxy.Cached.{try_reverse_proxy_url-total}
use mlab_ns.Fetcher.Stored.{IsStoredWith, fetch-All}
use mlab_ns.Fetcher.Sound.{IsCacheFiled}
use mlab_ns.Resolver.Total.{IsAnswerable}
use mlab_ns.Lookup.{Response, proxied, proxied_or_resolved, resolve, lookup_of, get}
use mlab_ns.Lookup.Outcome.{IsOk, CanLog, resolve-total}

module _ {F : Type 0} where
  -- The position of a query is known.
  abbrev pub IsLocated : LookupQuery F → Type 0
  IsLocated q = (is_some q.location.latitude ≡ true) × (is_some q.location.longitude ≡ true)

  settle-HasPosition :
      (fl : FloatOps F) (r : Request) (s : Result (LookupQuery F) × Bool) (q : LookupQuery F)
      → ((p : LookupQuery F) → s.0 ≡ ok p → HasPosition p)
      → (settle fl r s).0 ≡ ok q
      → HasPosition q
  unfolding settle set_policy
  settle-HasPosition fl r (raise x, loaded) q h e = absurd (cc)
  settle-HasPosition fl r (ok p, loaded) q h e = subst HasPosition (ok-injective e) (h p refl)

  settle-Readable :
      (fl : FloatOps F) (m : Maxmind F) (r : Request) (s : Result (LookupQuery F) × Bool)
      → IsReadable fl m s.1
      → IsReadable fl m (settle fl r s).1
  unfolding settle
  settle-Readable fl m r (raise x, loaded) h = h
  settle-Readable fl m r (ok p, loaded) h = h

  module _ (fl : FloatOps F) (m : Maxmind F) (a : IpAddr) (r : Request) (loaded : Bool) where
    initialize_from_http_request-HasPosition :
        (q : LookupQuery F)
        → (initialize_from_http_request fl m a r loaded).0 ≡ ok q
        → HasPosition q
    unfolding initialize_from_http_request
    initialize_from_http_request-HasPosition q e =
        settle-HasPosition fl r _ q
          (λ p. set_geolocation-HasPosition fl m r (fields_of a r) p loaded) e

    initialize_from_http_request-Readable :
        IsReadable fl m loaded → IsReadable fl m (initialize_from_http_request fl m a r loaded).1
    unfolding initialize_from_http_request
    initialize_from_http_request-Readable h =
        settle-Readable fl m r _ (set_geolocation-Readable fl m r (fields_of a r) loaded h)

-- The format of a response is json or the one that is asked for.
response_format_of-ne :
    (r : Request) (f : String) → r.get "format" ≢ some f → f ≢ "json" → response_format_of r ≢ f
unfolding response_format_of
response_format_of-ne r f h k =
    let asked = option_or default_response_format (r.get "format") in
    if_elim (λ (s : String). s ≢ f) (contains asked valid_formats) asked default_response_format
      (λ _. asked-ne (r.get "format") refl) (λ _ e. k (sym e))
  where
    asked-ne : (o : Option String) → r.get "format" ≡ o → option_or default_response_format o ≢ f
    asked-ne none e = λ d. k (sym d)
    asked-ne (some s) e = λ d. h (e ∙ ap some d)

redirect-ne-json : ◌≢◌ {A = String} "redirect" "json"
redirect-ne-json = ground (arith, eq_iff "redirect" "json")

map-ne-json : ◌≢◌ {A = String} "map" "json"
map-ne-json = ground (arith, eq_iff "map" "json")

module _ {F G : Type 0} (env : Env F G) (laws : EnvLaws env) (m : Maxmind F) where
  module _ (a : IpAddr) (send : String → Result Bool) (store : ProxyStore F)
      (cache : ProxyCache F) where
    proxied_or_resolved-IsOk :
        (caught : (url : String) → IsOk (send url)) (q : LookupQuery F) (loaded : Bool)
        (url : String) (g : G)
        → IsOk (resolve env m q loaded g)
        → IsOk (proxied_or_resolved env m send q loaded (ok url) g)
    unfolding proxied_or_resolved
    proxied_or_resolved-IsOk caught q loaded url g h =
        if_elim IsOk (no_text url) _ _ (λ _. h) (λ _. sent (send url) (caught url))
      where
        sent :
            (r : Result Bool)
            → IsOk r
            → IsOk (r >>= λ success. if success then ok (proxied url) else resolve env m q loaded g)
        sent (raise x) (b, e) = absurd (cc)
        sent (ok true) e = (_, refl)
        sent (ok false) e = h

    try_reverse_proxy_url-IsOk :
        (q : LookupQuery F) (g : G)
        → (not (q.path == "/ndt_ssl") && not (q.path == "/ndt7") ≡ true) ⊎ IsLocated q
        → IsOk (try_reverse_proxy_url env.fl env.rng.uniform store q cache g).0
    unfolding try_reverse_proxy_url
    try_reverse_proxy_url-IsOk q g (inl e) = rw e ("", refl)
    try_reverse_proxy_url-IsOk q g (inr (lat, lon)) =
        try_reverse_proxy_url-total env.fl store env.rng.uniform q cache g lat lon

    lookup_of-IsOk :
        (caught : (url : String) → IsOk (send url)) (q : LookupQuery F) (loaded : Bool) (g : G)
        → (not (q.path == "/ndt_ssl") && not (q.path == "/ndt7") ≡ true) ⊎ IsLocated q
        → ((g : G) → IsOk (resolve env m q loaded g))
        → IsOk (lookup_of env m send store cache (ok q, loaded) g)
    unfolding lookup_of
    lookup_of-IsOk caught q loaded g located h =
        let (url, e) = try_reverse_proxy_url-IsOk q g located in
        rw e (proxied_or_resolved-IsOk caught q loaded url _ (h _))

    lookup_of-IsOk_of :
        (s : Result (LookupQuery F) × Bool) (g : G)
        → IsOk s.0
        → ((q : LookupQuery F) → s.0 ≡ ok q → IsOk (lookup_of env m send store cache (ok q, s.1) g))
        → IsOk (lookup_of env m send store cache s g)
    lookup_of-IsOk_of (ok q, loaded) g h k = k q refl
    lookup_of-IsOk_of (raise x, loaded) g (q, e) k = absurd (cc)

    -- What a query needs of the floats: the distances that are computed for it are no ValueError,
    -- that of the client from each stored sliver, if the client's position is known, and that which is
    -- logged. Each stored sliver has a site id.
    pub record IsMeasurable (q : LookupQuery F) : Type 0 where
      pub stored :
          IsStoredWith
            (IsAnswerable env laws.chance q.location.latitude q.location.longitude)
            env.backend
      pub logged : CanLog env laws m q

    -- A request for a tool that the datastore knows is answered without an exception in every format
    -- but redirect and map, with a response or with no content, whatever is drawn and whether or not
    -- the request is passed on to another server. The conditions are that MaxMind can be read, that
    -- the fetch of that server raises no exception that is not caught, that the client's position is
    -- known if the path is /ndt_ssl or /ndt7, that the distances can be computed, that the slivers
    -- stored have site ids, and that memcache holds under an id slivers of that tool only.
    pub get-IsOk :
        (filed : IsCacheFiled env.backend) (caught : (url : String) → IsOk (send url)) (r : Request)
        (loaded : Bool) (g : G)
        → ((q : LookupQuery F)
            → (initialize_from_http_request env.fl m a r loaded).0 ≡ ok q
            → IsMeasurable q)
        → IsReadable env.fl m loaded
        → is_some (get_tool_from_tool_id env.backend (tool_id_of r.path)) ≡ true
        → r.get "format" ≢ some "redirect"
        → r.get "format" ≢ some "map"
        → (not (r.path == "/ndt_ssl") && not (r.path == "/ndt7") ≡ true)
          ⊎ ((q : LookupQuery F)
              → (initialize_from_http_request env.fl m a r loaded).0 ≡ ok q
              → IsLocated q)
        → (answer : Response F) × (get env m a send store cache loaded r g ≡ ok answer)
    unfolding get
    get-IsOk filed caught r loaded g measurable readable known no_redirect no_map located =
        lookup_of-IsOk_of (initialize_from_http_request env.fl m a r loaded) g
          (initialize_from_http_request-total env.fl m a r loaded readable)
          (λ q e.
            let is = initialize_from_http_request-IsQuery env.fl m a r loaded q e in
            lookup_of-IsOk caught q _ g (placed q e is.path located) (λ g'.
              resolve-total env laws m filed q _ g'
                (initialize_from_http_request-Readable env.fl m a r loaded readable)
                (initialize_from_http_request-HasPosition env.fl m a r loaded q e)
                (measurable q e).logged
                (fetch-All env laws
                  (IsAnswerable env laws.chance q.location.latitude q.location.longitude)
                  (measurable q e).stored _ g')
                (ap (λ (id : String). is_some (get_tool_from_tool_id env.backend id)) is.tool
                  ∙ known)
                (λ f.
                  response_format_of-ne r "redirect" no_redirect redirect-ne-json
                    (sym is.response ∙ f))
                (λ f. response_format_of-ne r "map" no_map map-ne-json (sym is.response ∙ f))))
      where
        placed :
            (q : LookupQuery F)
            → (initialize_from_http_request env.fl m a r loaded).0 ≡ ok q
            → q.path ≡ r.path
            → (not (r.path == "/ndt_ssl") && not (r.path == "/ndt7") ≡ true)
              ⊎ ((q : LookupQuery F)
                  → (initialize_from_http_request env.fl m a r loaded).0 ≡ ok q
                  → IsLocated q)
            → (not (q.path == "/ndt_ssl") && not (q.path == "/ndt7") ≡ true) ⊎ IsLocated q
        placed q e same (inl h) =
            inl (ap (λ (p : String). not (p == "/ndt_ssl") && not (p == "/ndt7")) same ∙ h)
        placed q e same (inr h) = inr (h q e)
