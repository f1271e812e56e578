-- ===== src/ReverseProxy/Cached.antt =====
-- The cache of the reverse proxy: it is filed by name, and a later request gets the same answer.
use mlab_ns.Base.{
  String, Bool, true, Option, none, some, List, [], ◌∷◌, ◌==◌, ◌≡◌, refl, sym, eq_iff, if_elim, All,
  ℕ, is_some, not, ◌&&◌,
}
use mlab_ns.Base.Text.{strip}
use mlab_ns.Base.Dict.{lookup, All-insert, All-lookup}
use mlab_ns.Base.Errors.{Result, ok}
use mlab_ns.Runtime.{FloatOps}
use mlab_ns.Request.{LookupQuery}
use mlab_ns.ReverseProxy.{
  ReverseProxyProbability, ProxyCache, ProxyStore, default_with_name, refresh, or_default,
  record_of, held, reverse_proxy_of, get_reverse_proxy, proxy_url, try_reverse_proxy_url,
}

module _ {F : Type 0} where
  abbrev pub IsFiled : ProxyCache F → Type 0
  IsFiled cache = All (λ e. e.1.0.name ≡ e.0) cache

  abbrev IsNamed : String → Option (ReverseProxyProbability F) → Type 0
  IsNamed experiment none = Unit
  IsNamed experiment (some p) = p.name ≡ experiment

  module _ (accepts : ReverseProxyProbability F → Bool) (experiment : String) where
    refresh-IsFiled :
        (ps : List (ReverseProxyProbability F)) (found : Option (ReverseProxyProbability F))
        (cache : ProxyCache F)
        → IsNamed experiment found
        → IsFiled cache
        → IsNamed experiment (refresh accepts experiment ps found cache).0
          × IsFiled (refresh accepts experiment ps found cache).1
    unfolding refresh
    refresh-IsFiled [] found cache n h = (n, h)
    refresh-IsFiled (p ∷ ps) found cache n h =
        refresh-IsFiled ps _ _
          (if_elim (IsNamed experiment) (experiment == p.name) (some p) found
            (λ e. sym ((eq_iff experiment p.name).0 e)) (λ _. n))
          (if_elim IsFiled (accepts p) _ cache
            (λ _. All-insert (λ e. e.1.0.name ≡ e.0) p.name (p, 1800) cache refl h) (λ _. h))

  module _ (fl : FloatOps F) (store : ProxyStore F) (experiment : String) where
    reverse_proxy_of-IsFiled :
        (cache : ProxyCache F) (cached : Option (ReverseProxyProbability F))
        → IsNamed experiment cached
        → IsFiled cache
        → ((reverse_proxy_of fl store experiment cache cached).0.name ≡ experiment)
          × IsFiled (reverse_proxy_of fl store experiment cache cached).1
    unfolding reverse_proxy_of default_with_name
    reverse_proxy_of-IsFiled cache (some p) n h = (n, h)
    reverse_proxy_of-IsFiled cache none n h =
        let (named, filed) =
          refresh-IsFiled store.accepts experiment store.probabilities none cache tt h in
        (default_named _ named, filed)
      where
        default_named :
            (o : Option (ReverseProxyProbability F))
            → IsNamed experiment o
            → (or_default fl experiment o).name ≡ experiment
        default_named none n = refl
        default_named (some p) n = n

    -- The record that is returned has the name of the experiment, and the cache stays filed by name,
    -- whichever writes to it succeed.
    pub get_reverse_proxy-IsFiled :
        (cache : ProxyCache F)
        → IsFiled cache
        → ((get_reverse_proxy fl store experiment cache).0.name ≡ experiment)
          × IsFiled (get_reverse_proxy fl store experiment cache).1
    unfolding get_reverse_proxy
    get_reverse_proxy-IsFiled cache h =
        reverse_proxy_of-IsFiled cache (held experiment cache)
          (named (lookup experiment cache) refl) h
      where
        named :
            (o : Option (ReverseProxyProbability F × ℕ))
            → lookup experiment cache ≡ o
            → IsNamed experiment (record_of o)
        named none e = tt
        named (some p) e = All-lookup (λ e. e.1.0.name ≡ e.0) experiment p cache h e

    -- A later state of memcache, in which records may have been forgotten, as after 1800 seconds.
    abbrev pub IsLater : ProxyCache F → ProxyCache F → Type 0
    IsLater before after =
        (name : String) (p : ReverseProxyProbability F)
        → held name after ≡ some p
        → held name before ≡ some p

module _ {F : Type 0} (fl : FloatOps F) (store : ProxyStore F) where
  -- For a client whose position is known, whether a lookup is passed on is decided without an
  -- exception, whatever is drawn.
  pub try_reverse_proxy_url-total :
      {G : Type 0} (uniform : G → F × G) (q : LookupQuery F) (cache : ProxyCache F) (g : G)
      → is_some q.location.latitude ≡ true
      → is_some q.location.longitude ≡ true
      → (url : String) × ((try_reverse_proxy_url fl uniform store q cache g).0 ≡ ok url)
  unfolding try_reverse_proxy_url proxy_url
  try_reverse_proxy_url-total {G} uniform q cache g hlat hlon =
      let rdp = (get_reverse_proxy fl store (strip b'/' q.path) cache).0 in
      if_elim (λ (r : Result String × ProxyCache F × G). (url : String) × (r.0 ≡ ok url))
        (not (q.path == "/ndt_ssl") && not (q.path == "/ndt7")) _ _ (λ _. ("", refl))
        (λ _.
          if_elim (λ (r : Result String). (url : String) × (r ≡ ok url))
            (fl.less rdp.probability (uniform g).0) (ok "")
            (proxy_url fl rdp.url q.path_qs q.location.latitude q.location.longitude)
            (λ _. ("", refl))
            (λ _. known rdp.url q.location.latitude q.location.longitude hlat hlon))
    where
      known :
          (base : String) (lat lon : Option F)
          → is_some lat ≡ true
          → is_some lon ≡ true
          → (url : String) × (proxy_url fl base q.path_qs lat lon ≡ ok url)
      known base (some lat) (some lon) h k = (_, refl)
      known base none lon h k = absurd (cc)
      known base (some lat) none h k = absurd (cc)
