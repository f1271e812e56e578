-- ===== src/ReverseProxy.antt =====
-- server/mlabns/util/reverse_proxy.py: whether a lookup is passed on to another server, and where.
pub mod Cached
use Prim.Native.String.{◌++◌}
use mlab_ns.Base.{
  ℕ, String, Char, code, Bool, true, false, ◌||◌, ◌&&◌, not, Option, none, some, List, [], ◌∷◌,
  ◌==◌, if◌then◌else◌, nat_eq,
}
use mlab_ns.Base.Text.{strip}
use mlab_ns.Base.Dict.{lookup, insert}
use mlab_ns.Base.Errors.{Result, ok, raise, type_error}
use mlab_ns.Runtime.{FloatOps}
use mlab_ns.Request.{LookupQuery}

-- model.ReverseProxyProbability
pub record ReverseProxyProbability (F : Type 0) : Type 0 where
  pub name : String
  pub probability : F
  pub url : String

-- The namespace memcache_reverse_proxy of memcache, by name: each record with the seconds after
-- which it is forgotten.
abbrev pub ProxyCache : Type 0 → Type 0
ProxyCache F = List (String × (ReverseProxyProbability F × ℕ))

-- model.ReverseProxyProbability.all().run(), and which memcache.set succeed.
pub record ProxyStore (F : Type 0) : Type 0 where
  pub probabilities : List (ReverseProxyProbability F)
  pub accepts : ReverseProxyProbability F → Bool

-- default_reverse_proxy.with_name(name)
unfoldable pub default_with_name : {F : Type 0} → FloatOps F → String → ReverseProxyProbability F
default_with_name fl name = record {
  name = name;
  probability = fl.ratio 0 1;
  url = "https://mlab-ns.appspot.com";
}

-- '?' in s
abbrev has_query : String → Bool
has_query String.[] = false
has_query (String.◌∷◌ c s) = nat_eq (code c) b'?' || has_query s

module _ {F : Type 0} where
  abbrev set_if : Bool → ReverseProxyProbability F → ProxyCache F → ProxyCache F
  set_if accepted p cache = if accepted then insert p.name (p, 1800) cache else cache

  -- The loop over all probabilities: the last one with the name, and the cache with all of them.
  unfoldable pub refresh :
      (ReverseProxyProbability F → Bool)
      → String
      → List (ReverseProxyProbability F)
      → Option (ReverseProxyProbability F)
      → ProxyCache F
      → Option (ReverseProxyProbability F) × ProxyCache F
  refresh accepts experiment [] found cache = (found, cache)
  refresh accepts experiment (p ∷ ps) found cache =
      refresh accepts experiment ps (if experiment == p.name then some p else found)
        (set_if (accepts p) p cache)

  abbrev pub or_default :
      FloatOps F → String → Option (ReverseProxyProbability F) → ReverseProxyProbability F
  or_default fl experiment none = default_with_name fl experiment
  or_default fl experiment (some p) = p

  abbrev pub record_of : Option (ReverseProxyProbability F × ℕ) → Option (ReverseProxyProbability F)
  record_of none = none
  record_of (some (p, seconds)) = some p

  -- memcache.get
  abbrev pub held : String → ProxyCache F → Option (ReverseProxyProbability F)
  held experiment cache = record_of (lookup experiment cache)

  -- get_reverse_proxy, from what memcache holds for the experiment.
  unfoldable pub reverse_proxy_of :
      FloatOps F
      → ProxyStore F
      → String
      → ProxyCache F
      → Option (ReverseProxyProbability F)
      → ReverseProxyProbability F × ProxyCache F
  reverse_proxy_of fl store experiment cache (some p) = (p, cache)
  reverse_proxy_of fl store experiment cache none =
      let (found, cache') = refresh store.accepts experiment store.probabilities none cache in
      (or_default fl experiment found, cache')

  -- get_reverse_proxy, with the cache that it leaves behind.
  unfoldable pub get_reverse_proxy :
      FloatOps F → ProxyStore F → String → ProxyCache F → ReverseProxyProbability F × ProxyCache F
  get_reverse_proxy fl store experiment cache =
      reverse_proxy_of fl store experiment cache (held experiment cache)

  -- The URL with the client's position, which has to be known.
  unfoldable pub proxy_url : FloatOps F → String → String → Option F → Option F → Result String
  proxy_url fl url path_qs (some lat) (some lon) = ok (
      url
      ++ (path_qs
          ++ ((if has_query path_qs then "&" else "?")
              ++ ("lat=" ++ (fl.show lat ++ ("&lon=" ++ fl.show lon))))))
  proxy_url fl url path_qs _ _ = raise type_error

  -- try_reverse_proxy_url, with random.uniform(0, 1) as draw: the URL, the cache, and the generator.
  unfoldable pub try_reverse_proxy_url :
      {G : Type 0}
      → FloatOps F
      → (G → F × G)
      → ProxyStore F
      → LookupQuery F
      → ProxyCache F
      → G
      → Result String × ProxyCache F × G
  try_reverse_proxy_url fl uniform store q cache g =
      if not (q.path == "/ndt_ssl") && not (q.path == "/ndt7")
      then (ok "", cache, g)
      else let (rdp, cache') = get_reverse_proxy fl store (strip b'/' q.path) cache in
        let (u, g') = uniform g in
        (
          (if fl.less rdp.probability u
              then ok ""
              else proxy_url fl rdp.url q.path_qs q.location.latitude q.location.longitude),
          cache',
          g',
        )
