-- ===== src/Query/Fields.antt =====
-- What holds of every query that a request leads to.
use mlab_ns.Base.{
  String, Bool, true, false, ◌||◌, ◌&&◌, not, Option, none, some, ◌==◌, contains, option_or, opt_eq,
  ◌≡◌, ◌≢◌, ◌⊎◌, inl, inr, refl, sym, ap, subst, arith, eq_iff, if_elim, truthy, text_or_none,
}
use mlab_ns.Base.Errors.{Result, ok, raise, ok-injective}
use mlab_ns.Message.{valid_formats, default_response_format}
use mlab_ns.Runtime.{FloatOps}
use mlab_ns.Maxmind.{GeoRecord, Maxmind}
use mlab_ns.Request.{
  Request, LookupQuery, GeolocationType, user_defined, app_engine, maxmind, unset,
}
use mlab_ns.Geolocation.{
  set_geolocation, choose_source, use_source, finish, set_maxmind_geolocation, store_maxmind,
  maxmind_record, set_appengine_geolocation, float_truthy, get_user_defined_lat_lon,
}
use mlab_ns.Geolocation.Sources.{IsReadable, set_geolocation-total}
use mlab_ns.Policy.{set_policy}
use mlab_ns.Policy.Valid.{IsPolicy, set_policy-IsPolicy}
use mlab_ns.Query.{
  IpAddr, is_valid_ip, response_format_of, tool_address_family_of, ip_address_of, tool_id_of,
  fields_of, settle, initialize_from_http_request,
}

abbrev pub IsFormat : String → Type 0
IsFormat f = contains f valid_formats ≡ true

abbrev pub IsFamily : Option String → Type 0
IsFamily f = (f ≡ none) ⊎ ((f ≡ some "ipv4") ⊎ (f ≡ some "ipv6"))

-- The address of the request, or another well-formed one that the user gives.
abbrev pub IsAddress : IpAddr → String → String × Bool → Type 0
IsAddress a remote ip =
    ((ip.1 ≡ false) × (ip.0 ≡ remote))
    ⊎ ((ip.1 ≡ true) × (is_valid_ip a ip.0 ≡ true) × (ip.0 ≢ remote))

response_format_of-IsFormat : (r : Request) → IsFormat (response_format_of r)
unfolding response_format_of
response_format_of-IsFormat r =
    if_elim IsFormat (contains (option_or default_response_format (r.get "format")) valid_formats) _
      _ (λ e. e) (λ _. refl)

opt_eq-some : (o : Option String) (s : String) → opt_eq o s ≡ true → o ≡ some s
opt_eq-some none s h = cc
opt_eq-some (some t) s h = ap some ((eq_iff t s).0 h)

tool_address_family_of-IsFamily : (r : Request) → IsFamily (tool_address_family_of r)
unfolding tool_address_family_of
tool_address_family_of-IsFamily r = ground (
  arith,
  opt_eq-some (r.get "address_family") "ipv4",
  opt_eq-some (r.get "address_family") "ipv6",
)

ip_address_of-IsAddress : (a : IpAddr) (r : Request) → IsAddress a r.remote_addr (ip_address_of a r)
unfolding ip_address_of
ip_address_of-IsAddress a r =
    let asked = option_or "" (r.get "ip") in
    if_elim (IsAddress a r.remote_addr) (is_valid_ip a asked && not (asked == r.remote_addr)) _ _
      (λ e. inr (refl, ground (arith, e), ground (arith, e, eq_iff asked r.remote_addr)))
      (λ _. inl (refl, refl))

module _ {F : Type 0} where
  -- The fields that the geolocation leaves alone.
  abbrev SameFields : LookupQuery F → LookupQuery F → Type 0
  SameFields p q =
      (p.tool_id ≡ q.tool_id)
      × (p.path ≡ q.path)
      × (p.response_format ≡ q.response_format)
      × (p.tool_address_family ≡ q.tool_address_family)
      × (p.ip_address ≡ q.ip_address)
      × (p.ip_is_explicit ≡ q.ip_is_explicit)

  abbrev SameIfOk : LookupQuery F → Result (LookupQuery F) → Type 0
  SameIfOk p (ok q) = SameFields p q
  SameIfOk p (raise e) = Unit

  abbrev Alike : LookupQuery F → Result (LookupQuery F) × Bool → Type 0
  Alike p r = SameIfOk p r.0

  same_fields : (q : LookupQuery F) → SameFields q q
  same_fields q = (refl, refl, refl, refl, refl, refl)

  use_source-SameFields : (p q : LookupQuery F) → SameFields p q → SameFields p (use_source q)
  unfolding use_source
  use_source-SameFields p q h = by_type q.geolocation_type
    where
      by_type :
          (t : GeolocationType)
          → SameFields p (elim t [
            | user_defined ↦ record q {
              location = record q.given { country = text_or_none q.given.country };
            }
            | maxmind ↦ record q { location = q.mm }
            | app_engine ↦ record q { location = q.gae }
            | unset ↦ q
          ])
      by_type user_defined = h
      by_type maxmind = h
      by_type app_engine = h
      by_type unset = h

  finish-Alike :
      (p : LookupQuery F) (r : Result (LookupQuery F) × Bool) → Alike p r → Alike p (finish r)
  finish-Alike p (ok q, loaded) h = use_source-SameFields p q h
  finish-Alike p (raise e, loaded) h = tt

  module _ (fl : FloatOps F) (m : Maxmind F) where
    set_maxmind_geolocation-Alike :
        (ip country city : Option String) (p q : LookupQuery F) (loaded : Bool)
        → SameFields p q
        → Alike p (set_maxmind_geolocation m ip country city q loaded)
    unfolding set_maxmind_geolocation
    set_maxmind_geolocation-Alike ip country city p q loaded h =
        stored (maxmind_record m ip country city loaded).0
      where
        stored : (g : Result (GeoRecord F)) → SameIfOk p (store_maxmind m q g)
        stored (ok g) = h
        stored (raise e) = tt

    choose_source-Alike :
        (given : Option (F × F)) (p q : LookupQuery F) (loaded : Bool)
        → SameFields p q
        → Alike p (choose_source fl m given q loaded)
    unfolding choose_source
    choose_source-Alike (some (lat, lon)) p q loaded h = h
    choose_source-Alike none p q loaded h =
        if_elim (Alike p) (q.ip_is_explicit || truthy q.given.country) _ _
          (λ _. set_maxmind_geolocation-Alike _ _ _ p _ loaded h)
          (λ _.
            if_elim (Alike p) (float_truthy fl q.gae.latitude && float_truthy fl q.gae.longitude) _
              _ (λ _. h) (λ _. set_maxmind_geolocation-Alike _ _ _ p _ loaded h))

    set_geolocation-Alike :
        (r : Request) (q : LookupQuery F) (loaded : Bool)
        → Alike q (set_geolocation fl m r q loaded)
    unfolding set_geolocation set_appengine_geolocation
    set_geolocation-Alike r q loaded =
        finish-Alike q _
          (choose_source-Alike (get_user_defined_lat_lon fl r) q _ loaded (same_fields q))

  -- A query as the resolvers and the response handlers expect it.
  pub record IsQuery (a : IpAddr) (r : Request) (q : LookupQuery F) : Type 0 where
    pub policy : IsPolicy q.policy
    pub format : IsFormat q.response_format
    pub family : IsFamily q.tool_address_family
    pub address : IsAddress a r.remote_addr (q.ip_address, q.ip_is_explicit)
    pub tool : q.tool_id ≡ tool_id_of r.path
    pub path : q.path ≡ r.path
    pub response : q.response_format ≡ response_format_of r
    pub metro : q.metro ≡ r.get "metro"

  settle-IsQuery :
      (fl : FloatOps F) (a : IpAddr) (r : Request) (s : Result (LookupQuery F) × Bool)
      (q : LookupQuery F)
      → Alike (fields_of a r) s
      → (settle fl r s).0 ≡ ok q
      → IsQuery a r q
  unfolding settle fields_of set_policy
  settle-IsQuery fl a r (raise e, loaded) q h k = absurd (cc)
  settle-IsQuery fl a r (ok p, loaded) q h k =
      let (tool, path, format, family, ip, explicit) = h in
      subst (IsQuery a r) (ok-injective k) (record {
        policy = set_policy-IsPolicy fl (record p { metro = r.get "metro" }) (r.get "policy");
        format = subst IsFormat format (response_format_of-IsFormat r);
        family = subst IsFamily family (tool_address_family_of-IsFamily r);
        address =
            subst (λ i. IsAddress a r.remote_addr (i, p.ip_is_explicit)) ip
              (subst (λ x. IsAddress a r.remote_addr ((ip_address_of a r).0, x)) explicit
                (ip_address_of-IsAddress a r));
        tool = sym tool;
        path = sym path;
        response = sym format;
        metro = refl;
      })

  -- Every query that a request leads to has one of the six policies, one of the five response
  -- formats, an address family that is IPv4, IPv6 or none, the tool that the path names first, the
  -- metro of the request, and as address that of the request or, marked as explicit, a well-formed
  -- other one that the user gives.
  pub initialize_from_http_request-IsQuery :
      (fl : FloatOps F) (m : Maxmind F) (a : IpAddr) (r : Request) (loaded : Bool)
      (q : LookupQuery F)
      → (initialize_from_http_request fl m a r loaded).0 ≡ ok q
      → IsQuery a r q
  unfolding initialize_from_http_request
  initialize_from_http_request-IsQuery fl m a r loaded q e =
      settle-IsQuery fl a r (set_geolocation fl m r (fields_of a r) loaded) q
        (set_geolocation-Alike fl m r (fields_of a r) loaded) e

  settle-total :
      (fl : FloatOps F) (r : Request) (s : Result (LookupQuery F) × Bool) (p : LookupQuery F)
      → s.0 ≡ ok p
      → (q : LookupQuery F) × ((settle fl r s).0 ≡ ok q)
  unfolding settle
  settle-total fl r (ok q, loaded) p e = (_, refl)
  settle-total fl r (raise x, loaded) p e = absurd (cc)

  -- Where the database of MaxMind is in memory or can be opened, every request leads to a query.
  pub initialize_from_http_request-total :
      (fl : FloatOps F) (m : Maxmind F) (a : IpAddr) (r : Request) (loaded : Bool)
      → IsReadable fl m loaded
      → (q : LookupQuery F) × ((initialize_from_http_request fl m a r loaded).0 ≡ ok q)
  unfolding initialize_from_http_request
  initialize_from_http_request-total fl m a r loaded h =
      let (p, e) = set_geolocation-total fl m r (fields_of a r) loaded h in settle-total fl r _ p e
