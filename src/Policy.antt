-- ===== src/Policy.antt =====
-- _set_policy of server/mlabns/util/lookup_query.py: the policy by which a query is resolved.
pub mod Valid
use mlab_ns.Base.{
  String, Bool, true, false, ◌||◌, ◌&&◌, not, Option, none, some, opt_eq, truthy, is_some,
  if◌then◌else◌,
}
use mlab_ns.Message.{
  policy_geo, policy_geo_options, policy_metro, policy_random, policy_country, policy_all,
}
use mlab_ns.Runtime.{FloatOps}
use mlab_ns.Request.{LookupQuery}
use mlab_ns.Geolocation.{float_truthy}

module _ {F : Type 0} where
  -- latitude is not None and longitude is not None
  abbrev pub is_located : LookupQuery F → Bool
  is_located q = is_some q.location.latitude && is_some q.location.longitude

  unfoldable pub get_default_policy : LookupQuery F → String
  get_default_policy q = if is_located q then policy_geo else policy_random

  -- The tests on the policy asked for, where the user has given no place.
  unfoldable pub policy_without_place : LookupQuery F → Option String → Option String
  policy_without_place q policy =
      if opt_eq policy policy_geo
      then (if is_located q then policy else some policy_random)
      else if opt_eq policy policy_country
      then (if truthy q.given.country then policy else some (get_default_policy q))
      else if opt_eq policy policy_metro
      then (if is_some q.metro then policy else some (get_default_policy q))
      else if opt_eq policy policy_random
      then policy
      else if opt_eq policy policy_geo_options
      then policy
      else if opt_eq policy policy_all
      then policy
      else some (get_default_policy q)

  -- The user's coordinates count only where both are true, so not at 0.0.
  abbrev pub has_coordinates : FloatOps F → LookupQuery F → Bool
  has_coordinates fl q = float_truthy fl q.given.latitude && float_truthy fl q.given.longitude

  -- The policy that results from the one asked for.
  unfoldable pub resolved_policy : FloatOps F → LookupQuery F → Option String → Option String
  resolved_policy fl q policy =
      if has_coordinates fl q || q.ip_is_explicit
      then (if not (opt_eq policy policy_geo) && not (opt_eq policy policy_geo_options)
          then some policy_geo
          else policy)
      else if truthy q.given.country
      then (if not (opt_eq policy policy_country) && not (opt_eq policy policy_geo)
          then some policy_geo
          else policy)
      else if is_some q.metro
      then (if not (opt_eq policy policy_metro) then some policy_metro else policy)
      else policy_without_place q policy

  -- _set_policy, from the parameter 'policy' of the request.
  unfoldable pub set_policy : FloatOps F → Option String → LookupQuery F → LookupQuery F
  set_policy fl asked q = record q { policy = resolved_policy fl q asked }
