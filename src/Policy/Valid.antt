-- ===== src/Policy/Valid.antt =====
-- What policy a query ends up with.
use mlab_ns.Base.{
  String, true, Option, none, some, opt_eq, truthy, is_some, ◌≡◌, ◌⊎◌, arith, eq_iff, ap,
}
use mlab_ns.Runtime.{FloatOps}
use mlab_ns.Request.{LookupQuery}
use mlab_ns.Policy.{get_default_policy, policy_without_place, resolved_policy, set_policy}

abbrev pub IsPolicy : Option String → Type 0
IsPolicy p =
    (p ≡ some "geo")
    ⊎ (p ≡ some "metro")
    ⊎ (p ≡ some "random")
    ⊎ (p ≡ some "country")
    ⊎ (p ≡ some "geo_options")
    ⊎ (p ≡ some "all")

opt_eq→eq : (o : Option String) (s : String) → opt_eq o s ≡ true → o ≡ some s
opt_eq→eq none s h = cc
opt_eq→eq (some t) s h = ap some ((eq_iff t s).0 h)

module _ {F : Type 0} (fl : FloatOps F) (q : LookupQuery F) where
  without_place-IsPolicy : (asked : Option String) → IsPolicy (policy_without_place q asked)
  unfolding policy_without_place get_default_policy
  without_place-IsPolicy asked = ground (
    arith,
    opt_eq→eq asked "geo",
    opt_eq→eq asked "metro",
    opt_eq→eq asked "random",
    opt_eq→eq asked "country",
    opt_eq→eq asked "geo_options",
    opt_eq→eq asked "all",
  )

  -- Whatever policy a request asks for, the query ends up with one of the six that there are.
  pub set_policy-IsPolicy : (asked : Option String) → IsPolicy (set_policy fl asked q).policy
  unfolding set_policy resolved_policy
  set_policy-IsPolicy asked = ground (
    arith,
    opt_eq→eq asked "geo",
    opt_eq→eq asked "metro",
    opt_eq→eq asked "country",
    opt_eq→eq asked "geo_options",
    without_place-IsPolicy asked,
  )

  -- The metro policy is kept only where the request names a metro, and the country policy only
  -- where it names a country.
  pub set_policy_argument :
      (asked : Option String)
      → ((set_policy fl asked q).policy ≡ some "metro" → is_some q.metro ≡ true)
        × ((set_policy fl asked q).policy ≡ some "country" → truthy q.given.country ≡ true)
  unfolding set_policy resolved_policy policy_without_place get_default_policy
  set_policy_argument asked = ground (
    arith,
    opt_eq→eq asked "geo",
    opt_eq→eq asked "metro",
    opt_eq→eq asked "random",
    opt_eq→eq asked "country",
    opt_eq→eq asked "geo_options",
    opt_eq→eq asked "all",
    eq_iff "metro" "geo",
    eq_iff "metro" "random",
    eq_iff "metro" "country",
    eq_iff "metro" "geo_options",
    eq_iff "metro" "all",
    eq_iff "country" "geo",
    eq_iff "country" "random",
    eq_iff "country" "geo_options",
    eq_iff "country" "all",
  )
