-- ===== src/Resolver/Available.antt =====
-- A query that some tool fits is answered with a tool.
use mlab_ns.Base.{
  ℕ, suc, ◌≤◌, String, true, Option, none, some, List, [], ◌∷◌, ◌≡◌, refl, ap, arith, if_elim, Memᴰ,
  truthy, length, min,
}
use mlab_ns.Base.Errors.{Result, ok}
use mlab_ns.Runtime.{ChanceLaws}
use mlab_ns.Model.{SliverTool}
use mlab_ns.Env.{Env}
use mlab_ns.Fetcher.{ToolProperties, fetch, datastore_query, find_site_ids_for_metro}
use mlab_ns.Fetcher.Sound.{Fits}
use mlab_ns.Fetcher.Available.{IsInhabited, fetch-IsInhabited}
use mlab_ns.Resolver.{
  Wanted, Resolver, geo, metro, random, country, geo_options, all, Answer, answer_query,
  get_closest_n_candidates, closest_n_found, closest_n_of, sampled, choose_of, chosen,
  none_if_empty, fetch_tools_with_properties,
}
use mlab_ns.Resolver.Answers.{criteria}

-- What a policy needs to answer with a tool for sure: the metro or country policy its argument, and
-- the geo policies a client whose latitude is unknown. Where it is known, sites may be dropped.
abbrev pub IsServed : {F : Type 0} → Resolver → Wanted F → Type 0
IsServed geo q = q.latitude ≡ none
IsServed geo_options q = q.latitude ≡ none
IsServed metro q = truthy q.metro ≡ true
IsServed country q = truthy q.country ≡ true
IsServed random q = Unit
IsServed all q = Unit

module _ {F G : Type 0} (env : Env F G) (laws : ChanceLaws env.fl env.rng) where
  abbrev HasTool : Result (Option (List (SliverTool F))) → Type 0
  HasTool a = (t : SliverTool F) × (ts : List (SliverTool F)) × (a ≡ ok (some (t ∷ ts)))

  -- A fetch that returns some tool.
  abbrev Found : Option (List (SliverTool F)) → Type 0
  Found o = (t : SliverTool F) × (ts : List (SliverTool F)) × (o ≡ some (t ∷ ts))

  fetched-Found :
      (props : ToolProperties) (g : G)
      → IsInhabited (fetch env props g).0
      → Found (fetch_tools_with_properties env props g).0
  unfolding fetch_tools_with_properties
  fetched-Found props g (u, m) = found (fetch env props g).0 m
    where
      found : (ts : List (SliverTool F)) → Memᴰ u ts → Found (none_if_empty ts)
      found [] m = elim m [ ]
      found (t ∷ ts) m = (t, ts, refl)

  chosen-HasTool :
      (c : Option (SliverTool F) × G) (y : SliverTool F) → c.0 ≡ some y → HasTool (chosen env c).0
  unfolding chosen
  chosen-HasTool (none, g) y e = absurd (cc)
  chosen-HasTool (some z, g) y e = (z, [], refl)

  choose_of-HasTool :
      (r : Option (List (SliverTool F)) × G) → Found r.0 → HasTool (choose_of env r).0
  unfolding choose_of
  choose_of-HasTool (none, g) (t, ts, e) = absurd (cc)
  choose_of-HasTool (some [], g) (t, ts, e) = absurd (cc)
  choose_of-HasTool (some (u ∷ us), g) h =
      let (y, e) = laws.choice_some u us g in chosen-HasTool _ y e

  sampled-HasTool :
      (n : ℕ) (u : SliverTool F) (us : List (SliverTool F)) (g : G)
      → HasTool (sampled env (env.rng.sample (u ∷ us) (min (length (u ∷ us)) (suc n)) g)).0
  unfolding sampled
  sampled-HasTool n u us g =
      let (ys, rest, e, l, perm) =
        laws.sample_perm (u ∷ us) (min (length (u ∷ us)) (suc n)) g (omega arith) in
      drawn (env.rng.sample (u ∷ us) (min (length (u ∷ us)) (suc n)) g) ys e (omega (arith, l))
    where
      drawn :
          (c : Option (List (SliverTool F)) × G) (ys : List (SliverTool F))
          → c.0 ≡ some ys
          → 1 ≤ length ys
          → HasTool (sampled env c).0
      drawn (none, g) ys e l = absurd (cc)
      drawn (some zs, g) [] e l = absurd (omega (arith, l))
      drawn (some zs, g) (y ∷ ys) e l = (y, ys, ap ok e)

  closest_n_found-HasTool :
      (q : Wanted F) (signature : String) (n : ℕ) (r : Option (List (SliverTool F)) × G)
      → q.latitude ≡ none
      → Found r.0
      → HasTool (closest_n_found env q signature (suc n) r).0
  unfolding closest_n_found closest_n_of
  closest_n_found-HasTool q signature n (none, g) unknown (t, ts, e) = absurd (cc)
  closest_n_found-HasTool q signature n (some [], g) unknown (t, ts, e) = absurd (cc)
  closest_n_found-HasTool q signature n (some (u ∷ us), g) unknown h =
      of_latitude q.latitude unknown
    where
      of_latitude :
          (lat : Option F)
          → lat ≡ none
          → HasTool (closest_n_of env lat q.longitude signature (suc n) (u ∷ us) g).0
      of_latitude none e = sampled-HasTool n u us g
      of_latitude (some x) e = absurd (cc)

  -- Where the datastore returns a tool that meets the criteria of a policy, the policy answers with
  -- at least one tool, whatever memcache holds and whatever is drawn. The metro and country policies
  -- need their argument, and the geo policies a client whose latitude is unknown.
  pub answer_query_available :
      (r : Resolver) (q : Wanted F) (signature : String) (g : G) (t : SliverTool F)
      → IsServed r q
      → Memᴰ t (env.backend.query_sliver_tools (datastore_query env (criteria r q)))
      → Fits (find_site_ids_for_metro env) (criteria r q) t
      → (u : SliverTool F) × (us : List (SliverTool F)) × ((answer_query env r q signature g).0
          ≡ ok (some (u ∷ us)))
  unfolding answer_query get_closest_n_candidates
  answer_query_available r q signature g t served m h =
      by_policy r served
        (fetched-Found (criteria r q) g (fetch-IsInhabited env laws (criteria r q) g t m h))
    where
      by_policy :
          (r : Resolver)
          → IsServed r q
          → Found (fetch_tools_with_properties env (criteria r q) g).0
          → HasTool (answer_query env r q signature g).0
      by_policy geo served found = closest_n_found-HasTool q signature 0 _ served found
      by_policy geo_options served found = closest_n_found-HasTool q signature 3 _ served found
      by_policy random served found = choose_of-HasTool _ found
      by_policy all served (u, us, e) = (u, us, ap ok e)
      by_policy metro served found =
          if_elim (λ (a : Answer env). HasTool a.0) (truthy q.metro) _ _
            (λ _. choose_of-HasTool _ found) (λ e. absurd (cc))
      by_policy country served found =
          if_elim (λ (a : Answer env). HasTool a.0) (truthy q.country) _ _
            (λ _. choose_of-HasTool _ found) (λ e. absurd (cc))
