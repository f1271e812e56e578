-- ===== src/Resolver/Answers.antt =====
-- What every policy answers: tools that fit the query, one for each site, no more than the policy
-- allows.
use mlab_ns.Base.{
  ℕ, ◌≤◌, take, String, false, Option, none, some, List, [], ◌∷◌, ◌≡◌, refl, sym, ap, subst, arith,
  All, Apart, min, if_elim, All-Permᴰ, Apart-Permᴰ, length, length-take-le, All-take, Apart-take,
  All_append_left, Apart-append_left, All-Memᴰ, truthy,
}
use mlab_ns.Base.Errors.{Result, ok, raise, OnOk-map}
use mlab_ns.Model.{SliverTool}
use mlab_ns.Hosts.Kept.{OtherSite}
use mlab_ns.Env.{Env, EnvLaws}
use mlab_ns.Distance.{keep_sites}
use mlab_ns.Fetcher.{ToolProperties, fetch, find_site_ids_for_metro}
use mlab_ns.Fetcher.Sound.{Fits, IsCacheFiled, fetch-Fits, fetch-Apart}
use mlab_ns.Resolver.{
  Wanted, Resolver, geo, metro, random, country, geo_options, all, Answer,
  tool_properties_from_query, nearest, ranking, closest_to, sampled, closest_n_of, closest_n_found,
  get_closest_n_candidates, chosen, choose_of, none_if_empty, answer_query,
  fetch_tools_with_properties,
}
use mlab_ns.Resolver.Kept.{
  EnsuresKept-map, Ensures, EnsuresKept, keep_sites-All, nearest_of-Ensures, Ensures-answer,
}
use mlab_ns.Resolver.Nearest.{ranking-kept}

-- The most tools that a policy answers with; AllResolver has no bound.
abbrev pub limit : Resolver → Option ℕ
limit all = none
limit geo_options = some 4
limit _ = some 1

abbrev pub Within : ℕ → Option ℕ → Type 0
Within k none = Unit
Within k (some n) = k ≤ n

-- The criteria of a policy: MetroResolver and CountryResolver add one.
abbrev pub criteria : {F : Type 0} → Resolver → Wanted F → ToolProperties
criteria metro q = record (tool_properties_from_query q) { metro = q.metro }
criteria country q = record (tool_properties_from_query q) { country = q.country }
criteria _ q = tool_properties_from_query q

module _ {F : Type 0} where
  -- The tools have P, are of different sites, and are no more than the bound.
  abbrev pub Good : (SliverTool F → Type 0) → Option ℕ → List (SliverTool F) → Type 0
  Good P n ts = All P ts × Apart OtherSite ts × Within (length ts) n

  abbrev Found : (SliverTool F → Type 0) → Option (List (SliverTool F)) → Type 0
  Found P none = Unit
  Found P (some ts) = All P ts × Apart OtherSite ts

module _ {F G : Type 0} (env : Env F G) (laws : EnvLaws env) where
  fetch_tools-Found :
      (filed : IsCacheFiled env.backend) (props : ToolProperties) (g : G)
      → props.all_slivers ≡ false
      → Found (Fits (find_site_ids_for_metro env) props) (fetch_tools_with_properties env props g).0
  unfolding fetch_tools_with_properties
  fetch_tools-Found filed props g h =
      found (fetch env props g).0 (fetch-Fits env laws filed props g)
        (fetch-Apart env laws props g h)
    where
      found :
          (ts : List (SliverTool F))
          → All (Fits (find_site_ids_for_metro env) props) ts
          → Apart OtherSite ts
          → Found (Fits (find_site_ids_for_metro env) props) (none_if_empty ts)
      found [] a b = tt
      found (t ∷ ts) a b = (a, b)

  module _ (P : SliverTool F → Type 0) where
    nearest-Good :
        (n : ℕ) (lat lon : F) (r : Result (List (SliverTool F))) (g : G)
        → EnsuresKept (All P) r
        → Ensures (Good P (some n)) (nearest env n lat lon r g).0
    unfolding nearest
    nearest-Good n lat lon (raise e) g h = tt
    nearest-Good n lat lon (ok ts) g h = nearest_of-Ensures env (Good P (some n)) n _ (
        OnOk-map _ (λ d. Good P (some n) (take n (ranking env d))) _
          (λ d p. (All-take P n _ p.0, Apart-take OtherSite n _ p.1, length-take-le n _))
          (ranking-kept env lat lon P ts g h))

    closest_to-Good :
        (signature : String) (n : ℕ) (lat lon : F) (ts : List (SliverTool F)) (g : G)
        → All P ts
        → Ensures (Good P (some n)) (closest_to env signature n lat lon ts g).0
    unfolding closest_to
    closest_to-Good signature n lat lon ts g h = nearest-Good n lat lon _ _ (
        EnsuresKept-map _ P (keep_sites _ (env.rng.shuffle ts g).0) (λ t p. p.0)
          (keep_sites-All P _ _ (All-Permᴰ P (laws.chance.shuffle_perm ts g) h)))

    sampled-Good :
        (n : ℕ) (ts : List (SliverTool F)) (g : G)
        → All P ts
        → Apart OtherSite ts
        → Ensures (Good P (some n)) (sampled env (env.rng.sample ts (min (length ts) n) g)).0
    unfolding sampled
    sampled-Good n ts g h k =
        let (ys, rest, found, count, perm) =
          laws.chance.sample_perm ts (min (length ts) n) g (omega arith) in
        let has = All_append_left P ys rest (All-Permᴰ P perm h) in
        let sites =
          Apart-append_left OtherSite ys rest
            (Apart-Permᴰ OtherSite (λ a b m e. m (sym e)) perm k) in
        go (env.rng.sample ts (min (length ts) n) g) ys found (has, sites, omega (arith, count))
      where
        go :
            (s : Option (List (SliverTool F)) × G) (ys : List (SliverTool F))
            → s.0 ≡ some ys
            → Good P (some n) ys
            → Ensures (Good P (some n)) (sampled env s).0
        go (none, g) ys e good = tt
        go (some zs, g) ys e good =
            subst (λ (o : Option (List (SliverTool F))). Ensures (Good P (some n)) (ok o)) (sym e)
              good

    closest_n_of-Good :
        (q : Wanted F) (signature : String) (n : ℕ) (ts : List (SliverTool F)) (g : G)
        → All P ts
        → Apart OtherSite ts
        → Ensures (Good P (some n)) (closest_n_of env q.latitude q.longitude signature n ts g).0
    unfolding closest_n_of
    closest_n_of-Good q signature n ts g h k = go q.latitude q.longitude
      where
        go :
            (lat lon : Option F)
            → Ensures (Good P (some n)) (closest_n_of env lat lon signature n ts g).0
        go (some lat) (some lon) = closest_to-Good signature n lat lon ts g h
        go none lon = sampled-Good n ts g h k
        go (some lat) none = sampled-Good n ts g h k

    closest_n_found-Good :
        (q : Wanted F) (signature : String) (n : ℕ) (r : Option (List (SliverTool F)) × G)
        → Found P r.0
        → Ensures (Good P (some n)) (closest_n_found env q signature n r).0
    unfolding closest_n_found
    closest_n_found-Good q signature n (none, g) h = tt
    closest_n_found-Good q signature n (some ts, g) (h, k) =
        closest_n_of-Good q signature n ts g h k

    choose_of-Good :
        (r : Option (List (SliverTool F)) × G)
        → Found P r.0
        → Ensures (Good P (some 1)) (choose_of env r).0
    unfolding choose_of chosen
    choose_of-Good (none, g) h = tt
    choose_of-Good (some ts, g) (h, k) = go (env.rng.choice ts g) refl
      where
        go :
            (c : Option (SliverTool F) × G)
            → env.rng.choice ts g ≡ c
            → Ensures (Good P (some 1)) (chosen env c).0
        go (none, g') e = tt
        go (some t, g') e =
            let m = laws.chance.choice_mem ts g t (ap (λ (c : Option (SliverTool F) × G). c.0) e) in
            ((All-Memᴰ P h m, tt), (tt, tt), omega arith)

  -- Whatever the policy, the tools that answer a query have its tool id and are online on the
  -- address family asked for (on either, where none is); with the metro policy they are in the
  -- metro, with the country policy in the country. No two are of one site, and there are at most
  -- 4 with geo_options and 1 with every other policy but all. The condition is that memcache holds
  -- under an id slivers of that tool only.
  pub answer_query-Good :
      (filed : IsCacheFiled env.backend) (r : Resolver) (q : Wanted F) (signature : String) (g : G)
      (ts : List (SliverTool F))
      → (answer_query env r q signature g).0 ≡ ok (some ts)
      → Good (Fits (find_site_ids_for_metro env) (criteria r q)) (limit r) ts
  unfolding answer_query get_closest_n_candidates
  answer_query-Good filed r q signature g ts e =
      Ensures-answer (Good (Fits (find_site_ids_for_metro env) (criteria r q)) (limit r)) _ ts
        (ensured r) e
    where
      fetched :
          (props : ToolProperties)
          → props.all_slivers ≡ false
          → Found
              (Fits (find_site_ids_for_metro env) props)
              (fetch_tools_with_properties env props g).0
      fetched props h = fetch_tools-Found filed props g h

      all_found :
          (P : SliverTool F → Type 0) (o : Option (List (SliverTool F)))
          → Found P o
          → Ensures (Good P none) (ok o)
      all_found P none h = tt
      all_found P (some ts) (h, k) = (h, k, tt)

      ensured :
          (r : Resolver)
          → Ensures
              (Good (Fits (find_site_ids_for_metro env) (criteria r q)) (limit r))
              (answer_query env r q signature g).0
      ensured geo = closest_n_found-Good _ q signature 1 _ (fetched _ refl)
      ensured geo_options = closest_n_found-Good _ q signature 4 _ (fetched _ refl)
      ensured all = all_found _ _ (fetched _ refl)
      ensured random = choose_of-Good _ _ (fetched _ refl)
      ensured metro =
          if_elim
            (λ (a : Answer env).
              Ensures (Good (Fits (find_site_ids_for_metro env) (criteria metro q)) (some 1)) a.0)
            (truthy q.metro) _ _ (λ _. choose_of-Good _ _ (fetched _ refl)) (λ _. tt)
      ensured country =
          if_elim
            (λ (a : Answer env).
              Ensures (Good (Fits (find_site_ids_for_metro env) (criteria country q)) (some 1)) a.0)
            (truthy q.country) _ _ (λ _. choose_of-Good _ _ (fetched _ refl)) (λ _. tt)
