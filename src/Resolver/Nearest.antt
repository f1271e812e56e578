-- ===== src/Resolver/Nearest.antt =====
-- The loop over the candidates of GeoResolver, and the list that it answers with: one tool for each
-- site, the nearest first.
use mlab_ns.Base.{
  String, true, false, Option, some, List, [], ◌∷◌, ◌==◌, is_some, ◌≡◌, ◌≢◌, refl, sym, ◌∙◌, ap,
  eq_refl, ◌++◌, All, Apart, Apart-concat, All-append, All-map, if_elim, All-Permᴰ, Apart-Permᴰ,
  All-map_of, Apart-map,
}
use mlab_ns.Base.Errors.{Result, ok, raise, OnOk, OnOk-map, ok-injective, ◌>>=◌}
use mlab_ns.Runtime.{FloatOrder}
use mlab_ns.Model.{SliverTool}
use mlab_ns.Base.Dict.{lookup, insert}
use mlab_ns.Base.Dict.{lookup-insert}
use mlab_ns.Hosts.Kept.{OtherSite}
use mlab_ns.Env.{Env}
use mlab_ns.Distance.{distance, site_keep_probability}
use mlab_ns.Distance.Sorting.{
  sort_by_distance-perm, NotNearer, Measured, sort_by_distance-NotNearer,
}
use mlab_ns.Resolver.{Distances, no_distances, then_add, add_candidate, add_candidates, ranking}

module _ {F G : Type 0} (env : Env F G) where
  -- What a step ensures, and what the rest ensures after it.
  pub then_add-OnOk :
      (Q R : Distances F → Type 0) (r : Result (Distances F)) (g : G)
      (more : Distances F → Result (Distances F) × G)
      → OnOk Q r
      → ((d : Distances F) → Q d → OnOk R (more d).0)
      → OnOk R (then_add env r g more).0
  then_add-OnOk Q R (raise e) g more h k = tt
  then_add-OnOk Q R (ok d) g more h k = k d h

module _ {F G : Type 0} (env : Env F G) (lat lon : F) where
  -- The distance of the client from a tool.
  abbrev pub far_from : SliverTool F → Result F
  far_from t = distance env.fl lat lon t.latitude t.longitude

  abbrev OtherSites : F × SliverTool F → F × SliverTool F → Type 0
  OtherSites a b = a.1.site_id ≢ b.1.site_id

  -- Each entry has its distance and P, its site is in the table, and the sites differ.
  record IsKept (P : SliverTool F → Type 0) (d : Distances F) : Type 0 where
    far : All (λ x. far_from x.1 ≡ ok x.0) d.tools
    has : All (λ x. P x.1) d.tools
    known : All (λ x. is_some (lookup x.1.site_id d.sites) ≡ true) d.tools
    apart : Apart OtherSites d.tools

  known-insert :
      (k : String) (v : F) (sites : List (String × F)) (xs : List (F × SliverTool F))
      → All (λ x. is_some (lookup x.1.site_id sites) ≡ true) xs
      → All (λ x. is_some (lookup x.1.site_id (insert k v sites)) ≡ true) xs
  known-insert k v sites xs = All-map _ _ xs (λ x p. rw (lookup-insert k x.1.site_id v sites) (
      if_elim (λ (o : Option F). is_some o ≡ true) (k == x.1.site_id) (some v) _ (λ _. refl)
        (λ _. p)))

  module _ (P : SliverTool F → Type 0) where
    add_candidate-IsKept :
        (t : SliverTool F) (d : Distances F)
        → P t
        → IsKept P d
        → OnOk (IsKept P) (add_candidate env lat lon t d)
    unfolding add_candidate
    add_candidate-IsKept t d p v =
        if_elim (OnOk (IsKept P)) (is_some (lookup t.site_id d.sites)) (ok d) _ (λ _. v)
          (λ new. measured new (far_from t) refl)
      where
        measured :
            is_some (lookup t.site_id d.sites) ≡ false
            → (r : Result F) → far_from t ≡ r
            → OnOk (IsKept P) (
                r >>= λ far.
                ok (record {
                  sites = insert t.site_id far d.sites;
                  tools = d.tools ++ (far, t) ∷ [];
                }))
        measured new (raise e) at = tt
        measured new (ok far) at = record {
          far = All-append _ d.tools _ v.far (at, tt);
          has = All-append _ d.tools _ v.has (p, tt);
          known =
              All-append _ d.tools _ (known-insert t.site_id far d.sites d.tools v.known)
                (rw (lookup-insert t.site_id t.site_id far d.sites, eq_refl t.site_id) refl, tt);
          apart =
              Apart-concat OtherSites d.tools (far, t) v.apart
                (All-map _ _ d.tools
                  (λ x k same. cc (ap (λ (s : String). is_some (lookup s d.sites)) same, k, new))
                  v.known);
        }

    add_candidates-IsKept :
        (ts : List (SliverTool F)) (d : Distances F) (g : G)
        → All P ts
        → IsKept P d
        → OnOk (IsKept P) (add_candidates env lat lon ts d g).0
    unfolding add_candidates
    add_candidates-IsKept [] d g ps v = v
    add_candidates-IsKept (t ∷ ts) d g (p, ps) v =
        let (u, g') = env.rng.uniform g in
        then_add-OnOk env (IsKept P) (IsKept P) _ g' _
          (if_elim (OnOk (IsKept P)) (env.fl.less u (site_keep_probability env.fl t.site_id)) _
            (ok d) (λ _. add_candidate-IsKept t d p v) (λ _. v))
          (λ d' v'. add_candidates-IsKept ts d' g' ps v')

  -- The tools of the list in order: one for each site, each with P and with a distance, none nearer
  -- than one before it.
  pub record IsRanked (P : SliverTool F → Type 0) (ts : List (SliverTool F)) : Type 0 where
    pub has : All P ts
    pub measured : All (λ t. (x : F) × (far_from t ≡ ok x)) ts
    pub sites : Apart OtherSite ts
    pub order :
        Apart
          (λ a b. (x y : F) → far_from a ≡ ok x → far_from b ≡ ok y → env.fl.less y x ≡ false)
          ts

  kept_from :
      (P : SliverTool F → Type 0) (filtered : List (SliverTool F)) (g : G)
      → All P filtered
      → OnOk (IsKept P) (add_candidates env lat lon filtered no_distances g).0
  kept_from P filtered g h =
      add_candidates-IsKept P filtered no_distances g h
        (record { far = tt; has = tt; known = tt; apart = tt })

  ranking_of_kept :
      (P : SliverTool F → Type 0) (d : Distances F)
      → IsKept P d
      → All P (ranking env d) × Apart OtherSite (ranking env d)
  ranking_of_kept P d kept =
      let perm = sort_by_distance-perm env.fl d.tools in
      (
        All-map_of (λ x. P x.1) P (λ x. x.1) _ (λ x p. p) (All-Permᴰ (λ x. P x.1) perm kept.has),
        Apart-map (λ x. P x.1) OtherSites OtherSite (λ x. x.1) _ (λ a b _ _ n. n)
            (All-Permᴰ (λ x. P x.1) perm kept.has)
            (Apart-Permᴰ OtherSites (λ a b n e. n (sym e)) perm kept.apart),
      )

  -- Whatever the order of floats, the ranking holds candidates only, one for each site.
  pub ranking-kept :
      (P : SliverTool F → Type 0) (filtered : List (SliverTool F)) (g : G)
      → All P filtered
      → OnOk
          (λ d. All P (ranking env d) × Apart OtherSite (ranking env d))
          (add_candidates env lat lon filtered no_distances g).0
  ranking-kept P filtered g h =
      OnOk-map (IsKept P) _ _ (ranking_of_kept P) (kept_from P filtered g h)

  -- The distance of the tool, where there is one, is a number.
  abbrev pub IsMeasured : SliverTool F → Type 0
  IsMeasured t = (x : F) → far_from t ≡ ok x → env.fl.is_number x ≡ true

  ranking_in_order :
      (order : FloatOrder env.fl) (P : SliverTool F → Type 0) (d : Distances F)
      → IsKept (λ t. P t × IsMeasured t) d
      → IsRanked P (ranking env d)
  ranking_in_order order P d kept =
      let perm = sort_by_distance-perm env.fl d.tools in
      let far = All-Permᴰ (λ x. far_from x.1 ≡ ok x.0) perm kept.far in
      let has = All-Permᴰ (λ x. P x.1 × IsMeasured x.1) perm kept.has in
      let apart = Apart-Permᴰ OtherSites (λ a b n e. n (sym e)) perm kept.apart in
      let sorted =
        sort_by_distance-NotNearer env.fl order d.tools (measured d.tools kept.far kept.has) in
      record {
        has = All-map_of _ P (λ x. x.1) _ (λ x p. p.0) has;
        measured =
            All-map_of (λ x. far_from x.1 ≡ ok x.0) (λ t. (x : F) × (far_from t ≡ ok x)) (λ x. x.1)
              _ (λ x e. (x.0, e)) far;
        sites =
            Apart-map (λ x. far_from x.1 ≡ ok x.0) OtherSites OtherSite (λ x. x.1) _
              (λ a b _ _ n. n) far apart;
        order =
            Apart-map (λ x. far_from x.1 ≡ ok x.0) (NotNearer env.fl) _ (λ x. x.1) _
              (λ a b p q n x y at_a at_b.
                let same_a : a.0 ≡ x = ok-injective (sym p ∙ at_a) in
                let same_b : b.0 ≡ y = ok-injective (sym q ∙ at_b) in
                ap (env.fl.less y) (sym same_a) ∙ (ap (λ z. env.fl.less z a.0) (sym same_b) ∙ n))
              far sorted;
      }
    where
      measured :
          (xs : List (F × SliverTool F))
          → All (λ x. far_from x.1 ≡ ok x.0) xs
          → All (λ x. P x.1 × IsMeasured x.1) xs
          → All (Measured env.fl) xs
      measured [] f m = tt
      measured (x ∷ xs) (e, f) (m, ms) = (m.1 x.0 e, measured xs f ms)

  pub ranking-IsRanked :
      (order : FloatOrder env.fl) (P : SliverTool F → Type 0) (filtered : List (SliverTool F))
      (g : G)
      → All (λ t. P t × IsMeasured t) filtered
      → OnOk
          (λ d. IsRanked P (ranking env d))
          (add_candidates env lat lon filtered no_distances g).0
  ranking-IsRanked order P filtered g h =
      OnOk-map (IsKept (λ t. P t × IsMeasured t)) _ _ (ranking_in_order order P)
        (kept_from (λ t. P t × IsMeasured t) filtered g h)
