-- ===== src/Resolver/Ranked.antt =====
-- The answers of the geo policies for a client whose position is known.
use mlab_ns.Base.{
  ℕ, String, Bool, false, Option, none, some, List, not, take, ◌≡◌, refl, ◌∙◌, ap, All, Memᴰ,
  All-map, All-Permᴰ, All-take, All-self, All-Memᴰ,
}
use mlab_ns.Base.Errors.{Result, ok, raise, OnOk-map, OnOk-and}
use mlab_ns.Distance.{keep_sites}
use mlab_ns.Runtime.{FloatOrder, ChanceLaws}
use mlab_ns.Model.{SliverTool}
use mlab_ns.Env.{Env}
use mlab_ns.ClientSignature.{signature_probability, probability_of}
use mlab_ns.Resolver.{nearest, closest_to, ranking}
use mlab_ns.Resolver.Nearest.{ranking-kept, IsRanked, ranking-IsRanked, IsMeasured}
use mlab_ns.Base.{◌⊎◌, Memᴰ-Permᴰ}
use mlab_ns.Resolver.Covered.{IsCovered, drawn, ranking-IsCovered, keep_sites-keeps}
use mlab_ns.Resolver.Kept.{
  EnsuresKept-both, Ensures, Ensures-answer, EnsuresKept, EnsuresKept-map, keep_sites-All, IsBackup,
  nearest_of-Ensures,
}

module _ {F G : Type 0} (env : Env F G) where
  -- The first n of a ranking of tools that have P. The loop goes over filtered, the shuffled
  -- candidates of one kind, backup or regular, in which every candidate of that kind stands; and each
  -- of them for which the generator g gives a number under the probability of its site has its site
  -- in the ranking.
  abbrev pub IsNearest :
      ℕ
      → F
      → F
      → (SliverTool F → Type 0)
      → Bool
      → List (SliverTool F)
      → List (SliverTool F)
      → G
      → List (SliverTool F)
      → Type 0
  IsNearest n lat lon P backup candidates shuffled g ts =
      (filtered : List (SliverTool F)) × (full : List (SliverTool F)) × (keep_sites backup shuffled
        ≡ ok filtered)
      × (ts ≡ take n full)
      × IsRanked env lat lon P full
      × All (λ t. IsBackup (not backup) t ⊎ Memᴰ t filtered) candidates
      × All (IsCovered env full) (drawn env filtered g)

  -- Whether the client is sent to the backup sites: its probability is less than the draw.
  abbrev pub sent_to_backup : String → List (SliverTool F) → G → Bool
  sent_to_backup signature candidates g =
      env.fl.less (signature_probability env signature)
        (env.rng.uniform (env.rng.shuffle candidates g).1).0

  module _ (laws : ChanceLaws env.fl env.rng) (order : FloatOrder env.fl) (lat lon : F) where
    abbrev Kept :
        (SliverTool F → Type 0) → Bool → List (SliverTool F) → List (SliverTool F) → Type 0
    Kept P backup candidates kept =
        All (λ t. P t × IsMeasured env lat lon t) kept
        × All (λ t. IsBackup (not backup) t ⊎ Memᴰ t kept) candidates

    nearest-IsNearest :
        (P : SliverTool F → Type 0) (backup : Bool) (candidates shuffled : List (SliverTool F))
        (n : ℕ) (r : Result (List (SliverTool F))) (g : G)
        → keep_sites backup shuffled ≡ r
        → EnsuresKept (Kept P backup candidates) r
        → Ensures (IsNearest n lat lon P backup candidates shuffled g) (nearest env n lat lon r g).0
    unfolding nearest
    nearest-IsNearest P backup candidates shuffled n (raise e) g same h = tt
    nearest-IsNearest P backup candidates shuffled n (ok ts) g same (h, k) =
        nearest_of-Ensures env (IsNearest n lat lon P backup candidates shuffled g) n _ (
          OnOk-map
            (λ d.
              IsRanked env lat lon P (ranking env d)
              × All (IsCovered env (ranking env d)) (drawn env ts g))
            (λ d. IsNearest n lat lon P backup candidates shuffled g (take n (ranking env d))) _
            (λ d p. (ts, ranking env d, same, refl, p.0, k, p.1))
            (OnOk-and (λ d. IsRanked env lat lon P (ranking env d))
              (λ d. All (IsCovered env (ranking env d)) (drawn env ts g)) _
              (ranking-IsRanked env lat lon order P ts g h) (ranking-IsCovered env lat lon ts g)))

    -- What closest_to answers with, of candidates that have P.
    abbrev pub IsClosest :
        (SliverTool F → Type 0)
        → String
        → ℕ
        → List (SliverTool F)
        → G
        → List (SliverTool F)
        → Type 0
    IsClosest P signature n candidates g ts =
        IsNearest n lat lon (λ t. P t × IsBackup (sent_to_backup signature candidates g) t)
          (sent_to_backup signature candidates g) candidates (env.rng.shuffle candidates g).0
          (env.rng.uniform (env.rng.shuffle candidates g).1).1 ts

    closest_to-IsNearest :
        (P : SliverTool F → Type 0) (signature : String) (n : ℕ) (candidates : List (SliverTool F))
        (g : G)
        → All (λ t. P t × IsMeasured env lat lon t) candidates
        → Ensures
            (IsClosest P signature n candidates g)
            (closest_to env signature n lat lon candidates g).0
    unfolding closest_to
    closest_to-IsNearest P signature n candidates g h =
        let shuffled = (env.rng.shuffle candidates g).0 in
        let b = sent_to_backup signature candidates g in
        let perm = laws.shuffle_perm candidates g in
        nearest-IsNearest (λ t. P t × IsBackup b t) b candidates shuffled n _ _ refl
          (EnsuresKept-both (All (λ t. (P t × IsMeasured env lat lon t) × IsBackup b t))
            (λ kept. All (λ t. IsBackup (not b) t ⊎ Memᴰ t kept) shuffled)
            (Kept (λ t. P t × IsBackup b t) b candidates) _
            (λ kept all keeps. (
              All-map _ _ kept (λ t p. ((p.0.0, p.1), p.0.1)) all,
              All-map _ _ candidates
                  (λ t m.
                    All-Memᴰ (λ t. IsBackup (not b) t ⊎ Memᴰ t kept) keeps (Memᴰ-Permᴰ perm m))
                  (All-self candidates),
            ))
            (keep_sites-All (λ t. P t × IsMeasured env lat lon t) b shuffled (All-Permᴰ _ perm h))
            (keep_sites-keeps b shuffled))

    -- Where the geo policies answer a client whose position is known with a list, it is the first n of
    -- a ranking of candidates by distance, none nearer than one that stands before it, all of
    -- different sites and all backup sites or all regular ones, as the draw for the client's
    -- signature says. Each candidate of that kind is drawn a number of its own, one after the other,
    -- and if it is under the probability of the candidate's site, the site stands in the ranking. The
    -- condition is that the distances of the candidates, where they can be computed, are numbers.
    pub closest_to-IsRanked :
        (P : SliverTool F → Type 0) (signature : String) (n : ℕ) (candidates : List (SliverTool F))
        (g : G) (ts : List (SliverTool F))
        → All (λ t. P t × IsMeasured env lat lon t) candidates
        → (closest_to env signature n lat lon candidates g).0 ≡ ok (some ts)
        → IsClosest P signature n candidates g ts
    closest_to-IsRanked P signature n candidates g ts h e =
        Ensures-answer (IsClosest P signature n candidates g) _ ts
          (closest_to-IsNearest P signature n candidates g h) e

  module _ (laws : ChanceLaws env.fl env.rng) (lat lon : F) where
    ranking_kept_first :
        (P : SliverTool F → Type 0) (n : ℕ) (r : Result (List (SliverTool F))) (g : G)
        → EnsuresKept (All P) r
        → Ensures (All P) (nearest env n lat lon r g).0
    unfolding nearest
    ranking_kept_first P n (raise e) g h = tt
    ranking_kept_first P n (ok ts) g h = nearest_of-Ensures env (All P) n _ (
        OnOk-map _ (λ d. All P (take n (ranking env d))) _ (λ d p. All-take P n _ p.0)
          (ranking-kept env lat lon P ts g h))

    regular :
        (signature : String) (candidates : List (SliverTool F)) (g : G)
        → env.backend.cached_requests signature ≡ none
        → sent_to_backup signature candidates g ≡ false
    unfolding signature_probability
    regular signature candidates g e =
        ap
          (λ (o : Option String).
            env.fl.less (probability_of env.fl o)
              (env.rng.uniform (env.rng.shuffle candidates g).1).0)
          e
        ∙ laws.uniform_le_one _

    -- Where the geo policies answer a client whose position is known, and which is without a record of
    -- too many requests, with a list, no site of it is a backup site, one whose id ends in 'c'.
    pub closest_to_regular :
        (signature : String) (n : ℕ) (candidates : List (SliverTool F)) (g : G)
        (ts : List (SliverTool F))
        → env.backend.cached_requests signature ≡ none
        → (closest_to env signature n lat lon candidates g).0 ≡ ok (some ts)
        → All (IsBackup false) ts
    unfolding closest_to
    closest_to_regular signature n candidates g ts unseen e =
        let b = sent_to_backup signature candidates g in
        Ensures-answer (All (IsBackup false)) _ ts
          (ranking_kept_first (IsBackup false) n _ _ (
            EnsuresKept-map (λ t. Memᴰ t (env.rng.shuffle candidates g).0 × IsBackup b t)
              (IsBackup false) _ (λ t p. p.1 ∙ ap ok (regular signature candidates g unseen))
              (keep_sites-All _ b _ (All-self (env.rng.shuffle candidates g).0))))
          e
