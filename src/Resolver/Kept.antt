-- ===== src/Resolver/Kept.antt =====
-- The filter on backup sites, and what holds of an answer's list.
use mlab_ns.Base.{
  ℕ, take, Bool, true, false, Option, none, some, List, [], ◌∷◌, not, if◌then◌else◌, ◌≡◌, refl,
  subst, All, All-map,
}
use mlab_ns.Base.Errors.{Result, ok, raise, ◌>>=◌, OnOk}
use mlab_ns.Env.{Env}
use mlab_ns.Resolver.{Distances, ranking, nearest_of}
use mlab_ns.Model.{SliverTool}
use mlab_ns.Distance.{keep_sites, is_backup_site}

module _ {F : Type 0} where
  -- What holds of the list that an answer carries, if it carries one.
  abbrev pub Ensures :
      (List (SliverTool F) → Type 0) → Result (Option (List (SliverTool F))) → Type 0
  Ensures Q (raise e) = Unit
  Ensures Q (ok none) = Unit
  Ensures Q (ok (some ts)) = Q ts

  abbrev EnsuresFound : (List (SliverTool F) → Type 0) → Option (List (SliverTool F)) → Type 0
  EnsuresFound Q none = Unit
  EnsuresFound Q (some ts) = Q ts

  pub Ensures-answer :
      (Q : List (SliverTool F) → Type 0) (r : Result (Option (List (SliverTool F))))
      (ts : List (SliverTool F))
      → Ensures Q r
      → r ≡ ok (some ts)
      → Q ts
  Ensures-answer Q r ts h e = subst (Ensures Q) e h

  -- The site id ends in 'c' or not, as asked.
  abbrev pub IsBackup : Bool → SliverTool F → Type 0
  IsBackup backup t = is_backup_site t.site_id ≡ ok backup

  abbrev pub EnsuresKept : (List (SliverTool F) → Type 0) → Result (List (SliverTool F)) → Type 0
  EnsuresKept Q (raise e) = Unit
  EnsuresKept Q (ok ts) = Q ts

  pub EnsuresKept-map :
      (P Q : SliverTool F → Type 0) (r : Result (List (SliverTool F)))
      → ((t : SliverTool F) → P t → Q t)
      → EnsuresKept (All P) r
      → EnsuresKept (All Q) r
  EnsuresKept-map P Q (raise e) f h = tt
  EnsuresKept-map P Q (ok ts) f h = All-map P Q ts f h

  pub EnsuresKept-both :
      (P Q R : List (SliverTool F) → Type 0) (r : Result (List (SliverTool F)))
      → ((ts : List (SliverTool F)) → P ts → Q ts → R ts)
      → EnsuresKept P r
      → EnsuresKept Q r
      → EnsuresKept R r
  EnsuresKept-both P Q R (raise e) f p q = tt
  EnsuresKept-both P Q R (ok ts) f p q = f ts p q

  keep_sites-step :
      (P : SliverTool F → Type 0) (backup : Bool) (t : SliverTool F) (b : Result Bool)
      (rest : Result (List (SliverTool F)))
      → is_backup_site t.site_id ≡ b
      → P t
      → EnsuresKept (All (λ t. P t × IsBackup backup t)) rest
      → EnsuresKept
          (All (λ t. P t × IsBackup backup t))
          (b >>= λ c. rest >>= λ r. ok (if (if backup then c else not c) then t ∷ r else r))
  keep_sites-step P backup t (raise e) rest same p h = tt
  keep_sites-step P backup t (ok b) (raise e) same p h = tt
  keep_sites-step P true t (ok true) (ok r) same p h = ((p, same), h)
  keep_sites-step P true t (ok false) (ok r) same p h = h
  keep_sites-step P false t (ok true) (ok r) same p h = h
  keep_sites-step P false t (ok false) (ok r) same p h = ((p, same), h)

  pub keep_sites-All :
      (P : SliverTool F → Type 0) (backup : Bool) (ts : List (SliverTool F))
      → All P ts
      → EnsuresKept (All (λ t. P t × IsBackup backup t)) (keep_sites backup ts)
  unfolding keep_sites
  keep_sites-All P backup [] h = tt
  keep_sites-All P backup (t ∷ ts) (p, h) =
      keep_sites-step P backup t (is_backup_site t.site_id) (keep_sites backup ts) refl p
        (keep_sites-All P backup ts h)

module _ {F G : Type 0} (env : Env F G) where
  -- What holds of the first n tools of the ranking holds of the list of the answer.
  pub nearest_of-Ensures :
      (Q : List (SliverTool F) → Type 0) (n : ℕ) (r : Result (Distances F))
      → OnOk (λ d. Q (take n (ranking env d))) r
      → Ensures Q (nearest_of env n r)
  nearest_of-Ensures Q n (raise e) h = tt
  nearest_of-Ensures Q n (ok d) h = h
