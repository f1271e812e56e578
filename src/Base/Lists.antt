-- ===== src/Base/Lists.antt =====
-- Lists measured by native numbers, predicates on all items, and filters by a Boolean test.
use Prim.Native.Nat.{ℕ, zero, suc, ◌≤◌}
use Prim.Native.String.{String}
use mathlib.Core.Path.{◌≡◌, refl, ap, sym, subst, ◌∙◌}
use mathlib.Core.Logic.{inl, inr}
use mathlib.Core.List.{List, [], ◌∷◌, ◌++◌, map, Memᴰ, Permᴰ}
use mathlib.Core.Bool.{Bool, true, false}
use native.Mathlib.Omega.{arith}
use text.Mathlib.Text.{◌==◌}
use mlab_ns.Base.Tests.{if◌then◌else◌, Bool-cases}

module _ {ℓ} {A : Type ℓ} where
  abbrev pub length : List A → ℕ
  length [] = 0
  length (x ∷ xs) = suc (length xs)

  abbrev pub take : ℕ → List A → List A
  take zero xs = []
  take (suc n) [] = []
  take (suc n) (x ∷ xs) = x ∷ take n xs

  abbrev pub is_empty : List A → Bool
  is_empty [] = true
  is_empty (x ∷ xs) = false

  -- `filter(test, items)`.
  abbrev pub keep : (A → Bool) → List A → List A
  keep test [] = []
  keep test (x ∷ xs) = let rest = keep test xs in if test x then x ∷ rest else rest

  pub length-take-le : (n : ℕ) (xs : List A) → length (take n xs) ≤ n
  length-take-le zero xs = omega arith
  length-take-le (suc n) [] = omega arith
  length-take-le (suc n) (x ∷ xs) = omega (arith, length-take-le n xs)

-- `item in texts`.
abbrev pub contains : String → List String → Bool
contains s [] = false
contains s (t ∷ ts) = let rest = contains s ts in if s == t then true else rest

module _ {ℓ κ} {A : Type ℓ} where
  abbrev pub All : (A → Type κ) → List A → Type κ
  All P [] = Unit
  All P (x ∷ xs) = P x × All P xs

  pub All-append : (P : A → Type κ) (xs ys : List A) → All P xs → All P ys → All P (xs ++ ys)
  All-append P [] ys h k = k
  All-append P (x ∷ xs) ys (p, h) k = (p, All-append P xs ys h k)

  pub All_append_left : (P : A → Type κ) (xs ys : List A) → All P (xs ++ ys) → All P xs
  All_append_left P [] ys h = tt
  All_append_left P (x ∷ xs) ys (p, h) = (p, All_append_left P xs ys h)

  pub All-take : (P : A → Type κ) (n : ℕ) (xs : List A) → All P xs → All P (take n xs)
  All-take P zero xs h = tt
  All-take P (suc n) [] h = tt
  All-take P (suc n) (x ∷ xs) (p, h) = (p, All-take P n xs h)

  pub All-Memᴰ : (P : A → Type κ) {a : A} {xs : List A} → All P xs → Memᴰ a xs → P a
  All-Memᴰ P h (Memᴰ.head e) = subst P (sym e) h.0
  All-Memᴰ P h (Memᴰ.tail m) = All-Memᴰ P h.1 m

  pub All-Permᴰ : (P : A → Type κ) {xs ys : List A} → Permᴰ xs ys → All P xs → All P ys
  All-Permᴰ P Permᴰ.nil h = tt
  All-Permᴰ P (Permᴰ.cons e p) (q, h) = (subst P e q, All-Permᴰ P p h)
  All-Permᴰ P (Permᴰ.swap e f) (p, (q, h)) = (subst P f q, (subst P e p, h))
  All-Permᴰ P (Permᴰ.trans p q) h = All-Permᴰ P q (All-Permᴰ P p h)

module _ {ℓ κ μ} {A : Type ℓ} (P : A → Type κ) (Q : A → Type μ) where
  pub All-map : (xs : List A) → ((a : A) → P a → Q a) → All P xs → All Q xs
  All-map [] f h = tt
  All-map (x ∷ xs) f (p, h) = (f x p, All-map xs f h)

module _ {ℓ κ} {A : Type ℓ} (P : A → Type κ) where
  -- What is kept passes the test, and has whatever the items have.
  pub All-keep :
      (test : A → Bool) (xs : List A) → All P xs → All (λ x. P x × (test x ≡ true)) (keep test xs)
  All-keep test [] h = tt
  All-keep test (x ∷ xs) (p, h) = elim (Bool-cases (test x)) [
    | inl e ↦ rw e ((p, e), All-keep test xs h)
    | inr e ↦ rw e (All-keep test xs h)
  ]

-- Every item is among the items.
pub All-self {ℓ} : {A : Type ℓ} (xs : List A) → All (λ x. Memᴰ x xs) xs
All-self [] = tt
All-self (x ∷ xs) = (
  Memᴰ.head refl,
  All-map (λ y. Memᴰ y xs) (λ y. Memᴰ y (x ∷ xs)) xs (λ y m. Memᴰ.tail m) (All-self xs),
)

-- The items are pairwise related.
module _ {ℓ κ} {A : Type ℓ} where
  abbrev pub Apart : (A → A → Type κ) → List A → Type (ℓ ⊔ κ)
  Apart R [] = Unit
  Apart R (x ∷ xs) = All (R x) xs × Apart R xs

  pub Apart-take : (R : A → A → Type κ) (n : ℕ) (xs : List A) → Apart R xs → Apart R (take n xs)
  Apart-take R zero xs h = tt
  Apart-take R (suc n) [] h = tt
  Apart-take R (suc n) (x ∷ xs) (p, h) = (All-take (R x) n xs p, Apart-take R n xs h)

  pub Apart-append_left : (R : A → A → Type κ) (xs ys : List A) → Apart R (xs ++ ys) → Apart R xs
  Apart-append_left R [] ys h = tt
  Apart-append_left R (x ∷ xs) ys (p, h) =
      (All_append_left (R x) xs ys p, Apart-append_left R xs ys h)

  pub Apart-concat :
      (R : A → A → Type κ) (xs : List A) (y : A)
      → Apart R xs
      → All (λ x. R x y) xs
      → Apart R (xs ++ y ∷ [])
  Apart-concat R [] y h k = (tt, tt)
  Apart-concat R (x ∷ xs) y (p, h) (q, k) =
      (All-append (R x) xs (y ∷ []) p (q, tt), Apart-concat R xs y h k)

  pub All_flip :
      (R : A → A → Type κ) {a b : A} → a ≡ b → (xs : List A) → All (R a) xs → All (R b) xs
  All_flip R e xs h = subst (λ (x : A). All (R x) xs) e h

  -- For a symmetric relation the order of the items does not matter.
  pub Apart-Permᴰ :
      (R : A → A → Type κ) {xs ys : List A}
      → ((a b : A) → R a b → R b a)
      → Permᴰ xs ys
      → Apart R xs
      → Apart R ys
  Apart-Permᴰ R flip Permᴰ.nil h = tt
  Apart-Permᴰ R flip (Permᴰ.cons {l₂ = ys} e p) (q, h) =
      (All_flip R e ys (All-Permᴰ (R _) p q), Apart-Permᴰ R flip p h)
  Apart-Permᴰ R flip (Permᴰ.swap {a = a} {b = b} {b' = b'} {l = l} e f) ((q, qs), (r, h)) =
      let swapped = subst (λ (x : A). R b x) e (flip a b q) in
      ((subst (λ (x : A). R x b') f swapped, All_flip R f l r), (All_flip R e l qs, h))
  Apart-Permᴰ R flip (Permᴰ.trans p q) h = Apart-Permᴰ R flip q (Apart-Permᴰ R flip p h)

module _ {ℓ} {A : Type ℓ} where
  pub Permᴰ-refl : (xs : List A) → Permᴰ xs xs
  Permᴰ-refl [] = Permᴰ.nil
  Permᴰ-refl (x ∷ xs) = Permᴰ.cons refl (Permᴰ-refl xs)

  pub Memᴰ-Permᴰ : {a : A} {xs ys : List A} → Permᴰ xs ys → Memᴰ a xs → Memᴰ a ys
  Memᴰ-Permᴰ Permᴰ.nil m = elim m [ ]
  Memᴰ-Permᴰ (Permᴰ.cons e p) (Memᴰ.head f) = Memᴰ.head (f ∙ e)
  Memᴰ-Permᴰ (Permᴰ.cons e p) (Memᴰ.tail m) = Memᴰ.tail (Memᴰ-Permᴰ p m)
  Memᴰ-Permᴰ (Permᴰ.swap e f) (Memᴰ.head g) = Memᴰ.tail (Memᴰ.head (g ∙ e))
  Memᴰ-Permᴰ (Permᴰ.swap e f) (Memᴰ.tail (Memᴰ.head g)) = Memᴰ.head (g ∙ f)
  Memᴰ-Permᴰ (Permᴰ.swap e f) (Memᴰ.tail (Memᴰ.tail m)) = Memᴰ.tail (Memᴰ.tail m)
  Memᴰ-Permᴰ (Permᴰ.trans p q) m = Memᴰ-Permᴰ q (Memᴰ-Permᴰ p m)

  pub Memᴰ-keep :
      (test : A → Bool) (xs : List A) {a : A} → Memᴰ a xs → test a ≡ true → Memᴰ a (keep test xs)
  Memᴰ-keep test [] m h = elim m [ ]
  Memᴰ-keep test (x ∷ xs) (Memᴰ.head e) h = rw (ap test (sym e) ∙ h) (Memᴰ.head e)
  Memᴰ-keep test (x ∷ xs) (Memᴰ.tail m) h = elim (Bool-cases (test x)) [
    | inl e ↦ rw e (Memᴰ.tail (Memᴰ-keep test xs m h))
    | inr e ↦ rw e (Memᴰ-keep test xs m h)
  ]

module _ {ℓ κ μ ν} {A : Type ℓ} {B : Type κ} where
  pub All-map_of :
      (P : A → Type μ) (Q : B → Type ν) (f : A → B) (xs : List A)
      → ((a : A) → P a → Q (f a))
      → All P xs
      → All Q (map f xs)
  All-map_of P Q f [] g h = tt
  All-map_of P Q f (x ∷ xs) g (p, h) = (g x p, All-map_of P Q f xs g h)

module _ {ℓ κ μ ν ξ} {A : Type ℓ} {B : Type κ} where
  pub Apart-map :
      (P : A → Type ξ) (R : A → A → Type μ) (S : B → B → Type ν) (f : A → B) (xs : List A)
      → ((a b : A) → P a → P b → R a b → S (f a) (f b))
      → All P xs
      → Apart R xs
      → Apart S (map f xs)
  Apart-map P R S f [] g ps h = tt
  Apart-map P R S f (x ∷ xs) g (p, ps) (q, h) = (others xs ps q, Apart-map P R S f xs g ps h)
    where
      others : (ys : List A) → All P ys → All (R x) ys → All (S (f x)) (map f ys)
      others [] ps qs = tt
      others (y ∷ ys) (py, ps) (q, qs) = (g x y p py q, others ys ps qs)
