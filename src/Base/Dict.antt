-- ===== src/Base/Dict.antt =====
-- A dict with texts as keys, in the order in which the keys were first set; what an insertion keeps,
-- and what a lookup finds.
use Prim.Native.String.{String}
use mathlib.Core.Path.{◌≡◌, refl, sym, subst, ◌∙◌}
use mathlib.Core.Logic.{◌≢◌, inl, inr}
use mathlib.Core.Option.{Option, none, some, some-injective}
use mathlib.Core.List.{List, [], ◌∷◌, map, Memᴰ}
use native.Mathlib.Omega.{arith}
use text.Mathlib.Text.{◌==◌}
use text.Mathlib.TextEquality.{eq_iff}
use text.Mathlib.TextPositions.{eq_refl}
use mathlib.Core.Bool.{true}
use mlab_ns.Base.Tests.{if◌then◌else◌, if_elim, Bool-cases, is_some}
use mlab_ns.Base.Lists.{All, All-map, Apart}

module _ {V : Type 0} where
  abbrev pub lookup : String → List (String × V) → Option V
  lookup k [] = none
  lookup k ((j, v) ∷ d) = let rest = lookup k d in if j == k then some v else rest

  abbrev pub insert : String → V → List (String × V) → List (String × V)
  insert k v [] = (k, v) ∷ []
  insert k v ((j, w) ∷ d) = let rest = insert k v d in if j == k then (k, v) ∷ d else (j, w) ∷ rest

  abbrev pub values : List (String × V) → List V
  values d = map (λ (e : String × V). e.1) d

module _ {V : Type 0} where
  pub lookup-insert :
      (k j : String) (v : V) (d : List (String × V))
      → lookup j (insert k v d) ≡ (if k == j then some v else lookup j d)
  lookup-insert k j v [] = refl
  lookup-insert k j v ((i, w) ∷ d) =
      ground (arith, eq_iff k j, eq_iff i k, eq_iff i j, lookup-insert k j v d)

  pub All-insert :
      (Q : String × V → Type 0) (k : String) (v : V) (d : List (String × V))
      → Q (k, v)
      → All Q d
      → All Q (insert k v d)
  All-insert Q k v [] q h = (q, tt)
  All-insert Q k v ((j, w) ∷ d) q (p, h) = elim (Bool-cases (j == k)) [
    | inl e ↦ rw e (q, h)
    | inr e ↦ rw e (p, All-insert Q k v d q h)
  ]

  abbrev pub OtherKey : String × V → String × V → Type 0
  OtherKey a b = a.0 ≢ b.0

  pub Apart-insert :
      (k : String) (v : V) (d : List (String × V))
      → Apart OtherKey d
      → Apart OtherKey (insert k v d)
  Apart-insert k v [] h = (tt, tt)
  Apart-insert k v ((j, w) ∷ d) (p, h) = elim (Bool-cases (j == k)) [
    | inl e ↦ rw e (subst (λ (i : String). All (OtherKey (i, v)) d) ((eq_iff j k).0 e) p, h)
    | inr e ↦
        rw e (
          All-insert (OtherKey (j, w)) k v d (λ q. cc ((eq_iff j k).1 q, e)) p,
          Apart-insert k v d h,
        )
  ]

  pub Memᴰ-lookup :
      (k : String) (v : V) (d : List (String × V)) → lookup k d ≡ some v → Memᴰ v (values d)
  Memᴰ-lookup k v [] h = cc
  Memᴰ-lookup k v ((j, w) ∷ d) h = elim (Bool-cases (j == k)) [
    | inl e ↦ Memᴰ.head (ground (arith, e))
    | inr e ↦ Memᴰ.tail (Memᴰ-lookup k v d (rw e at h))
  ]

  pub All-lookup :
      (Q : String × V → Type 0) (k : String) (v : V) (d : List (String × V))
      → All Q d
      → lookup k d ≡ some v
      → Q (k, v)
  All-lookup Q k v [] h e = absurd (cc)
  All-lookup Q k v ((j, w) ∷ d) (q, h) e = elim (Bool-cases (j == k)) [
    | inl same ↦
        let at_key : Q (k, w) = subst (λ (i : String). Q (i, w)) ((eq_iff j k).0 same) q in
        let found : w ≡ v = ground arith in subst (λ (x : V). Q (k, x)) found at_key
    | inr other ↦ All-lookup Q k v d h (rw other at e)
  ]

  -- What is found after an insertion is what has been inserted or what has been found before.
  pub insert-found {κ} :
      (Q : String → V → Type κ) (k : String) (v : V) (d : List (String × V))
      → Q k v
      → ((j : String) (w : V) → lookup j d ≡ some w → Q j w)
      → (j : String) (w : V) → lookup j (insert k v d) ≡ some w
      → Q j w
  insert-found Q k v d h old j w e =
      if_elim (λ o. o ≡ some w → Q j w) (k == j) (some v) (lookup j d)
        (λ same e'.
          subst (λ i. Q i w) ((eq_iff k j).0 same) (subst (Q k) (some-injective _ _ e') h))
        (λ _ e'. old j w e') (sym (lookup-insert k j v d) ∙ e)

  -- The key is in the dict.
  abbrev pub Has : String → List (String × V) → Type 0
  Has k d = is_some (lookup k d) ≡ true

  pub insert-Has : (k j : String) (v : V) (d : List (String × V)) → Has k d → Has k (insert j v d)
  insert-Has k j v d h = rw (lookup-insert j k v d) (ground (arith, h))

  pub insert-Has-self : (k : String) (v : V) (d : List (String × V)) → Has k (insert k v d)
  insert-Has-self k v d = rw (lookup-insert k k v d, eq_refl k) refl

  -- What holds of every key holds of a key that is in the dict.
  pub Has-key :
      (P : String → Type 0) (k : String) (d : List (String × V))
      → All (λ e. P e.0) d
      → Has k d
      → P k
  Has-key P k [] h m = absurd (cc)
  Has-key P k ((j, v) ∷ d) (q, h) m = elim (Bool-cases (j == k)) [
    | inl same ↦ subst P ((eq_iff j k).0 same) q
    | inr other ↦ Has-key P k d h (ground (arith, m, other))
  ]

  -- A key with what is filed under it.
  pub Has-found : (k : String) (d : List (String × V)) → Has k d → (v : V) × (lookup k d ≡ some v)
  Has-found k d h = found (lookup k d) h
    where
      found : (o : Option V) → is_some o ≡ true → (v : V) × (o ≡ some v)
      found none e = absurd (cc)
      found (some v) e = (v, refl)

  -- Where each value has its key by a field, the field of each value is a key.
  pub values-Has :
      (field : V → String) (d : List (String × V))
      → All (λ e. field e.1 ≡ e.0) d
      → All (λ v. Has (field v) d) (values d)
  values-Has field [] h = tt
  values-Has field ((j, v) ∷ d) (e, h) = (
    rw (e, eq_refl j) refl,
    All-map (λ u. Has (field u) d) (λ u. Has (field u) ((j, v) ∷ d)) (values d)
        (λ u m. ground (arith, m)) (values-Has field d h),
  )
