-- ===== src/Compare/Sets.antt =====
-- The sets that are compared, and how many items are common to them.
use mlab_ns.Base.{
  ℕ, ◌+◌, Bool, true, false, ◌&&◌, not, List, [], ◌∷◌, ◌≡◌, refl, sym, ap, ◌∙◌, subst, arith,
  eq_iff, keep, length, if_elim, if◌then◌else◌,
}
use mlab_ns.Compare.{Item, same_item, has_item, set_of, compare_results}

same_item-eq : (x y : Item) → same_item x y ≡ true → x ≡ y
same_item-eq [] [] e = refl
same_item-eq [] (t ∷ ts) e = absurd (cc)
same_item-eq (s ∷ ss) [] e = absurd (cc)
same_item-eq (s ∷ ss) (t ∷ ts) e =
    let head : s ≡ t = (eq_iff s t).0 (ground (arith, e)) in
    let tail : ss ≡ ts = same_item-eq ss ts (ground (arith, e)) in cc

same_item_refl : (x : Item) → same_item x x ≡ true
same_item_refl [] = refl
same_item_refl (s ∷ ss) = rw ((eq_iff s s).1 refl, same_item_refl ss) refl

same_item_iff : (x y : Item) → (same_item x y ≡ true → x ≡ y) × (x ≡ y → same_item x y ≡ true)
same_item_iff x y = (same_item-eq x y, λ e. subst (λ z. same_item x z ≡ true) e (same_item_refl x))

same_item_sym : (x y : Item) → same_item x y ≡ true → same_item y x ≡ true
same_item_sym x y e = (same_item_iff y x).1 (sym (same_item-eq x y e))

-- Nothing is twice in the list.
abbrev pub IsDistinct : List Item → Type 0
IsDistinct [] = Unit
IsDistinct (x ∷ xs) = (has_item x xs ≡ false) × IsDistinct xs

pub set_of-IsDistinct : (xs : List Item) → IsDistinct (set_of xs)
unfolding set_of
set_of-IsDistinct [] = tt
set_of-IsDistinct (x ∷ xs) =
    if_elim IsDistinct (has_item x (set_of xs)) _ _ (λ _. set_of-IsDistinct xs)
      (λ e. (e, set_of-IsDistinct xs))

has_item_same : (x y : Item) (xs : List Item) → same_item x y ≡ true → has_item x xs ≡ has_item y xs
has_item_same x y xs e = ap (λ (z : Item). has_item z xs) (same_item-eq x y e)

-- What is in a list is in its set, and nothing else.
pub has_item-set_of : (x : Item) (xs : List Item) → has_item x (set_of xs) ≡ has_item x xs
unfolding set_of
has_item-set_of x [] = refl
has_item-set_of x (y ∷ ys) =
    if_elim (λ (s : List Item). has_item x s ≡ has_item x (y ∷ ys)) (has_item y (set_of ys)) _ _
      (λ e. ground (arith, e, has_item-set_of x ys, has_item_same x y (set_of ys)))
      (λ e. ground (arith, e, has_item-set_of x ys))

pub has_item-keep :
    (x : Item) (test : Item → Bool) (xs : List Item)
    → has_item x (keep test xs) ≡ (has_item x xs && test x)
has_item-keep x test [] = refl
has_item-keep x test (y ∷ ys) =
    if_elim (λ (s : List Item). has_item x s ≡ (has_item x (y ∷ ys) && test x)) (test y) _ _
      (λ e. ground (
        arith,
        e,
        has_item-keep x test ys,
        λ (s : same_item x y ≡ true). ap test (same_item-eq x y s),
      ))
      (λ e. ground (
        arith,
        e,
        has_item-keep x test ys,
        λ (s : same_item x y ≡ true). ap test (same_item-eq x y s),
      ))

-- How many of a list are in another.
abbrev shared : List Item → List Item → ℕ
shared xs ys = length (keep (λ x. has_item x ys) xs)

length-keep :
    (test : Item → Bool) (xs : List Item)
    → length (keep test xs) + length (keep (λ x. not (test x)) xs) ≡ length xs
length-keep test [] = refl
length-keep test (x ∷ xs) = ground (arith, length-keep test xs)

shared_nil : (ys : List Item) → shared ys [] ≡ 0
shared_nil [] = refl
shared_nil (y ∷ ys) = shared_nil ys

-- Of a set, at most one item is x.
shared-cons :
    (x : Item) (xs ys : List Item)
    → IsDistinct ys
    → has_item x xs ≡ false
    → shared ys (x ∷ xs) ≡ (if has_item x ys then 1 else 0) + shared ys xs
shared-cons x xs [] h e = refl
shared-cons x xs (y ∷ ys) (k, h) e =
    let rest = shared-cons x xs ys h e in
    ground (
      arith,
      rest,
      k,
      e,
      λ (s : same_item y x ≡ true). has_item_same y x ys s,
      λ (s : same_item y x ≡ true). has_item_same y x xs s,
      same_item_sym x y,
      same_item_sym y x,
    )

shared_comm : (xs ys : List Item) → IsDistinct xs → IsDistinct ys → shared xs ys ≡ shared ys xs
shared_comm [] ys h k = sym (shared_nil ys)
shared_comm (x ∷ xs) ys (e, h) k =
    rw (shared-cons x xs ys k e) (ground (arith, shared_comm xs ys h k))

module _ (xs ys : List Item) where
  -- The comparison of two sets: what is common, missing and extra is what is in both, in the first
  -- alone and in the second alone. The common and the missing items are as many as those of the first
  -- set, the common and the extra ones as many as those of the second.
  pub compare_results_lem :
      let c = compare_results (set_of xs) (set_of ys) in
      ((x : Item)
        → (has_item x c.common ≡ (has_item x xs && has_item x ys))
          × (has_item x c.missing ≡ (has_item x xs && not (has_item x ys)))
          × (has_item x c.extra ≡ (has_item x ys && not (has_item x xs))))
      × (length c.common + length c.missing ≡ length (set_of xs))
      × (length c.common + length c.extra ≡ length (set_of ys))
  unfolding compare_results
  compare_results_lem = (
    λ x. (
      has_item-keep x _ (set_of xs) ∙ rw (has_item-set_of x xs, has_item-set_of x ys) refl,
      has_item-keep x _ (set_of xs) ∙ rw (has_item-set_of x xs, has_item-set_of x ys) refl,
      has_item-keep x _ (set_of ys) ∙ rw (has_item-set_of x xs, has_item-set_of x ys) refl,
    ),
    length-keep _ (set_of xs),
    omega (
      arith,
      shared_comm (set_of xs) (set_of ys) (set_of-IsDistinct xs) (set_of-IsDistinct ys),
      length-keep (λ x. has_item x (set_of xs)) (set_of ys),
    ),
  )
