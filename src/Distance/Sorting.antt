-- ===== src/Distance/Sorting.antt =====
-- The sort by distance: a permutation, and in order.
use mlab_ns.Base.{
  true, false, List, [], ◌∷◌, ◌≡◌, refl, All, Apart, Permᴰ, Permᴰ-refl, All-map, if_elim, All-Permᴰ,
}
use mlab_ns.Runtime.{FloatOps, FloatOrder}
use mlab_ns.Model.{SliverTool}
use mlab_ns.Distance.{insert_by_distance, sort_by_distance}

module _ {F : Type 0} (fl : FloatOps F) where
  insert_by_distance-perm :
      (x : F × SliverTool F) (ys : List (F × SliverTool F))
      → Permᴰ (x ∷ ys) (insert_by_distance fl x ys)
  unfolding insert_by_distance
  insert_by_distance-perm x [] = Permᴰ.cons refl Permᴰ.nil
  insert_by_distance-perm x (y ∷ ys) =
      if_elim (Permᴰ (x ∷ y ∷ ys)) (fl.less y.0 x.0) _ _
        (λ _. Permᴰ.trans (Permᴰ.swap refl refl) (Permᴰ.cons refl (insert_by_distance-perm x ys)))
        (λ _. Permᴰ-refl (x ∷ y ∷ ys))

  pub sort_by_distance-perm : (xs : List (F × SliverTool F)) → Permᴰ xs (sort_by_distance fl xs)
  unfolding sort_by_distance
  sort_by_distance-perm [] = Permᴰ.nil
  sort_by_distance-perm (x ∷ xs) =
      Permᴰ.trans (Permᴰ.cons refl (sort_by_distance-perm xs)) (insert_by_distance-perm x _)

  -- The second is not nearer than the first.
  abbrev pub NotNearer : F × SliverTool F → F × SliverTool F → Type 0
  NotNearer a b = fl.less b.0 a.0 ≡ false

  abbrev pub Measured : F × SliverTool F → Type 0
  Measured a = fl.is_number a.0 ≡ true

  module _ (order : FloatOrder fl) where
    insert_by_distance-NotNearer :
        (x : F × SliverTool F) (ys : List (F × SliverTool F))
        → Measured x
        → All Measured ys
        → Apart NotNearer ys
        → Apart NotNearer (insert_by_distance fl x ys)
    unfolding insert_by_distance
    insert_by_distance-NotNearer x [] m ms h = (tt, tt)
    insert_by_distance-NotNearer x (y ∷ ys) m (my, ms) (p, h) =
        if_elim (Apart NotNearer) (fl.less y.0 x.0) _ _
          (λ e. (
            All-Permᴰ (NotNearer y) (insert_by_distance-perm x ys) (order.less_asym _ _ e, p),
            insert_by_distance-NotNearer x ys m ms h,
          ))
          (λ e. (
            (
              e,
              All-map (NotNearer y) (NotNearer x) ys (λ z q. order.less_through x.0 y.0 z.0 my e q)
                  p,
            ),
            (p, h),
          ))

    -- Sorted by distance, no tool is nearer than one that stands before it. The condition is that
    -- the distances are numbers.
    pub sort_by_distance-NotNearer :
        (xs : List (F × SliverTool F)) → All Measured xs → Apart NotNearer (sort_by_distance fl xs)
    unfolding sort_by_distance
    sort_by_distance-NotNearer [] ms = tt
    sort_by_distance-NotNearer (x ∷ xs) (m, ms) =
        insert_by_distance-NotNearer x _ m (All-Permᴰ Measured (sort_by_distance-perm xs) ms)
          (sort_by_distance-NotNearer xs ms)
