-- ===== src/Store/Puts.antt =====
-- What db.put of slivers leaves under a key.
use mlab_ns.Base.{
  String, Bool, true, some, List, [], ◌∷◌, ◌==◌, ◌≡◌, ◌≢◌, refl, ap, ◌∙◌, subst, eq_iff, eq_refl,
  if_elim, All, Memᴰ,
}
use mlab_ns.Base.Dict.{lookup, insert, lookup-insert}
use mlab_ns.Model.{SliverTool}
use mlab_ns.Store.{put_tools}

module _ {F : Type 0} where
  -- Of the items with the key of x, there is only x.
  abbrev pub OnlyOne : SliverTool F → SliverTool F → Type 0
  OnlyOne x u = u.key_name ≡ x.key_name → u ≡ x

  insert-OnlyOne :
      (x t : SliverTool F) (d : List (String × SliverTool F))
      → OnlyOne x t
      → lookup x.key_name d ≡ some x
      → lookup x.key_name (insert t.key_name t d) ≡ some x
  insert-OnlyOne x t d one e = rw (lookup-insert t.key_name x.key_name t d) (
      if_elim (λ o. o ≡ some x) (t.key_name == x.key_name) (some t) (lookup x.key_name d)
        (λ same. ap some (one ((eq_iff t.key_name x.key_name).0 same))) (λ _. e))

  module _ (stores : SliverTool F → Bool) (all : (t : SliverTool F) → stores t ≡ true) where
    put_tools-keeps :
        (x : SliverTool F) (ts : List (SliverTool F)) (d : List (String × SliverTool F))
        → All (OnlyOne x) ts
        → lookup x.key_name d ≡ some x
        → lookup x.key_name (put_tools stores ts d) ≡ some x
    unfolding put_tools
    put_tools-keeps x [] d h e = e
    put_tools-keeps x (t ∷ ts) d (one, h) e =
        rw (all t) (put_tools-keeps x ts (insert t.key_name t d) h (insert-OnlyOne x t d one e))

    -- What is put is found.
    pub put_tools-found :
        (x : SliverTool F) (ts : List (SliverTool F)) (d : List (String × SliverTool F))
        → All (OnlyOne x) ts
        → Memᴰ x ts
        → lookup x.key_name (put_tools stores ts d) ≡ some x
    unfolding put_tools
    put_tools-found x [] d h m = elim m [ ]
    put_tools-found x (t ∷ ts) d (one, h) (Memᴰ.head e) = rw (all t) (
        put_tools-keeps x ts (insert t.key_name t d) h (
          subst (λ (u : SliverTool F). lookup x.key_name (insert u.key_name u d) ≡ some x) e
            (lookup-insert x.key_name x.key_name x d ∙ rw (eq_refl x.key_name) refl)))
    put_tools-found x (t ∷ ts) d (one, h) (Memᴰ.tail m) =
        rw (all t) (put_tools-found x ts (insert t.key_name t d) h m)

    -- Under another key nothing changes.
    pub put_tools-other :
        (k : String) (ts : List (SliverTool F)) (d : List (String × SliverTool F))
        → All (λ (u : SliverTool F). u.key_name ≢ k) ts
        → lookup k (put_tools stores ts d) ≡ lookup k d
    unfolding put_tools
    put_tools-other k [] d h = refl
    put_tools-other k (t ∷ ts) d (other, h) = rw (all t) (
        put_tools-other k ts (insert t.key_name t d) h
        ∙ (lookup-insert t.key_name k t d
            ∙ if_elim (λ o. o ≡ lookup k d) (t.key_name == k) (some t) (lookup k d)
                (λ same. absurd (other ((eq_iff t.key_name k).0 same))) (λ _. refl)))
