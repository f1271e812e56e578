-- ===== src/Resolver/Covered.antt =====
-- No site is missing from the ranking of GeoResolver but those that the draws drop.
use mathlib.Core.List.Memᴰ.{append_left, append_right}
use mlab_ns.Base.{
  String, Bool, true, false, Option, some, List, [], ◌∷◌, ◌++◌, map, ◌==◌, not, is_some, ◌≡◌, refl,
  sym, ◌∙◌, ap, eq_iff, All, Memᴰ, ◌⊎◌, inl, inr, if_elim, All-map, Memᴰ-Permᴰ, if◌then◌else◌,
}
use mlab_ns.Base.Dict.{lookup, insert, lookup-insert}
use mlab_ns.Base.Errors.{Result, ok, raise, ◌>>=◌, OnOk, OnOk-map, OnOk-and}
use mlab_ns.Model.{SliverTool}
use mlab_ns.Env.{Env}
use mlab_ns.Distance.{site_keep_probability, keep_sites, is_backup_site}
use mlab_ns.Distance.Sorting.{sort_by_distance-perm}
use mlab_ns.Resolver.{Distances, no_distances, add_candidate, add_candidates, ranking}
use mlab_ns.Resolver.Nearest.{far_from, then_add-OnOk}
use mlab_ns.Resolver.Kept.{IsBackup, EnsuresKept}

module _ {F : Type 0} where
  abbrev Has : String → List (F × SliverTool F) → Type 0
  Has k xs = (x : F × SliverTool F) × (x.1.site_id ≡ k) × Memᴰ x xs

  -- A tool of the site is on the list.
  abbrev pub HasSite : String → List (SliverTool F) → Type 0
  HasSite k ts = (s : SliverTool F) × (s.site_id ≡ k) × Memᴰ s ts

  Has-append : (k : String) (xs ys : List (F × SliverTool F)) → Has k xs → Has k (xs ++ ys)
  Has-append k xs ys (x, e, m) = (x, e, append_left ys m)

  -- Every site in the table of distances has a tool.
  abbrev IsListed : Distances F → Type 0
  IsListed d = (k : String) → is_some (lookup k d.sites) ≡ true → Has k d.tools

  Memᴰ-map :
      (x : F × SliverTool F) (xs : List (F × SliverTool F))
      → Memᴰ x xs
      → Memᴰ x.1 (map (λ (p : F × SliverTool F). p.1) xs)
  Memᴰ-map x (y ∷ xs) (Memᴰ.head e) = Memᴰ.head (ap (λ (p : F × SliverTool F). p.1) e)
  Memᴰ-map x (y ∷ xs) (Memᴰ.tail m) = Memᴰ.tail (Memᴰ-map x xs m)
  Memᴰ-map x [] m = elim m [ ]

  keeps_later :
      (b : Bool) (t : SliverTool F) (r : List (SliverTool F)) (u : SliverTool F)
      → IsBackup (not b) u ⊎ Memᴰ u r
      → IsBackup (not b) u ⊎ Memᴰ u (t ∷ r)
  keeps_later b t r u (inl e) = inl e
  keeps_later b t r u (inr m) = inr (Memᴰ.tail m)

  -- What keep_sites leaves out is of the other kind.
  keep_sites-step :
      (backup : Bool) (t : SliverTool F) (ts : List (SliverTool F)) (b : Result Bool)
      (rest : Result (List (SliverTool F)))
      → is_backup_site t.site_id ≡ b
      → EnsuresKept (λ kept. All (λ u. IsBackup (not backup) u ⊎ Memᴰ u kept) ts) rest
      → EnsuresKept
          (λ kept. All (λ u. IsBackup (not backup) u ⊎ Memᴰ u kept) (t ∷ ts))
          (b >>= λ c. rest >>= λ r. ok (if (if backup then c else not c) then t ∷ r else r))
  keep_sites-step backup t ts (raise e) rest same h = tt
  keep_sites-step backup t ts (ok b) (raise e) same h = tt
  keep_sites-step true t ts (ok true) (ok r) same h =
      (inr (Memᴰ.head refl), All-map _ _ ts (keeps_later true t r) h)
  keep_sites-step false t ts (ok false) (ok r) same h =
      (inr (Memᴰ.head refl), All-map _ _ ts (keeps_later false t r) h)
  keep_sites-step true t ts (ok false) (ok r) same h = (inl same, h)
  keep_sites-step false t ts (ok true) (ok r) same h = (inl same, h)

  pub keep_sites-keeps :
      (backup : Bool) (ts : List (SliverTool F))
      → EnsuresKept
          (λ kept. All (λ u. IsBackup (not backup) u ⊎ Memᴰ u kept) ts)
          (keep_sites backup ts)
  unfolding keep_sites
  keep_sites-keeps backup [] = tt
  keep_sites-keeps backup (t ∷ ts) =
      keep_sites-step backup t ts (is_backup_site t.site_id) (keep_sites backup ts) refl
        (keep_sites-keeps backup ts)

module _ {F G : Type 0} (env : Env F G) where
  -- The candidates of the loop, each with the number that is drawn for it, from the generator that
  -- the loop begins with.
  pub drawn : List (SliverTool F) → G → List (SliverTool F × F)
  drawn [] g = []
  drawn (t ∷ ts) g = let (u, g') = env.rng.uniform g in (t, u) ∷ drawn ts g'

  -- The number is under the probability of the tool's site.
  abbrev pub is_under : SliverTool F × F → Bool
  is_under x = env.fl.less x.1 (site_keep_probability env.fl x.0.site_id)

  -- A tool whose number is under the probability has its site on the list.
  abbrev pub IsCovered : List (SliverTool F) → SliverTool F × F → Type 0
  IsCovered ts x = is_under x ≡ true → HasSite x.0.site_id ts

  module _ (lat lon : F) where
    abbrev HasListed : String → Distances F → Type 0
    HasListed k d = Has k d.tools

    add_candidate-Has :
        (k : String) (t : SliverTool F) (d : Distances F)
        → Has k d.tools
        → OnOk (HasListed k) (add_candidate env lat lon t d)
    unfolding add_candidate
    add_candidate-Has k t d h =
        if_elim (OnOk (HasListed k)) (is_some (lookup t.site_id d.sites)) (ok d) _ (λ _. h)
          (λ _. measured (far_from env lat lon t))
      where
        measured :
            (r : Result F)
            → OnOk (HasListed k) (
                r >>= λ far.
                ok (record {
                  sites = insert t.site_id far d.sites;
                  tools = d.tools ++ (far, t) ∷ [];
                }))
        measured (raise e) = tt
        measured (ok far) = Has-append k d.tools _ h

    -- After a candidate has been added, its site has a tool, and the table of sites is still right.
    add_candidate-IsListed :
        (t : SliverTool F) (d : Distances F)
        → IsListed d
        → OnOk
            (λ (e : Distances F). IsListed e × Has t.site_id e.tools)
            (add_candidate env lat lon t d)
    unfolding add_candidate
    add_candidate-IsListed t d v =
        if_elim (OnOk (λ (e : Distances F). IsListed e × Has t.site_id e.tools))
          (is_some (lookup t.site_id d.sites)) (ok d) _ (λ known. (v, v t.site_id known))
          (λ _. measured (far_from env lat lon t))
      where
        measured :
            (r : Result F)
            → OnOk
                (λ (e : Distances F). IsListed e × Has t.site_id e.tools)
                (r >>= λ far. ok (record {
                  sites = insert t.site_id far d.sites;
                  tools = d.tools ++ (far, t) ∷ [];
                }))
        measured (raise e) = tt
        measured (ok far) = (
          λ k known.
              if_elim (λ (o : Option F). is_some o ≡ true → Has k (d.tools ++ (far, t) ∷ []))
                (t.site_id == k) (some _) (lookup k d.sites)
                (λ same _. (_, (eq_iff t.site_id k).0 same, append_right d.tools (Memᴰ.head refl)))
                (λ _ old. Has-append k d.tools _ (v k old))
                (sym (ap is_some (lookup-insert t.site_id k far d.sites)) ∙ known),
          (_, refl, append_right d.tools (Memᴰ.head refl)),
        )

    add_candidates-Has :
        (k : String) (ts : List (SliverTool F)) (d : Distances F) (g : G)
        → Has k d.tools
        → OnOk (HasListed k) (add_candidates env lat lon ts d g).0
    unfolding add_candidates
    add_candidates-Has k [] d g h = h
    add_candidates-Has k (t ∷ ts) d g h =
        then_add-OnOk env (HasListed k) (HasListed k) _ _ _
          (if_elim (OnOk (HasListed k)) (is_under (t, (env.rng.uniform g).0)) _ (ok d)
            (λ _. add_candidate-Has k t d h) (λ _. h))
          (λ d' h'. add_candidates-Has k ts d' _ h')

    abbrev Covers : List (SliverTool F × F) → Distances F → Type 0
    Covers xs d = All (λ x. is_under x ≡ true → Has x.0.site_id d.tools) xs

    abbrev Step : SliverTool F → F → Distances F → Type 0
    Step t u e = IsListed e × (is_under (t, u) ≡ true → Has t.site_id e.tools)

    add_candidates-Covers :
        (ts : List (SliverTool F)) (d : Distances F) (g : G)
        → IsListed d
        → OnOk (Covers (drawn ts g)) (add_candidates env lat lon ts d g).0
    unfolding add_candidates drawn
    add_candidates-Covers [] d g v = tt
    add_candidates-Covers (t ∷ ts) d g v =
        let (u, g') = env.rng.uniform g in
        then_add-OnOk env (Step t u) (Covers (drawn (t ∷ ts) g)) _ g' _
          (if_elim (OnOk (Step t u)) (is_under (t, u)) _ (ok d)
            (λ _.
              OnOk-map (λ (e : Distances F). IsListed e × Has t.site_id e.tools) (Step t u) _
                (λ e h. (h.0, λ _. h.1)) (add_candidate-IsListed t d v))
            (λ over. (v, λ under. absurd (cc (over, under)))))
          (λ d' step.
            OnOk-and (λ (e : Distances F). is_under (t, u) ≡ true → Has t.site_id e.tools)
              (Covers (drawn ts g')) (add_candidates env lat lon ts d' g').0
              (OnOk-under (HasListed t.site_id) _ (is_under (t, u))
                (λ under. add_candidates-Has t.site_id ts d' g' (step.1 under)))
              (add_candidates-Covers ts d' g' step.0))
      where
        OnOk-under :
            (P : Distances F → Type 0) (r : Result (Distances F)) (b : Bool)
            → (b ≡ true → OnOk P r)
            → OnOk (λ d. b ≡ true → P d) r
        OnOk-under P (raise e) b h = tt
        OnOk-under P (ok d) b h = h

    -- Where the distances can be computed, the site of each candidate whose number is under the
    -- probability of the site stands in the ranking.
    pub ranking-IsCovered :
        (filtered : List (SliverTool F)) (g : G)
        → OnOk
            (λ d. All (IsCovered (ranking env d)) (drawn filtered g))
            (add_candidates env lat lon filtered no_distances g).0
    ranking-IsCovered filtered g =
        OnOk-map (Covers (drawn filtered g)) _ _ (λ d. All-map _ _ (drawn filtered g) (ranked d))
          (add_candidates-Covers filtered no_distances g (λ k known. absurd (cc)))
      where
        ranked :
            (d : Distances F) (x : SliverTool F × F)
            → (is_under x ≡ true → Has x.0.site_id d.tools)
            → IsCovered (ranking env d) x
        ranked d x h under =
            let (y, e, m) = h under in
            (y.1, e, Memᴰ-map y _ (Memᴰ-Permᴰ (sort_by_distance-perm env.fl _) m))
