-- ===== src/Admin/Complete.antt =====
-- Every sliver in production is on the map.
use mlab_ns.Base.{
  String, true, Option, none, some, List, [], ◌∷◌, ◌++◌, ◌==◌, ◌≡◌, refl, sym, ap, ◌∙◌, subst,
  if_elim, All, Memᴰ, Permᴰ, Memᴰ-Permᴰ, All-map, All-self, All-Memᴰ, eq_iff, inl, inr, Bool-cases,
}
use mathlib.Core.Option.{some-injective}
use mlab_ns.Base.Dict.{lookup, insert, values, lookup-insert, Memᴰ-lookup, All-lookup}
use mlab_ns.Base.Errors.{Result, ok, >>=-eq-ok, ok-injective}
use mlab_ns.Model.{SliverTool, Site}
use mlab_ns.IpUpdate.{Production, is_production_slice}
use mlab_ns.Admin.Filed.{Gives, FiledById, add_sites-FiledById, add_slivers-FiledById}
use mlab_ns.Admin.{
  SliverToolInfo, SiteInfo, Rendering, add_sites, add_cities, changed, change_at, with_sliver,
  info_of, add_sliver, add_slivers, file_site, file_sites, get_sites_info,
}

Memᴰ_append : {A : Type 0} {a : A} (xs ys : List A) → Memᴰ a xs → Memᴰ a (xs ++ ys)
Memᴰ_append [] ys m = elim m [ ]
Memᴰ_append (x ∷ xs) ys (Memᴰ.head e) = Memᴰ.head e
Memᴰ_append (x ∷ xs) ys (Memᴰ.tail m) = Memᴰ.tail (Memᴰ_append xs ys m)

Memᴰ_last : {A : Type 0} (xs : List A) (a : A) → Memᴰ a (xs ++ a ∷ [])
Memᴰ_last [] a = Memᴰ.head refl
Memᴰ_last (x ∷ xs) a = Memᴰ.tail (Memᴰ_last xs a)

module _ {V W : Type 0} (items : V → List W) where
  -- Under the key there is a value with the item.
  abbrev pub Under : String → W → List (String × V) → Type 0
  Under k w d = (v : V) × (lookup k d ≡ some v) × Memᴰ w (items v)

  -- A change that adds an item at a key adds it there, and takes none away.
  module _ (f : W → V → V) (adds : (w : W) (v : V) → Memᴰ w (items (f w v)))
      (keeps : (w u : W) (v : V) → Memᴰ u (items v) → Memᴰ u (items (f w v))) where
    insert-Under :
        (k j : String) (w u : W) (v : V) (d : List (String × V))
        → lookup j d ≡ some v
        → Under k u d
        → Under k u (insert j (f w v) d)
    insert-Under k j w u v d at (x, found, m) = elim (Bool-cases (j == k)) [
      | inl e ↦
          let same =
            some-injective _ _
              (sym at ∙ ap (λ (i : String). lookup i d) ((eq_iff j k).0 e) ∙ found) in
          (
            f w v,
            lookup-insert j k (f w v) d ∙ rw e refl,
            keeps w u v (subst (λ y. Memᴰ u (items y)) (sym same) m),
          )
      | inr e ↦ (x, lookup-insert j k (f w v) d ∙ rw e found, m)
    ]

    pub change_at-Under :
        (k j : String) (w u : W) (d d' : List (String × V))
        → change_at (f w) j d ≡ ok d'
        → Under k u d
        → Under k u d'
    change_at-Under k j w u d d' e h = by_found (lookup j d) refl e
      where
        by_found : (o : Option V) → lookup j d ≡ o → changed (f w) j d o ≡ ok d' → Under k u d'
        by_found none at e = absurd (cc)
        by_found (some v) at e = subst (Under k u) (ok-injective e) (insert-Under k j w u v d at h)

    pub change_at-Under_new :
        (j : String) (w : W) (d d' : List (String × V)) → change_at (f w) j d ≡ ok d' → Under j w d'
    change_at-Under_new j w d d' e = by_found (lookup j d) refl e
      where
        by_found : (o : Option V) → lookup j d ≡ o → changed (f w) j d o ≡ ok d' → Under j w d'
        by_found none at e = absurd (cc)
        by_found (some v) at e =
            subst (Under j w) (ok-injective e)
              (f w v, lookup-insert j j (f w v) d ∙ rw ((eq_iff j j).1 refl) refl, adds w v)

module _ {F : Type 0} (p : Production) (r : Rendering F) (family : String) where
  abbrev HasInfo : String → SliverToolInfo → List (String × SiteInfo F) → Type 0
  HasInfo k u d = Under (λ (i : SiteInfo F). i.sliver_tools) k u d

  -- What is shown at a site stays.
  abbrev Grows : List (String × SiteInfo F) → List (String × SiteInfo F) → Type 0
  Grows d d' = (k : String) (u : SliverToolInfo) → HasInfo k u d → HasInfo k u d'

  -- The sliver, if it is in production, is shown at its site.
  abbrev IsAtSite : List (String × SiteInfo F) → SliverTool F → Type 0
  IsAtSite d t = is_production_slice p t.fqdn ≡ true → HasInfo t.site_id (info_of p r family t) d

  add_sliver-IsAtSite :
      (t : SliverTool F) (d d' : List (String × SiteInfo F))
      → add_sliver p r family t d ≡ ok d'
      → Grows d d' × IsAtSite d' t
  add_sliver-IsAtSite t d d' e =
      if_elim
        (λ (x : Result (List (String × SiteInfo F))).
          x ≡ ok d'
          → Grows d d'
            × (is_production_slice p t.fqdn ≡ true → HasInfo t.site_id (info_of p r family t) d'))
        (is_production_slice p t.fqdn) _ (ok d)
        (λ _ changes. (
          λ k u.
              change_at-Under (λ i. i.sliver_tools) with_sliver (λ w v. Memᴰ_last v.sliver_tools w)
                (λ w u' v m. Memᴰ_append v.sliver_tools (w ∷ []) m) k t.site_id
                (info_of p r family t) u d d' changes,
          λ _.
              change_at-Under_new (λ i. i.sliver_tools) with_sliver
                (λ w v. Memᴰ_last v.sliver_tools w)
                (λ w u' v m. Memᴰ_append v.sliver_tools (w ∷ []) m) t.site_id (info_of p r family t)
                d d' changes,
        ))
        (λ other same. (
          λ k u h. subst (HasInfo k u) (ok-injective same) h,
          λ production. absurd (cc (production, other)),
        ))
        e

  add_slivers-IsAtSite :
      (ts : List (SliverTool F)) (d d' : List (String × SiteInfo F))
      → add_slivers p r family ts d ≡ ok d'
      → Grows d d' × All (IsAtSite d') ts
  unfolding add_slivers
  add_slivers-IsAtSite [] d d' e = (λ k u h. subst (HasInfo k u) (ok-injective e) h, tt)
  add_slivers-IsAtSite (t ∷ ts) d d' e =
      let (d1, first, rest) = >>=-eq-ok (add_sliver p r family t d) _ e in
      let (grows1, at) = add_sliver-IsAtSite t d d1 first in
      let (grows2, all) = add_slivers-IsAtSite ts d1 d' rest in
      (
        λ k u h. grows2 k u (grows1 k u h),
        (λ production. grows2 t.site_id (info_of p r family t) (at production), all),
      )

  -- A site is listed under its city.
  abbrev IsListed : List (String × List (SiteInfo F)) → SiteInfo F → Type 0
  IsListed d i = Under (λ (infos : List (SiteInfo F)). infos) i.city i d

  abbrev append_info : SiteInfo F → List (SiteInfo F) → List (SiteInfo F)
  append_info i infos = infos ++ i ∷ []

  file_sites-IsListed :
      (is : List (SiteInfo F)) (d d' : List (String × List (SiteInfo F)))
      → file_sites p r family is d ≡ ok d'
      → ((k : String) (i : SiteInfo F)
          → Under (λ (infos : List (SiteInfo F)). infos) k i d
          → Under (λ (infos : List (SiteInfo F)). infos) k i d')
        × All (IsListed d') is
  unfolding file_sites
  file_sites-IsListed [] d d' e =
      (λ k i h. subst (Under (λ (infos : List (SiteInfo F)). infos) k i) (ok-injective e) h, tt)
  file_sites-IsListed (i ∷ is) d d' e =
      let (d1, first, rest) = >>=-eq-ok (file_site p r family i d) _ e in
      let (grows, all) = file_sites-IsListed is d1 d' rest in
      (
        λ k u h. grows k u (
            change_at-Under (λ infos. infos) append_info (λ w v. Memᴰ_last v w)
              (λ w u' v m. Memᴰ_append v (w ∷ []) m) k i.city i u d d1 first h),
        (
          grows i.city i (
              change_at-Under_new (λ infos. infos) append_info (λ w v. Memᴰ_last v w)
                (λ w u' v m. Memᴰ_append v (w ∷ []) m) i.city i d d1 first),
          all,
        ),
      )

  -- The sliver is on the map: at its site, which is listed under the name of its city.
  pub record IsOnMap (cities : List (String × List (SiteInfo F))) (t : SliverTool F) : Type 0 where
    pub site : SiteInfo F
    pub infos : List (SiteInfo F)
    pub same : site.site_id ≡ t.site_id
    pub city : lookup site.city cities ≡ some infos
    pub listed : Memᴰ site infos
    pub shown : Memᴰ (info_of p r family t) site.sliver_tools

  -- Where the map is shown, every sliver in production is on it.
  pub get_sites_info-IsOnMap :
      ((is : List (SiteInfo F)) → Permᴰ is (r.items is))
      → (sites : List (Site F)) (ts : List (SliverTool F))
      → (cities : List (String × List (SiteInfo F)))
      → get_sites_info p r family sites ts ≡ ok cities
      → All (λ t. is_production_slice p t.fqdn ≡ true → IsOnMap cities t) ts
  unfolding get_sites_info
  get_sites_info-IsOnMap perm sites ts cities e =
      let (d, added, filed) = >>=-eq-ok (add_slivers p r family ts (add_sites sites [])) _ e in
      let by_id = subst (Gives (FiledById p r family ts)) added (
        add_slivers-FiledById p r family ts ts (add_sites sites []) (All-self ts)
          (add_sites-FiledById p r family ts sites [] tt)) in
      let (grows, all) = add_slivers-IsAtSite ts (add_sites sites []) d added in
      let (grows', listed) =
        file_sites-IsListed (r.items (values d)) (add_cities sites []) cities filed in
      All-map _ _ ts
        (λ t at production.
          let (i, found, shown) = at production in
          let (infos, city, in_city) =
            All-Memᴰ (IsListed cities) listed
              (Memᴰ-Permᴰ (perm (values d)) (Memᴰ-lookup t.site_id i d found)) in
          record {
            site = i;
            infos = infos;
            same = (All-lookup (FiledById p r family ts) t.site_id i d by_id found).0;
            city = city;
            listed = in_city;
            shown = shown;
          })
        all
