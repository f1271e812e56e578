-- ===== src/Admin/Shown.antt =====
-- The map is shown where every sliver in production stands at a site that is stored.
use mlab_ns.Base.{
  String, true, Option, none, some, List, [], ◌∷◌, ◌++◌, ◌≡◌, refl, sym, ap, ◌∙◌, subst, if_elim,
  All, All-map, All-map_of, Memᴰ, All-Permᴰ, Memᴰ, Permᴰ, is_some,
}
use mlab_ns.Base.Dict.{lookup, insert, values, All-insert, Has, insert-Has, insert-Has-self}
use mlab_ns.Base.Errors.{Result, ok, raise, ◌>>=◌}
use mlab_ns.Model.{SliverTool, Site}
use mlab_ns.IpUpdate.{Production, is_production_slice}
use mlab_ns.Admin.{
  SiteInfo, Rendering, info_of_site, add_sites, add_cities, changed, change_at, with_sliver,
  info_of, add_sliver, add_slivers, file_site, file_sites, get_sites_info,
}
use mlab_ns.Admin.Filed.{
  Gives, Gives-then, change_at-Gives, FiledByCity, get_sites_info-FiledByCity,
}

module _ {V : Type 0} where
  -- A dict comes of it, with all keys that there were.
  abbrev Keeps : List (String × V) → Result (List (String × V)) → Type 0
  Keeps d r = (d' : List (String × V)) × (r ≡ ok d') × ((k : String) → Has k d → Has k d')

  change_at-Keeps :
      (f : V → V) (key : String) (d : List (String × V)) → Has key d → Keeps d (change_at f key d)
  change_at-Keeps f key d h = by_found (lookup key d) h
    where
      by_found : (o : Option V) → is_some o ≡ true → Keeps d (changed f key d o)
      by_found none e = absurd (cc)
      by_found (some v) e = (insert key (f v) d, refl, λ k h. insert-Has k key (f v) d h)

  Keeps-then :
      (d : List (String × V)) (r : Result (List (String × V)))
      (f : List (String × V) → Result (List (String × V)))
      → Keeps d r
      → ((d' : List (String × V)) → ((k : String) → Has k d → Has k d') → Keeps d' (f d'))
      → Keeps d (r >>= f)
  Keeps-then d (raise e) f (d', h, keys) step = absurd (cc h)
  Keeps-then d (ok x) f (d', h, keys) step =
      let (d'', h'', keys'') = step d' keys in
      (
        d'',
        subst (λ (r : Result (List (String × V))). (r >>= f) ≡ ok d'') (sym h) h'',
        λ k m. keys'' k (keys k m),
      )

module _ {F : Type 0} (p : Production) (r : Rendering F) (family : String) where
  add_sites-Has :
      (k : String) (sites : List (Site F)) (d : List (String × SiteInfo F))
      → Has k d
      → Has k (add_sites sites d)
  unfolding add_sites
  add_sites-Has k [] d h = h
  add_sites-Has k (s ∷ ss) d h = add_sites-Has k ss _ (insert-Has k s.site_id (info_of_site s) d h)

  add_cities-Has :
      (k : String) (sites : List (Site F)) (d : List (String × List (SiteInfo F)))
      → Has k d
      → Has k (add_cities sites d)
  unfolding add_cities
  add_cities-Has k [] d h = h
  add_cities-Has k (s ∷ ss) d h = add_cities-Has k ss _ (insert-Has k s.city [] d h)

  -- The site of a stored site id is there.
  add_sites-Has_site :
      (s : Site F) (sites : List (Site F)) (d : List (String × SiteInfo F))
      → Memᴰ s sites
      → Has s.site_id (add_sites sites d)
  unfolding add_sites
  add_sites-Has_site s [] d m = elim m [ ]
  add_sites-Has_site s (t ∷ ts) d (Memᴰ.head e) = add_sites-Has s.site_id ts _ (
      subst (λ (u : Site F). Has s.site_id (insert u.site_id (info_of_site u) d)) e
        (insert-Has-self s.site_id (info_of_site s) d))
  add_sites-Has_site s (t ∷ ts) d (Memᴰ.tail m) = add_sites-Has_site s ts _ m

  add_cities-Has_city :
      (sites : List (Site F)) (d : List (String × List (SiteInfo F)))
      → All (λ (s : Site F). Has s.city (add_cities sites d)) sites
  unfolding add_cities
  add_cities-Has_city [] d = tt
  add_cities-Has_city (s ∷ ss) d =
      (add_cities-Has s.city ss _ (insert-Has-self s.city [] d), add_cities-Has_city ss _)

  -- A sliver in production stands at a site that is known.
  abbrev IsPlaced : List (String × SiteInfo F) → SliverTool F → Type 0
  IsPlaced d t = is_production_slice p t.fqdn ≡ true → Has t.site_id d

  add_slivers-Keeps :
      (ts : List (SliverTool F)) (d : List (String × SiteInfo F))
      → All (IsPlaced d) ts
      → Keeps d (add_slivers p r family ts d)
  unfolding add_slivers
  add_slivers-Keeps [] d h = (d, refl, λ k m. m)
  add_slivers-Keeps (t ∷ ts) d (placed, h) =
      Keeps-then d (add_sliver p r family t d) _
        (if_elim (Keeps d) (is_production_slice p t.fqdn) _ (ok d)
          (λ production.
            change_at-Keeps (with_sliver (info_of p r family t)) t.site_id d (placed production))
          (λ _. (d, refl, λ k m. m)))
        (λ d' keys.
          add_slivers-Keeps ts d' (All-map _ (IsPlaced d') ts (λ u g e. keys u.site_id (g e)) h))

  module _ (cities : List (String × List (SiteInfo F))) where
    abbrev HasCity : String × SiteInfo F → Type 0
    HasCity e = Has e.1.city cities

    add_slivers-HasCity :
        (ts : List (SliverTool F)) (d : List (String × SiteInfo F))
        → All HasCity d
        → Gives HasCity (add_slivers p r family ts d)
    unfolding add_slivers
    add_slivers-HasCity [] d h = h
    add_slivers-HasCity (t ∷ ts) d h =
        Gives-then HasCity HasCity (add_sliver p r family t d) _
          (if_elim (Gives HasCity) (is_production_slice p t.fqdn) _ (ok d)
            (λ _.
              change_at-Gives HasCity (with_sliver (info_of p r family t)) t.site_id d (λ i c. c) h)
            (λ _. h))
          (λ d' h'. add_slivers-HasCity ts d' h')

    add_sites-HasCity :
        (sites : List (Site F)) (d : List (String × SiteInfo F))
        → All (λ (s : Site F). Has s.city cities) sites
        → All HasCity d
        → All HasCity (add_sites sites d)
    unfolding add_sites
    add_sites-HasCity [] d k h = h
    add_sites-HasCity (s ∷ ss) d (city, k) h =
        add_sites-HasCity ss _ k (All-insert HasCity s.site_id (info_of_site s) d city h)

  file_sites-Keeps :
      (is : List (SiteInfo F)) (d : List (String × List (SiteInfo F)))
      → All (λ i. Has i.city d) is
      → Keeps d (file_sites p r family is d)
  unfolding file_sites
  file_sites-Keeps [] d h = (d, refl, λ k m. m)
  file_sites-Keeps (i ∷ is) d (city, h) =
      Keeps-then d (file_site p r family i d) _
        (change_at-Keeps (λ infos. infos ++ i ∷ []) i.city d city)
        (λ d' keys.
          file_sites-Keeps is d' (All-map _ (λ j. Has j.city d') is (λ j m. keys j.city m) h))

  -- The site of a sliver in production is stored.
  abbrev pub IsStored : List (Site F) → SliverTool F → Type 0
  IsStored sites t =
      is_production_slice p t.fqdn ≡ true → (s : Site F) × Memᴰ s sites × (s.site_id ≡ t.site_id)

  -- Where the site of every sliver in production is stored, the map is shown, in whatever order a dict
  -- gives its items: with every city that has a site, every site under the name of its city, and at
  -- a site only what is shown of slivers in production that stand there.
  pub get_sites_info_shown :
      ((is : List (SiteInfo F)) → Permᴰ is (r.items is))
      → (sites : List (Site F)) (slivers : List (SliverTool F)) → All (IsStored sites) slivers
      → (d : List (String × List (SiteInfo F))) × (get_sites_info p r family sites slivers ≡ ok d)
        × All (λ (s : Site F). Has s.city d) sites
        × All (FiledByCity p r family slivers) d
  unfolding get_sites_info
  get_sites_info_shown perm sites slivers h =
      let cities = add_cities sites [] in
      let placed =
        All-map _ (IsPlaced (add_sites sites [])) slivers
          (λ t stored e.
            let (s, m, same) = stored e in
            subst (λ (id : String). Has id (add_sites sites [])) same
              (add_sites-Has_site s sites [] m))
          h in
      let (d, added, _) = add_slivers-Keeps slivers (add_sites sites []) placed in
      let known = subst (Gives (HasCity cities)) added (
        add_slivers-HasCity cities slivers (add_sites sites [])
          (add_sites-HasCity cities sites [] (add_cities-Has_city sites []) tt)) in
      let (d', filed, keys) = file_sites-Keeps (r.items (values d)) cities (
        All-Permᴰ (λ (i : SiteInfo F). Has i.city cities) (perm (values d))
          (All-map_of (HasCity cities) (λ (i : SiteInfo F). Has i.city cities)
            (λ (e : String × SiteInfo F). e.1) d (λ e c. c) known)) in
      let shown =
        ap
          (λ (x : Result (List (String × SiteInfo F))).
            x >>= (λ d. file_sites p r family (r.items (values d)) cities))
          added
        ∙ filed in
      (
        d',
        shown,
        All-map _ (λ (s : Site F). Has s.city d') sites (λ s m. keys s.city m)
            (add_cities-Has_city sites []),
        get_sites_info-FiledByCity p r family slivers perm sites d' shown,
      )
