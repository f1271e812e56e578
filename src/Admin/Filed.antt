-- ===== src/Admin/Filed.antt =====
-- What the map shows of a city.
use mlab_ns.Base.{
  String, true, Option, none, some, List, [], ◌∷◌, ◌++◌, ◌≡◌, refl, sym, subst, if_elim, All,
  All-append, All-map_of, All-Permᴰ, All-self, Memᴰ, Permᴰ,
}
use mlab_ns.Base.Dict.{lookup, values, All-insert, All-lookup}
use mlab_ns.Base.Errors.{Result, ok, raise, ◌>>=◌}
use mlab_ns.Model.{SliverTool, Site}
use mlab_ns.IpUpdate.{Production, is_production_slice}
use mlab_ns.Admin.{
  SliverToolInfo, SiteInfo, Rendering, info_of_site, add_sites, add_cities, changed, change_at,
  with_sliver, info_of, add_sliver, add_slivers, file_site, file_sites, get_sites_info,
}

module _ {V : Type 0} where
  -- Where there is a dict, all its items have Q.
  abbrev pub Gives : (String × V → Type 0) → Result (List (String × V)) → Type 0
  Gives Q (raise e) = Unit
  Gives Q (ok d) = All Q d

  pub change_at-Gives :
      (Q : String × V → Type 0) (f : V → V) (key : String) (d : List (String × V))
      → ((v : V) → Q (key, v) → Q (key, f v))
      → All Q d
      → Gives Q (change_at f key d)
  change_at-Gives Q f key d step h = by_found (lookup key d) refl
    where
      by_found : (o : Option V) → lookup key d ≡ o → Gives Q (changed f key d o)
      by_found none e = tt
      by_found (some v) e = All-insert Q key (f v) d (step v (All-lookup Q key v d h e)) h

module _ {V W : Type 0} where
  pub Gives-then :
      (P : String × V → Type 0) (Q : String × W → Type 0) (r : Result (List (String × V)))
      (f : List (String × V) → Result (List (String × W)))
      → Gives P r
      → ((d : List (String × V)) → All P d → Gives Q (f d))
      → Gives Q (r >>= f)
  Gives-then P Q (raise e) f h step = tt
  Gives-then P Q (ok d) f h step = step d h

module _ {F : Type 0} (p : Production) (r : Rendering F) (family : String)
    (shown : List (SliverTool F)) where
  -- What is shown of a sliver at a site is that of a sliver there, in production.
  abbrev pub IsOfSite : String → SliverToolInfo → Type 0
  IsOfSite site_id info =
      (t : SliverTool F) × Memᴰ t shown
      × (is_production_slice p t.fqdn ≡ true)
      × (t.site_id ≡ site_id)
      × (info ≡ info_of p r family t)

  abbrev pub HasItsSlivers : SiteInfo F → Type 0
  HasItsSlivers i = All (IsOfSite i.site_id) i.sliver_tools

  abbrev pub FiledById : String × SiteInfo F → Type 0
  FiledById e = (e.1.site_id ≡ e.0) × HasItsSlivers e.1

  -- A site under the name of its city, with its slivers.
  abbrev pub FiledByCity : String × List (SiteInfo F) → Type 0
  FiledByCity e = All (λ i. (i.city ≡ e.0) × HasItsSlivers i) e.1

  pub add_sites-FiledById :
      (sites : List (Site F)) (d : List (String × SiteInfo F))
      → All FiledById d
      → All FiledById (add_sites sites d)
  unfolding add_sites
  add_sites-FiledById [] d h = h
  add_sites-FiledById (s ∷ ss) d h =
      add_sites-FiledById ss _ (All-insert FiledById s.site_id (info_of_site s) d (refl, tt) h)

  add_cities-FiledByCity :
      (sites : List (Site F)) (d : List (String × List (SiteInfo F)))
      → All FiledByCity d
      → All FiledByCity (add_cities sites d)
  unfolding add_cities
  add_cities-FiledByCity [] d h = h
  add_cities-FiledByCity (s ∷ ss) d h =
      add_cities-FiledByCity ss _ (All-insert FiledByCity s.city [] d tt h)

  add_sliver-FiledById :
      (t : SliverTool F) (d : List (String × SiteInfo F))
      → Memᴰ t shown
      → All FiledById d
      → Gives FiledById (add_sliver p r family t d)
  add_sliver-FiledById t d m h =
      if_elim (Gives FiledById) (is_production_slice p t.fqdn) _ (ok d)
        (λ production.
          change_at-Gives FiledById (with_sliver (info_of p r family t)) t.site_id d
            (λ i q. (
              q.0,
              All-append (IsOfSite i.site_id) i.sliver_tools _ q.1
                  ((t, m, production, sym q.0, refl), tt),
            ))
            h)
        (λ _. h)

  pub add_slivers-FiledById :
      (ts : List (SliverTool F)) (d : List (String × SiteInfo F))
      → All (λ t. Memᴰ t shown) ts
      → All FiledById d
      → Gives FiledById (add_slivers p r family ts d)
  unfolding add_slivers
  add_slivers-FiledById [] d m h = h
  add_slivers-FiledById (t ∷ ts) d (m, ms) h =
      Gives-then FiledById FiledById (add_sliver p r family t d) _ (add_sliver-FiledById t d m h)
        (λ d' h'. add_slivers-FiledById ts d' ms h')

  file_sites-FiledByCity :
      (is : List (SiteInfo F)) (d : List (String × List (SiteInfo F)))
      → All HasItsSlivers is
      → All FiledByCity d
      → Gives FiledByCity (file_sites p r family is d)
  unfolding file_sites
  file_sites-FiledByCity [] d k h = h
  file_sites-FiledByCity (i ∷ is) d (q, k) h =
      Gives-then FiledByCity FiledByCity (file_site p r family i d) _
        (change_at-Gives FiledByCity (λ infos. infos ++ i ∷ []) i.city d
          (λ infos hs. All-append _ infos _ hs ((refl, q), tt)) h)
        (λ d' h'. file_sites-FiledByCity is d' k h')

  -- Where the map of the slivers is shown, every site stands under the name of its city, and what is
  -- shown of a sliver at a site is that of one of the slivers, which stands at the site and is in
  -- production.
  pub get_sites_info-FiledByCity :
      ((is : List (SiteInfo F)) → Permᴰ is (r.items is))
      → (sites : List (Site F)) (d : List (String × List (SiteInfo F)))
      → get_sites_info p r family sites shown ≡ ok d
      → All FiledByCity d
  unfolding get_sites_info
  get_sites_info-FiledByCity perm sites d e = subst (Gives FiledByCity) e (
      Gives-then FiledById FiledByCity (add_slivers p r family shown (add_sites sites [])) _
        (add_slivers-FiledById shown _ (All-self shown) (add_sites-FiledById sites [] tt))
        (λ d' h'.
          file_sites-FiledByCity (r.items (values d')) _
            (All-Permᴰ HasItsSlivers (perm (values d')) (
              All-map_of FiledById HasItsSlivers (λ (x : String × SiteInfo F). x.1) d' (λ x q. q.1)
                h'))
            (add_cities-FiledByCity sites [] tt)))
