-- ===== src/Registration/Listed.antt =====
-- The sites after a registration are those that are listed, whatever is stored.
use mlab_ns.Base.{
  ℕ, String, Bool, true, ◌||◌, not, Option, none, some, List, [], ◌∷◌, ◌==◌, map, keep, contains,
  if◌then◌else◌, ◌≡◌, refl, sym, ap, ◌∙◌, arith, eq_iff, All, All-map, All-self, Memᴰ,
}
use mlab_ns.Base.Dict.{lookup, values, lookup-insert}
use mlab_ns.Runtime.{FloatOps}
use mlab_ns.Model.{Site}
use mlab_ns.IpUpdate.{Production}
use mlab_ns.Registration.{
  SiteInfo, ValidSite, with_some, valid_site, valid_sites, site_of, put_site, update_site, register,
  register_sites,
}

-- A text of a list is among those with a property or among those without it.
contains-split :
    (test : String → Bool) (s : String) (ids : List String)
    → contains s ids ≡ true
    → (contains s (keep (λ id. not (test id)) ids) || contains s (keep test ids)) ≡ true
contains-split test s [] e = absurd (cc)
contains-split test s (t ∷ ts) e = ground (arith, eq_iff s t, contains-split test s ts)

module _ {F : Type 0} where
  abbrev pub or_else : Option (Site F) → Option (Site F) → Option (Site F)
  or_else none o = o
  or_else (some x) o = some x

  or_else_assoc : (a b c : Option (Site F)) → or_else a (or_else b c) ≡ or_else (or_else a b) c
  or_else_assoc none b c = refl
  or_else_assoc (some x) b c = refl

  or_else-none : (o : Option (Site F)) → or_else o none ≡ o
  or_else-none none = refl
  or_else-none (some x) = refl

  contains-map :
      (v : ValidSite F) (vs : List (ValidSite F))
      → Memᴰ v vs
      → contains v.site (map (λ (w : ValidSite F). w.site) vs) ≡ true
  contains-map v [] m = elim m [ ]
  contains-map v (w ∷ vs) (Memᴰ.head e) =
      ground (arith, eq_iff v.site w.site, ap (λ (u : ValidSite F). u.site) e)
  contains-map v (w ∷ vs) (Memᴰ.tail m) = ground (arith, contains-map v vs m)

module _ {F : Type 0} (fl : FloatOps F) (now : ℕ) (stores : Site F → Bool) (p : Production) where
  -- What an entry puts under an id.
  abbrev pub put_under : String → Option (Site F) → Option (Site F)
  put_under id none = none
  put_under id (some x) = if stores x then (if x.site_id == id then some x else none) else none

  abbrev pub entity_of : Option (ValidSite F) → Option (Site F)
  entity_of none = none
  entity_of (some v) = site_of fl now stores v

  -- What the last entry puts that is valid, is in production, has the id and coordinates that are
  -- numbers, and is written.
  abbrev pub last_listed : String → List (SiteInfo F) → Option (Site F)
  last_listed id [] = none
  last_listed id (i ∷ is) = or_else (last_listed id is) (put_under id (entity_of (valid_site p i)))

  last_valid : String → List (ValidSite F) → Option (Site F)
  last_valid id [] = none
  last_valid id (v ∷ vs) = or_else (last_valid id vs) (put_under id (site_of fl now stores v))

  last_valid-valid_sites :
      (id : String) (is : List (SiteInfo F)) → last_valid id (valid_sites p is) ≡ last_listed id is
  unfolding last_valid valid_sites
  last_valid-valid_sites id [] = refl
  last_valid-valid_sites id (i ∷ is) =
      with_first (valid_site p i)
      ∙ ap (λ o. or_else o (put_under id (entity_of (valid_site p i))))
          (last_valid-valid_sites id is)
    where
      with_first :
          (o : Option (ValidSite F))
          → last_valid id (with_some o (valid_sites p is))
            ≡ or_else (last_valid id (valid_sites p is)) (put_under id (entity_of o))
      with_first none = sym (or_else-none _)
      with_first (some v) = refl

  lookup-put_site :
      (id : String) (o : Option (Site F)) (sites : List (String × Site F))
      → lookup id (put_site fl now stores o sites).1 ≡ or_else (put_under id o) (lookup id sites)
  lookup-put_site id none sites = refl
  lookup-put_site id (some x) sites = ground (arith, lookup-insert x.site_id id x sites)

  lookup-register :
      (new unchanged : List String) (id : String) (vs : List (ValidSite F))
      (sites : List (String × Site F))
      → All (λ v. (contains v.site new || contains v.site unchanged) ≡ true) vs
      → lookup id (register fl now stores new unchanged vs sites)
        ≡ or_else (last_valid id vs) (lookup id sites)
  unfolding register update_site last_valid
  lookup-register new unchanged id [] sites h = refl
  lookup-register new unchanged id (v ∷ vs) sites (e, h) = rw e (
      lookup-register new unchanged id vs (put_site fl now stores (site_of fl now stores v) sites).1
        h
      ∙ (ap (or_else (last_valid id vs)) (lookup-put_site id (site_of fl now stores v) sites)
          ∙ or_else_assoc (last_valid id vs) _ _))

  -- After a registration, what is stored under an id is what the last entry puts that is valid, in
  -- production, has that id, coordinates that are numbers, and is written; and where there is none,
  -- what was stored before. Which sites were stored before makes no difference to what is put.
  pub lookup-register_sites :
      (id : String) (infos : List (SiteInfo F)) (sites : List (String × Site F))
      → lookup id (register_sites fl now stores p infos sites)
        ≡ or_else (last_listed id infos) (lookup id sites)
  unfolding register_sites
  lookup-register_sites id infos sites =
      lookup-register _ _ id (valid_sites p infos) sites (
        All-map _ _ (valid_sites p infos)
          (λ v m.
            contains-split (λ s. contains s (map (λ (x : Site F). x.site_id) (values sites))) v.site
              _ (contains-map v _ m))
          (All-self (valid_sites p infos)))
      ∙ ap (λ o. or_else o (lookup id sites)) (last_valid-valid_sites id infos)
