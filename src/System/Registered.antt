-- ===== src/System/Registered.antt =====
-- A run of the registration of sites is a sequence of steps of the system.
use mlab_ns.Base.{
  ℕ, String, Bool, false, ◌||◌, Option, none, some, List, [], ◌∷◌, if_elim, contains,
}
use mlab_ns.Runtime.{FloatOps}
use mlab_ns.Model.{Site}
use mlab_ns.Status.{Write}
use mlab_ns.Page.{Answer, received, http_error, url_error, succeeded-keeps}
use mlab_ns.IpUpdate.{Row}
use mlab_ns.Store.{Store, Platform}
use mlab_ns.AddressHandler.{Addresses, update, update_addresses}
use mlab_ns.Registration.{
  SiteInfo, ValidSite, site_of, put_site, update_site, register, register_sites, get,
}
use mlab_ns.System.{addresses, site, Reach, next}
use mlab_ns.System.Handlers.{at_rest, apply_writes-Reach}

module _ {F G : Type 0} (p : Platform F G) (pending : List (Write F)) where
  -- The state with this store is reached.
  abbrev Reached : Store F → Type 0
  Reached s = Reach p (at_rest p pending s)

  update_addresses-Reached :
      (a : Addresses F) (h : Answer (Option (List Row))) (s : Store F)
      → Reached s
      → Reached (update_addresses a h s).1
  update_addresses-Reached a http_error s r = r
  update_addresses-Reached a url_error s r = r
  update_addresses-Reached a (received none) s r = r
  update_addresses-Reached a (received (some rows)) s r =
      apply_writes-Reach p a.ends _ pending s (next r (addresses a.now a.production rows))

  -- A run of the update of the addresses, however it ends, is a sequence of steps.
  pub update-Reached : (a : Addresses F) (s : Store F) → Reached s → Reached (update a s).1
  unfolding update
  update-Reached a s r = update_addresses-Reached a a.hostnames s r

  module _ (fl : FloatOps F) (now : ℕ) (stores : Site F → Bool) (s : Store F) where
    abbrev WithSites : List (String × Site F) → Type 0
    WithSites sites = Reached (record s { sites = sites })

    put_site-Reached :
        (o : Option (Site F)) (sites : List (String × Site F))
        → WithSites sites
        → WithSites (put_site fl now stores o sites).1
    put_site-Reached none sites r = r
    put_site-Reached (some x) sites r =
        if_elim (λ (b : Bool × List (String × Site F)). WithSites b.1) (stores x) _ (false, sites)
          (λ _. next r (site x)) (λ _. r)

    register-Reached :
        (new unchanged : List String) (vs : List (ValidSite F)) (sites : List (String × Site F))
        → WithSites sites
        → WithSites (register fl now stores new unchanged vs sites)
    unfolding register update_site
    register-Reached new unchanged [] sites r = r
    register-Reached new unchanged (v ∷ vs) sites r = register-Reached new unchanged vs _ (
        if_elim WithSites (contains v.site new || contains v.site unchanged) _ sites
          (λ _. put_site-Reached (site_of fl now stores v) sites r) (λ _. r))

  -- A run of the registration of sites, with the update of the addresses that ends it, is a sequence
  -- of steps of the system, whatever siteinfo and hostnames.json say and whichever puts fail: from a
  -- state that is reached it leads to one that is reached.
  pub get-Reached :
      (fl : FloatOps F) (now : ℕ) (stores : Site F → Bool) (a : Addresses F)
      (locations : Answer (Option (List (SiteInfo F)))) (s : Store F)
      → Reached s
      → Reached (get fl now stores a locations s).1
  unfolding get register_sites
  get-Reached fl now stores a http_error s r = r
  get-Reached fl now stores a url_error s r = r
  get-Reached fl now stores a (received none) s r = r
  get-Reached fl now stores a (received (some infos)) s r =
      succeeded-keeps Reached _
        (update-Reached a _ (register-Reached fl now stores s _ _ _ s.sites r))
