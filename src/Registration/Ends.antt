-- ===== src/Registration/Ends.antt =====
-- How a registration of sites ends.
use mlab_ns.Base.{
  ◌⊎◌, inl, inr, ℕ, Bool, Option, none, some, List, [], ◌∷◌, ◌≡◌, refl, ◌∙◌, if_elim,
}
use mlab_ns.Base.Errors.{PyError, ok, raise}
use mlab_ns.Runtime.{FloatOps}
use mlab_ns.Model.{Site}
use mlab_ns.Status.{Write, put, cache}
use mlab_ns.IpUpdate.{Row}
use mlab_ns.Page.{Answer, received, http_error, url_error, success, succeeded}
use mlab_ns.Store.{Store, Outcome, apply_write, apply_writes}
use mlab_ns.AddressHandler.{Addresses, update, update_addresses}
use mlab_ns.Registration.{SiteInfo, register_sites, get}

-- What hostnames.json is for the handler to end with success.
abbrev pub IsRead : Answer (Option (List Row)) → Type 0
IsRead h = (rows : List Row) × (h ≡ received (some rows))

module _ {F : Type 0} where
  -- No write changes the sites.
  apply_write-sites :
      (o : Outcome F) (w : Write F) (s : Store F) → (apply_write o w s).sites ≡ s.sites
  unfolding apply_write
  apply_write-sites o (put ts) s = refl
  apply_write-sites o (cache id ts) s =
      if_elim (λ (x : Store F). x.sites ≡ s.sites) o.caches _ s (λ _. refl) (λ _. refl)

  apply_writes-sites :
      (o : Outcome F) (ws : List (Write F)) (s : Store F) → (apply_writes o ws s).sites ≡ s.sites
  unfolding apply_writes
  apply_writes-sites o [] s = refl
  apply_writes-sites o (w ∷ ws) s =
      apply_writes-sites o ws (apply_write o w s) ∙ apply_write-sites o w s

  -- Where siteinfo lists sites, they are registered however the update of the addresses ends; and the
  -- handler ends with success exactly if hostnames.json is read and is valid. Otherwise it ends with
  -- an uncaught exception, never with 404.
  pub get_listed :
      (fl : FloatOps F) (now : ℕ) (stores : Site F → Bool) (a : Addresses F)
      (infos : List (SiteInfo F)) (s : Store F)
      → ((get fl now stores a (received (some infos)) s).1.sites
          ≡ register_sites fl now stores a.production infos s.sites)
        × (IsRead a.hostnames → (get fl now stores a (received (some infos)) s).0 ≡ ok success)
        × (((e : PyError) × ((get fl now stores a (received (some infos)) s).0 ≡ raise e))
            ⊎ IsRead a.hostnames)
  unfolding get update
  get_listed fl now stores a infos s = by_answer a.hostnames
    where
      registered : Store F
      registered = record s { sites = register_sites fl now stores a.production infos s.sites }

      by_answer :
          (h : Answer (Option (List Row)))
          → ((succeeded (update_addresses a h registered)).1.sites
              ≡ register_sites fl now stores a.production infos s.sites)
            × (IsRead h → (succeeded (update_addresses a h registered)).0 ≡ ok success)
            × (((e : PyError) × ((succeeded (update_addresses a h registered)).0 ≡ raise e))
                ⊎ IsRead h)
      by_answer http_error = (refl, λ r. absurd (cc r.1), inl (PyError.attribute_error, refl))
      by_answer url_error = (refl, λ r. absurd (cc r.1), inl (PyError.url_error, refl))
      by_answer (received none) = (refl, λ r. absurd (cc r.1), inl (PyError.attribute_error, refl))
      by_answer (received (some rows)) =
          (apply_writes-sites a.ends _ registered, λ r. refl, inr (rows, refl))
