-- ===== src/Hosts/Kept.antt =====
-- One host per site: the hosts chosen are hosts given, no two of one site, and every site has one.
use Prim.Native.String.{compare}
use text.Mathlib.Text.{is_lt}
use mlab_ns.Base.{
  ◌⊎◌, String, Option, some, List, [], ◌∷◌, ◌==◌, ◌≡◌, ◌≢◌, refl, sym, ◌∙◌, eq_refl, All, Apart,
  Memᴰ, inl, inr, Option-cases, if_elim, subst, All-Permᴰ, All-self, All-map, Apart-Permᴰ,
  Memᴰ-Permᴰ,
}
use mlab_ns.Runtime.{ChanceLaws}
use mlab_ns.Model.{SliverTool}
use mlab_ns.Env.{Env}
use mlab_ns.Hosts.{
  Hosts, min_fqdn, counter_at, round_robin, add_host, add_hosts, no_hosts, choose_one_host_per_site,
}
use mlab_ns.Base.Dict.{
  lookup, insert, values, lookup-insert, All-insert, OtherKey, Apart-insert, Memᴰ-lookup,
  All-lookup,
}

module _ {F : Type 0} where
  abbrev pub OtherSite : SliverTool F → SliverTool F → Type 0
  OtherSite a b = a.site_id ≢ b.site_id

  -- Each host stands under its site, once, and has P.
  abbrev Filed : (SliverTool F → Type 0) → String × SliverTool F → Type 0
  Filed P e = (e.1.site_id ≡ e.0) × P e.1

  record IsTable (P : SliverTool F → Type 0) (d : List (String × SliverTool F)) : Type 0 where
    filed : All (Filed P) d
    apart : Apart OtherKey d

  -- What a round of the loop does to the table: nothing, where the site has a host, or it files
  -- under the tool's site the tool or the host that stood there.
  data Added (t : SliverTool F) (d : List (String × SliverTool F))
      : List (String × SliverTool F) → Type 0 where
    stays : (c : SliverTool F) → lookup t.site_id d ≡ some c → Added t d d
    files :
        (c : SliverTool F)
        → (c ≡ t) ⊎ (lookup t.site_id d ≡ some c)
        → Added t d (insert t.site_id c d)

  files_min_fqdn :
      (t current : SliverTool F) (d : List (String × SliverTool F))
      → lookup t.site_id d ≡ some current
      → Added t d (insert t.site_id (min_fqdn current t) d)
  unfolding min_fqdn
  files_min_fqdn t current d e =
      if_elim (λ c. Added t d (insert t.site_id c d)) (is_lt (compare t.fqdn current.fqdn)) t
        current (λ _. files t (inl refl)) (λ _. files current (inr e))

  module _ (P : SliverTool F → Type 0) where
    Added-IsTable :
        {t : SliverTool F} {d d' : List (String × SliverTool F)}
        → Added t d d'
        → P t
        → IsTable P d
        → IsTable P d'
    Added-IsTable (stays c e) p v = v
    Added-IsTable {t} {d} (files c o) p v = record {
      filed = All-insert (Filed P) t.site_id c d (filed o) v.filed;
      apart = Apart-insert t.site_id c d v.apart;
    }
      where
        filed : (c ≡ t) ⊎ (lookup t.site_id d ≡ some c) → Filed P (t.site_id, c)
        filed (inl e) = subst (λ (x : SliverTool F). Filed P (t.site_id, x)) (sym e) (refl, p)
        filed (inr e) = All-lookup (Filed P) t.site_id c d v.filed e

    values-All : (d : List (String × SliverTool F)) → All (Filed P) d → All P (values d)
    values-All [] h = tt
    values-All (e ∷ d) (p, h) = (p.1, values-All d h)

    values-Apart :
        (d : List (String × SliverTool F))
        → All (Filed P) d
        → Apart OtherKey d
        → Apart OtherSite (values d)
    values-Apart [] h k = tt
    values-Apart (e ∷ d) (p, h) (q, k) = (others d h q, values-Apart d h k)
      where
        others :
            (d : List (String × SliverTool F))
            → All (Filed P) d
            → All (OtherKey e) d
            → All (OtherSite e.1) (values d)
        others [] h q = tt
        others (e' ∷ d) (p', h) (q', q) = (λ s. q' (sym p.0 ∙ s ∙ p'.0), others d h q)

  -- The site of a tool has a host, which stays when other tools are added.
  abbrev Has : String → List (String × SliverTool F) → Type 0
  Has k d = (t : SliverTool F) × (lookup k d ≡ some t)

  Has-insert_self :
      (k : String) (t : SliverTool F) (d : List (String × SliverTool F)) → Has k (insert k t d)
  Has-insert_self k t d = (t, rw (lookup-insert k k t d, eq_refl k))

  Has-insert :
      (j k : String) (t : SliverTool F) (d : List (String × SliverTool F))
      → Has j d
      → Has j (insert k t d)
  Has-insert j k t d (s, found) = rw (lookup-insert k j t d) (
      if_elim (λ (o : Option (SliverTool F)). (x : SliverTool F) × (o ≡ some x)) (k == j) (some t)
        (lookup j d) (λ _. (t, refl)) (λ _. (s, found)))

  Added-Has_self :
      {t : SliverTool F} {d d' : List (String × SliverTool F)} → Added t d d' → Has t.site_id d'
  Added-Has_self (stays c e) = (c, e)
  Added-Has_self {t} {d} (files c o) = Has-insert_self t.site_id c d

  Added-Has :
      (k : String) {t : SliverTool F} {d d' : List (String × SliverTool F)}
      → Added t d d'
      → Has k d
      → Has k d'
  Added-Has k (stays c e) h = h
  Added-Has k {t} {d} (files c o) h = Has-insert k t.site_id c d h

module _ {F G : Type 0} (env : Env F G) where
  round_robin-Added :
      (t c : SliverTool F) (h : Hosts F) (g : G)
      → lookup t.site_id h.sites ≡ some c
      → Added t h.sites (round_robin env t h g).0.sites
  unfolding round_robin
  round_robin-Added t c h g e =
      if_elim (Added t h.sites)
        (env.fl.less (env.rng.uniform g).0 (env.fl.ratio 1 (counter_at t.site_id h.counter)))
        (insert t.site_id t h.sites) h.sites (λ _. files t (inl refl)) (λ _. stays c e)

  add_host-Added :
      (t : SliverTool F) (h : Hosts F) (g : G) → Added t h.sites (add_host env t h g).0.sites
  unfolding add_host
  add_host-Added t h g = elim (Option-cases (lookup t.site_id h.sites)) [
    | inl e ↦ rw (e, add_host) (files t (inl refl))
    | inr (c, e) ↦
        rw (e, add_host)
          (if_elim (λ (r : Hosts F × G). Added t h.sites r.0.sites) t.roundrobin
            (round_robin env t h g) _ (λ _. round_robin-Added t c h g e)
            (λ _. files_min_fqdn t c h.sites e))
  ]

  add_hosts-IsTable :
      (P : SliverTool F → Type 0) (ts : List (SliverTool F)) (h : Hosts F) (g : G)
      → All P ts
      → IsTable P h.sites
      → IsTable P (add_hosts env ts h g).0.sites
  unfolding add_hosts
  add_hosts-IsTable P [] h g ps v = v
  add_hosts-IsTable P (t ∷ ts) h g (p, ps) v =
      add_hosts-IsTable P ts (add_host env t h g).0 (add_host env t h g).1 ps
        (Added-IsTable P (add_host-Added t h g) p v)

  add_hosts-Has :
      (k : String) (ts : List (SliverTool F)) (h : Hosts F) (g : G)
      → Has k h.sites
      → Has k (add_hosts env ts h g).0.sites
  unfolding add_hosts
  add_hosts-Has k [] h g has = has
  add_hosts-Has k (t ∷ ts) h g has =
      add_hosts-Has k ts (add_host env t h g).0 (add_host env t h g).1
        (Added-Has k (add_host-Added t h g) has)

  add_hosts-Has_all :
      (ts : List (SliverTool F)) (h : Hosts F) (g : G)
      → All (λ t. Has t.site_id (add_hosts env ts h g).0.sites) ts
  unfolding add_hosts
  add_hosts-Has_all [] h g = tt
  add_hosts-Has_all (t ∷ ts) h g =
      let h' = (add_host env t h g).0 in
      let g' = (add_host env t h g).1 in
      (
        add_hosts-Has t.site_id ts h' g' (Added-Has_self (add_host-Added t h g)),
        add_hosts-Has_all ts h' g',
      )

  module _ (laws : ChanceLaws env.fl env.rng) (ts : List (SliverTool F)) (g : G) where
    table : (P : SliverTool F → Type 0) → All P ts → IsTable P (add_hosts env ts no_hosts g).0.sites
    table P h = add_hosts-IsTable P ts no_hosts g h (record { filed = tt; apart = tt })

    -- What every tool has, every host that is chosen has.
    pub All-choose_one_host_per_site :
        (P : SliverTool F → Type 0) → All P ts → All P (choose_one_host_per_site env ts g).0
    unfolding choose_one_host_per_site
    All-choose_one_host_per_site P h =
        All-Permᴰ P (laws.values_perm _) (values-All P _ (table P h).filed)

    -- No two hosts that are chosen are of one site.
    pub choose_one_host_per_site-Apart : Apart OtherSite (choose_one_host_per_site env ts g).0
    unfolding choose_one_host_per_site
    choose_one_host_per_site-Apart =
        let t = table (λ x. Memᴰ x ts) (All-self ts) in
        Apart-Permᴰ OtherSite (λ a b n e. n (sym e)) (laws.values_perm _)
          (values-Apart (λ x. Memᴰ x ts) _ t.filed t.apart)

    -- The site of every tool has a host among those chosen.
    pub choose_one_host_per_site_covers :
        All
          (λ t.
            (s : SliverTool F) × (s.site_id ≡ t.site_id)
            × Memᴰ s (choose_one_host_per_site env ts g).0)
          ts
    unfolding choose_one_host_per_site
    choose_one_host_per_site_covers =
        All-map _ _ ts
          (λ t (s, found). (
            s,
            (All-lookup (Filed (λ x. Memᴰ x ts)) _ s _ (table _ (All-self ts)).filed found).0,
            Memᴰ-Permᴰ (laws.values_perm _) (Memᴰ-lookup _ s _ found),
          ))
          (add_hosts-Has_all ts no_hosts g)
