-- ===== src/Fetcher/Available.antt =====
-- A fetch finds something where there is something to find.
use mlab_ns.Base.{
  String, true, false, Option, none, some, List, [], ◌∷◌, ◌≡◌, refl, if_elim, All-Memᴰ, Memᴰ,
  is_empty, text_or_none, contains,
}
use mlab_ns.Runtime.{ChanceLaws}
use mlab_ns.Model.{SliverTool, Answers, WithinSites, WithinCountry}
use mlab_ns.Env.{Env}
use mlab_ns.Filters.{filter_by_status}
use mlab_ns.Filters.Status.{filter_by_status_iff}
use mlab_ns.Hosts.{choose_one_host_per_site}
use mlab_ns.Hosts.Kept.{choose_one_host_per_site_covers}
use mlab_ns.Fetcher.{
  ToolProperties, filter_status_given, datastore_query, datastore_fetch, memcache_fetch, fetch,
  find_site_ids_for_metro, site_ids_of,
}
use mlab_ns.Fetcher.Sound.{Fits}

-- Some tool is on the list.
abbrev pub IsInhabited : {F : Type 0} → List (SliverTool F) → Type 0
IsInhabited {F} ts = (u : SliverTool F) × Memᴰ u ts

module _ {F G : Type 0} (env : Env F G) where
  metro-WithinSites :
      (metro : Option String) (site : String)
      → ((m : String) → metro ≡ some m → contains site (find_site_ids_for_metro env m) ≡ true)
      → WithinSites (site_ids_of env metro) site
  metro-WithinSites none site h = tt
  metro-WithinSites (some m) site h = h m refl

  country-WithinCountry :
      (country : Option String) (c : String)
      → ((d : String) → country ≡ some d → c ≡ d)
      → WithinCountry country c
  country-WithinCountry none c h = tt
  country-WithinCountry (some d) c h = h d refl

  -- A tool that meets the criteria meets the conditions of the datastore query.
  pub Fits-Answers :
      (props : ToolProperties) (t : SliverTool F)
      → Fits (find_site_ids_for_metro env) props t
      → Answers (datastore_query env props) t
  Fits-Answers props t h = (
    h.tool,
    metro-WithinSites (text_or_none props.metro) t.site_id h.metro,
    country-WithinCountry (text_or_none props.country) t.country h.country,
  )

  filter_status_given-Memᴰ :
      (props : ToolProperties) (ts : List (SliverTool F)) (t : SliverTool F)
      → Memᴰ t ts
      → Fits (find_site_ids_for_metro env) props t
      → Memᴰ t (filter_status_given env props ts)
  filter_status_given-Memᴰ props ts t m h = by_status (text_or_none props.status) refl
    where
      by_status :
          (o : Option String)
          → text_or_none props.status ≡ o
          → Memᴰ t (elim o [ none ↦ ts | some s ↦ filter_by_status ts props.address_family s ])
      by_status none e = m
      by_status (some s) e = (filter_by_status_iff ts props.address_family s t).1 m (h.status s e)

  module _ (laws : ChanceLaws env.fl env.rng) where
    datastore_fetch-IsInhabited :
        (props : ToolProperties) (g : G) (t : SliverTool F)
        → Memᴰ t (env.backend.query_sliver_tools (datastore_query env props))
        → Fits (find_site_ids_for_metro env) props t
        → IsInhabited (datastore_fetch env props g).0
    unfolding datastore_fetch
    datastore_fetch-IsInhabited props g t m h =
        let found =
          filter_status_given-Memᴰ props
            (env.backend.query_sliver_tools (datastore_query env props)) t m h in
        if_elim (λ (r : List (SliverTool F) × G). IsInhabited r.0) props.all_slivers _ _
          (λ _. (t, found))
          (λ _.
            let (s, _, host) =
              All-Memᴰ
                (λ t.
                  (s : SliverTool F) × (s.site_id ≡ t.site_id)
                  × Memᴰ s (choose_one_host_per_site env _ g).0)
                (choose_one_host_per_site_covers env laws _ g) found in
            (s, host))

    not_empty-IsInhabited : (ts : List (SliverTool F)) → is_empty ts ≡ false → IsInhabited ts
    not_empty-IsInhabited [] e = absurd (cc)
    not_empty-IsInhabited (t ∷ ts) e = (t, Memᴰ.head refl)

    -- Where the datastore returns a tool that meets the criteria, a fetch returns some tool, whatever
    -- memcache holds and whatever is drawn.
    pub fetch-IsInhabited :
        (props : ToolProperties) (g : G) (t : SliverTool F)
        → Memᴰ t (env.backend.query_sliver_tools (datastore_query env props))
        → Fits (find_site_ids_for_metro env) props t
        → IsInhabited (fetch env props g).0
    unfolding fetch
    fetch-IsInhabited props g t m h =
        if_elim (λ (r : List (SliverTool F) × G). IsInhabited r.0)
          (is_empty (memcache_fetch env props g).0) _ _
          (λ _. datastore_fetch-IsInhabited props _ t m h) (λ e. not_empty-IsInhabited _ e)
