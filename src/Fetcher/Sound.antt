-- ===== src/Fetcher/Sound.antt =====
-- Every tool that the fetchers return fits the criteria, and no two are of one site.
use mlab_ns.Base.{
  String, Bool, true, false, Option, none, some, List, [], ◌∷◌, ◌++◌, truthy, if◌then◌else◌,
  is_empty, text_or_none, text_or_none_of_not-truthy, ◌≡◌, refl, sym, All, All-map, Apart, contains,
  if_elim, Bool-cases, inl, inr, subst,
}
use mathlib.Core.Option.{some-injective}
use mathlib.Core.List.{append_assoc}
use mlab_ns.Model.{SliverTool, Backend, Answers, WithinCountry, WithinSites}
use mlab_ns.Filters.{filter_by_status}
use mlab_ns.Filters.Status.{StatusOn, All-filter_by_status, All-filter_by_country}
use mlab_ns.Hosts.Kept.{OtherSite, All-choose_one_host_per_site, choose_one_host_per_site-Apart}
use mlab_ns.Env.{Env, EnvLaws}
use mlab_ns.Fetcher.{
  ToolProperties, ToolFilter, by_status, by_country, one_host_per_site, when_given, tool_filters,
  apply_filter, apply_filters, fetch_cached, memcache_fetch, find_site_ids_for_metro,
  datastore_query, site_ids_of, filter_status_given, datastore_fetch, fetch,
}

module _ {F : Type 0} where
  -- What a filter of the list lets through.
  abbrev pub Passed : SliverTool F → ToolFilter → Type 0
  Passed t (by_status af status) = StatusOn af status t
  Passed t (by_country country) = t.country ≡ country
  Passed t one_host_per_site = Unit

  -- The tool meets each criterion that is given.
  pub record Fits (ids : String → List String) (props : ToolProperties) (t : SliverTool F)
      : Type 0 where
    pub tool : t.tool_id ≡ props.tool_id
    pub status :
        (s : String) → text_or_none props.status ≡ some s → StatusOn props.address_family s t
    pub country : (c : String) → text_or_none props.country ≡ some c → t.country ≡ c
    pub metro : (m : String) → text_or_none props.metro ≡ some m → contains t.site_id (ids m) ≡ true

  when_given-Passed :
      (t : SliverTool F) (f : String → ToolFilter) (o : Option String) (rest : List ToolFilter)
      → All (Passed t) (when_given f o ++ rest)
      → ((s : String) → text_or_none o ≡ some s → Passed t (f s)) × All (Passed t) rest
  when_given-Passed t f none rest h = (λ s e. absurd (cc), h)
  when_given-Passed t f (some String.[]) rest h = (λ s e. absurd (cc), h)
  when_given-Passed t f (some (String.◌∷◌ c s)) rest (p, h) =
      (λ s' e. subst (λ (x : String). Passed t (f x)) (some-injective _ _ e) p, h)

-- What memcache holds for a tool are slivers of that tool, as the status updates put them there.
pub record IsCacheFiled {F : Type 0} (b : Backend F) : Type 0 where
  pub filed :
      (id : String) (ts : List (SliverTool F))
      → b.cached_tools id ≡ some ts
      → All (λ t. t.tool_id ≡ id) ts

module _ {F G : Type 0} (env : Env F G) (laws : EnvLaws env) where
  apply_filter-Passed :
      (P : SliverTool F → Type 0) (f : ToolFilter) (ts : List (SliverTool F)) (g : G)
      → All P ts
      → All (λ t. P t × Passed t f) (apply_filter env f ts g).0
  unfolding apply_filter
  apply_filter-Passed P (by_status af status) ts g h = All-filter_by_status P ts af status h
  apply_filter-Passed P (by_country country) ts g h = All-filter_by_country P ts country h
  apply_filter-Passed P one_host_per_site ts g h =
      All-map P _ _ (λ t p. (p, tt)) (All-choose_one_host_per_site env laws.chance ts g P h)

  pub apply_filters-Passed :
      (P : SliverTool F → Type 0) (fs : List ToolFilter) (ts : List (SliverTool F)) (g : G)
      → All P ts
      → All (λ t. P t × All (Passed t) fs) (apply_filters env fs ts g).0
  unfolding apply_filters
  apply_filters-Passed P [] ts g h = All-map P _ _ (λ t p. (p, tt)) h
  apply_filters-Passed P (f ∷ fs) ts g h =
      let (ts', g') = apply_filter env f ts g in
      All-map (λ t. (P t × Passed t f) × All (Passed t) fs) _ _ (λ t p. (p.0.0, (p.0.1, p.1)))
        (apply_filters-Passed (λ t. P t × Passed t f) fs ts' g' (apply_filter-Passed P f ts g h))

  -- With the host filter last, no two results are of one site.
  apply_filters-Apart :
      (fs : List ToolFilter) (ts : List (SliverTool F)) (g : G)
      → Apart OtherSite (apply_filters env (fs ++ one_host_per_site ∷ []) ts g).0
  unfolding apply_filters apply_filter
  apply_filters-Apart [] ts g = choose_one_host_per_site-Apart env laws.chance ts g
  apply_filters-Apart (f ∷ fs) ts g =
      let (ts', g') = apply_filter env f ts g in apply_filters-Apart fs ts' g'

  abbrev FitsQuery : ToolProperties → SliverTool F → Type 0
  FitsQuery props t = Fits (find_site_ids_for_metro env) props t

  memcache_fetch-Fits :
      (filed : IsCacheFiled env.backend) (props : ToolProperties) (g : G)
      → All (FitsQuery props) (memcache_fetch env props g).0
  unfolding memcache_fetch
  memcache_fetch-Fits filed props g = elim (Bool-cases (truthy props.metro)) [
    | inl e ↦ rw e tt
    | inr e ↦
        rw e (cached (text_or_none_of_not-truthy _ e) (env.backend.cached_tools props.tool_id) refl)
  ]
    where
      cached :
          text_or_none props.metro ≡ none
          → (found : Option (List (SliverTool F))) → env.backend.cached_tools props.tool_id ≡ found
          → All (FitsQuery props) (fetch_cached env props found g).0
      cached no_metro none e = tt
      cached no_metro (some []) e = tt
      cached no_metro (some (t ∷ ts)) e =
          All-map _ _ _
            (λ u (tool, passed).
              let (on, rest) = when_given-Passed u _ props.status _ passed in
              let (within, last) = when_given-Passed u _ props.country _ rest in
              record { tool = tool; status = on; country = within; metro = λ m q. absurd (cc) })
            (apply_filters-Passed (λ u. u.tool_id ≡ props.tool_id) (tool_filters props) (t ∷ ts) g
              (filed.filed props.tool_id (t ∷ ts) e))

  -- The status filter of the datastore's fetch.
  filter_status_given-Fits :
      (props : ToolProperties) (tools : List (SliverTool F))
      → All (Answers (datastore_query env props)) tools
      → All (FitsQuery props) (filter_status_given env props tools)
  filter_status_given-Fits props tools h =
      All-map _ _ _
        (λ t (a, on). record {
          tool = a.0;
          status = on;
          country = λ c e. subst (λ (o : Option String). WithinCountry o t.country) e a.2;
          metro =
              λ m e. subst (λ (o : Option String). WithinSites (site_ids_of env o) t.site_id) e a.1;
        })
        (given (text_or_none props.status))
    where
      given :
          (o : Option String)
          → All
              (λ t.
                Answers (datastore_query env props) t
                × ((s : String) → o ≡ some s → StatusOn props.address_family s t))
              (elim o [ none ↦ tools | some s ↦ filter_by_status tools props.address_family s ])
      given none = All-map _ _ _ (λ t a. (a, λ s e. absurd (cc))) h
      given (some s) =
          All-map _ _ _
            (λ t (a, on). (
              a,
              λ s' e.
                  subst (λ (x : String). StatusOn props.address_family x t) (some-injective _ _ e)
                    on,
            ))
            (All-filter_by_status _ tools props.address_family s h)

  datastore_fetch-Fits :
      (props : ToolProperties) (g : G) → All (FitsQuery props) (datastore_fetch env props g).0
  unfolding datastore_fetch
  datastore_fetch-Fits props g =
      let h =
        filter_status_given-Fits props _ (laws.stored.query_answers (datastore_query env props)) in
      if_elim (λ (r : List (SliverTool F) × G). All (FitsQuery props) r.0) props.all_slivers _ _
        (λ _. h) (λ _. All-choose_one_host_per_site env laws.chance _ g (FitsQuery props) h)

  -- Every tool that a fetch returns has the tool id, status, country and metro asked for, whether
  -- it comes from memcache or from the datastore. The condition is that memcache holds under an id
  -- slivers of that tool only.
  pub fetch-Fits :
      (filed : IsCacheFiled env.backend) (props : ToolProperties) (g : G)
      → All (Fits (find_site_ids_for_metro env) props) (fetch env props g).0
  unfolding fetch
  fetch-Fits filed props g =
      if_elim (λ (r : List (SliverTool F) × G). All (FitsQuery props) r.0)
        (is_empty (memcache_fetch env props g).0) _ _ (λ _. datastore_fetch-Fits props _)
        (λ _. memcache_fetch-Fits filed props g)

  datastore_fetch-Apart :
      (props : ToolProperties) (g : G)
      → props.all_slivers ≡ false
      → Apart OtherSite (datastore_fetch env props g).0
  unfolding datastore_fetch
  datastore_fetch-Apart props g h =
      if_elim (λ (r : List (SliverTool F) × G). Apart OtherSite r.0) props.all_slivers _ _
        (λ e. absurd (cc)) (λ _. choose_one_host_per_site-Apart env laws.chance _ g)

  fetch_cached-Apart :
      (props : ToolProperties) (found : Option (List (SliverTool F))) (g : G)
      → props.all_slivers ≡ false
      → Apart OtherSite (fetch_cached env props found g).0
  unfolding fetch_cached
  fetch_cached-Apart props none g h = tt
  fetch_cached-Apart props (some []) g h = tt
  fetch_cached-Apart props (some (t ∷ ts)) g h =
      let before =
        when_given (by_status props.address_family) props.status
        ++ when_given by_country props.country in
      subst
        (λ (b : Bool).
          Apart OtherSite
            (apply_filters env
              (when_given (by_status props.address_family) props.status
                ++ (when_given by_country props.country
                    ++ (if b then [] else one_host_per_site ∷ [])))
              (t ∷ ts) g).0)
        (sym h) (rw (← append_assoc) (apply_filters-Apart before (t ∷ ts) g))

  -- Unless all slivers are asked for, a fetch returns at most one tool for each site.
  pub fetch-Apart :
      (props : ToolProperties) (g : G)
      → props.all_slivers ≡ false
      → Apart OtherSite (fetch env props g).0
  unfolding fetch memcache_fetch
  fetch-Apart props g h =
      if_elim (λ (r : List (SliverTool F) × G). Apart OtherSite r.0)
        (is_empty (memcache_fetch env props g).0) _ _ (λ _. datastore_fetch-Apart props _ h)
        (λ _.
          if_elim (λ (r : List (SliverTool F) × G). Apart OtherSite r.0) (truthy props.metro) _ _
            (λ _. tt) (λ _. fetch_cached-Apart props _ g h))
