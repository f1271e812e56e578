-- ===== src/Resolver/Total.antt =====
-- The resolvers raise no exception where every site has an id.
use mlab_ns.Base.{
  ℕ, String, Bool, Option, none, some, List, [], ◌∷◌, not, if◌then◌else◌, ◌≡◌, ◌≢◌, refl, arith,
  sym, is_some, take, ◌++◌, subst, All-map, All, min, if_elim, All-Permᴰ, length, truthy,
}
use mlab_ns.Base.Errors.{Result, ok, raise, ok-injective}
use mlab_ns.ClientSignature.{signature_probability}
use mlab_ns.Resolver.Kept.{EnsuresKept, keep_sites-All, IsBackup}
use mlab_ns.Runtime.{ChanceLaws}
use mlab_ns.Model.{SliverTool}
use mlab_ns.Env.{Env}
use mlab_ns.Base.Dict.{lookup, insert}
use mlab_ns.Distance.{distance, site_keep_probability, keep_sites, is_backup_site}
use mlab_ns.Fetcher.{ToolProperties, fetch}
use mlab_ns.Resolver.{
  Wanted, Resolver, geo, metro, random, country, geo_options, all, Answer, nearest, closest_to,
  sampled, closest_n_of, closest_n_found, get_closest_n_candidates, chosen, choose_of, ranking,
  Distances, no_distances, add_candidate, add_candidates, none_if_empty, answer_query,
  fetch_tools_with_properties,
}
use mlab_ns.Resolver.Answers.{criteria}

abbrev pub HasSiteId : {F : Type 0} → SliverTool F → Type 0
HasSiteId t = t.site_id ≢ ""

is_backup_site-ok : (s : String) → s ≢ "" → (b : Bool) × (is_backup_site s ≡ ok b)
is_backup_site-ok String.[] h = absurd (h refl)
is_backup_site-ok (String.◌∷◌ c s) h = (_, refl)

module _ {F : Type 0} where
  keep_sites-ok :
      (backup : Bool) (ts : List (SliverTool F))
      → All HasSiteId ts
      → (kept : List (SliverTool F)) × (keep_sites backup ts ≡ ok kept)
  unfolding keep_sites
  keep_sites-ok backup [] h = ([], refl)
  keep_sites-ok backup (t ∷ ts) (p, h) =
      let (b, e) = is_backup_site-ok t.site_id p in
      let (rest, f) = keep_sites-ok backup ts h in
      ((if (if backup then b else not b) then t ∷ rest else rest), rw (e, f) refl)

module _ {F G : Type 0} (env : Env F G) (laws : ChanceLaws env.fl env.rng) where
  abbrev Total : Result (Option (List (SliverTool F))) → Type 0
  Total r = (o : Option (List (SliverTool F))) × (r ≡ ok o)

  -- The distance of a position from the tool can be computed.
  abbrev pub CanMeasure : F → F → SliverTool F → Type 0
  CanMeasure lat lon t = (x : F) × (distance env.fl lat lon t.latitude t.longitude ≡ ok x)

  -- The tool has a site id, and its distance from the client can be computed, if the position of the
  -- client is known.
  abbrev pub IsAnswerable : Option F → Option F → SliverTool F → Type 0
  IsAnswerable lat lon t =
      HasSiteId t × ((x y : F) → lat ≡ some x → lon ≡ some y → CanMeasure x y t)

  abbrev Given : Option F → Option F → Option (List (SliverTool F)) → Type 0
  Given lat lon none = Unit
  Given lat lon (some []) = ⊥
  Given lat lon (some (t ∷ ts)) = All (IsAnswerable lat lon) (t ∷ ts)

  add_candidate-ok :
      (lat lon : F) (t : SliverTool F) (d : Distances F)
      → CanMeasure lat lon t
      → (e : Distances F) × (add_candidate env lat lon t d ≡ ok e)
  unfolding add_candidate
  add_candidate-ok lat lon t d (x, h) =
      if_elim (λ (r : Result (Distances F)). (e : Distances F) × (r ≡ ok e))
        (is_some (lookup t.site_id d.sites)) (ok d) _ (λ _. (d, refl))
        (λ _. (
          record { sites = insert t.site_id x d.sites; tools = d.tools ++ (x, t) ∷ [] },
          rw h refl,
        ))

  add_candidates-ok :
      (lat lon : F) (ts : List (SliverTool F)) (d : Distances F) (g : G)
      → All (CanMeasure lat lon) ts
      → (e : Distances F) × ((add_candidates env lat lon ts d g).0 ≡ ok e)
  unfolding add_candidates
  add_candidates-ok lat lon [] d g h = (d, refl)
  add_candidates-ok lat lon (t ∷ ts) d g (p, h) =
      let (u, g') = env.rng.uniform g in
      let (d', e) =
        if_elim (λ (r : Result (Distances F)). (e : Distances F) × (r ≡ ok e))
          (env.fl.less u (site_keep_probability env.fl t.site_id)) _ (ok d)
          (λ _. add_candidate-ok lat lon t d p) (λ _. (d, refl)) in
      let (d'', e') = add_candidates-ok lat lon ts d' g' h in (d'', rw e e')

  nearest-Total :
      (n : ℕ) (lat lon : F) (r : Result (List (SliverTool F))) (g : G)
      → (kept : List (SliverTool F)) × (r ≡ ok kept) × All (CanMeasure lat lon) kept
      → Total (nearest env n lat lon r g).0
  unfolding nearest
  nearest-Total n lat lon (raise x) g (kept, e, h) = absurd (cc)
  nearest-Total n lat lon (ok ts) g (kept, e, h) =
      let measured = subst (All (CanMeasure lat lon)) (ok-injective (sym e)) h in
      let (d, f) = add_candidates-ok lat lon ts no_distances g measured in
      (some (take n (ranking env d)), rw f refl)

  closest_to-Total :
      (signature : String) (n : ℕ) (lat lon : F) (ts : List (SliverTool F)) (g : G)
      → All HasSiteId ts
      → All (CanMeasure lat lon) ts
      → Total (closest_to env signature n lat lon ts g).0
  unfolding closest_to
  closest_to-Total signature n lat lon ts g h k =
      let backup =
        env.fl.less (signature_probability env signature)
          (env.rng.uniform (env.rng.shuffle ts g).1).0 in
      let perm = laws.shuffle_perm ts g in
      let (kept, e) = keep_sites-ok backup (env.rng.shuffle ts g).0 (All-Permᴰ HasSiteId perm h) in
      let measured =
        keep_sites-All (CanMeasure lat lon) backup (env.rng.shuffle ts g).0
          (All-Permᴰ (CanMeasure lat lon) perm k) in
      nearest-Total n lat lon _ _ (
        kept,
        e,
        All-map _ _ kept (λ t p. p.0)
            (subst (EnsuresKept (All (λ t. CanMeasure lat lon t × IsBackup backup t))) e measured),
      )

  sampled-Total :
      (n : ℕ) (ts : List (SliverTool F)) (g : G)
      → Total (sampled env (env.rng.sample ts (min (length ts) n) g)).0
  unfolding sampled
  sampled-Total n ts g =
      let (ys, rest, found, count, perm) =
        laws.sample_perm ts (min (length ts) n) g (omega arith) in
      go (env.rng.sample ts (min (length ts) n) g) ys found
    where
      go :
          (s : Option (List (SliverTool F)) × G) (ys : List (SliverTool F))
          → s.0 ≡ some ys
          → Total (sampled env s).0
      go (none, g) ys e = absurd (cc)
      go (some zs, g) ys e = (some zs, refl)

  closest_n_of-Total :
      (lat lon : Option F) (signature : String) (n : ℕ) (ts : List (SliverTool F)) (g : G)
      → All (IsAnswerable lat lon) ts
      → Total (closest_n_of env lat lon signature n ts g).0
  unfolding closest_n_of
  closest_n_of-Total (some lat) (some lon) signature n ts g h =
      closest_to-Total signature n lat lon ts g (All-map _ _ ts (λ t p. p.0) h)
        (All-map _ _ ts (λ t p. p.1 lat lon refl refl) h)
  closest_n_of-Total none lon signature n ts g h = sampled-Total n ts g
  closest_n_of-Total (some lat) none signature n ts g h = sampled-Total n ts g

  closest_n_found-Total :
      (q : Wanted F) (signature : String) (n : ℕ) (r : Option (List (SliverTool F)) × G)
      → Given q.latitude q.longitude r.0
      → Total (closest_n_found env q signature n r).0
  unfolding closest_n_found
  closest_n_found-Total q signature n (none, g) h = (none, refl)
  closest_n_found-Total q signature n (some [], g) h = absurd h
  closest_n_found-Total q signature n (some (t ∷ ts), g) h =
      closest_n_of-Total q.latitude q.longitude signature n (t ∷ ts) g h

  choose_of-Total :
      (lat lon : Option F) (r : Option (List (SliverTool F)) × G)
      → Given lat lon r.0
      → Total (choose_of env r).0
  unfolding choose_of chosen
  choose_of-Total lat lon (none, g) h = (none, refl)
  choose_of-Total lat lon (some [], g) h = absurd h
  choose_of-Total lat lon (some (t ∷ ts), g) h =
      let (y, found) = laws.choice_some t ts g in go (env.rng.choice (t ∷ ts) g) y found
    where
      go :
          (c : Option (SliverTool F) × G) (y : SliverTool F) → c.0 ≡ some y → Total (chosen env c).0
      go (none, g) y e = absurd (cc)
      go (some z, g) y e = (_, refl)

  fetch_tools-Given :
      (lat lon : Option F) (props : ToolProperties) (g : G)
      → All (IsAnswerable lat lon) (fetch env props g).0
      → Given lat lon (fetch_tools_with_properties env props g).0
  unfolding fetch_tools_with_properties
  fetch_tools-Given lat lon props g h = go (fetch env props g).0 h
    where
      go :
          (ts : List (SliverTool F))
          → All (IsAnswerable lat lon) ts
          → Given lat lon (none_if_empty ts)
      go [] h = tt
      go (t ∷ ts) h = h

  -- Where every tool that is fetched for the query has a site id, and its distance can be computed
  -- from the position of the client, if it is known, a resolver raises no exception, neither
  -- IndexError nor ValueError: it answers None or a list, whatever is drawn.
  pub answer_query-total :
      (r : Resolver) (q : Wanted F) (signature : String) (g : G)
      → All (IsAnswerable q.latitude q.longitude) (fetch env (criteria r q) g).0
      → (o : Option (List (SliverTool F))) × ((answer_query env r q signature g).0 ≡ ok o)
  unfolding answer_query get_closest_n_candidates
  answer_query-total geo q signature g h =
      closest_n_found-Total q signature 1 _ (fetch_tools-Given q.latitude q.longitude _ g h)
  answer_query-total geo_options q signature g h =
      closest_n_found-Total q signature 4 _ (fetch_tools-Given q.latitude q.longitude _ g h)
  answer_query-total all q signature g h = (_, refl)
  answer_query-total random q signature g h =
      choose_of-Total q.latitude q.longitude _ (fetch_tools-Given q.latitude q.longitude _ g h)
  answer_query-total metro q signature g h =
      if_elim (λ (a : Answer env). Total a.0) (truthy q.metro) _ _
        (λ _.
          choose_of-Total q.latitude q.longitude _ (fetch_tools-Given q.latitude q.longitude _ g h))
        (λ _. (none, refl))
  answer_query-total country q signature g h =
      if_elim (λ (a : Answer env). Total a.0) (truthy q.country) _ _
        (λ _.
          choose_of-Total q.latitude q.longitude _ (fetch_tools-Given q.latitude q.longitude _ g h))
        (λ _. (none, refl))
