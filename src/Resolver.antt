-- ===== src/Resolver.antt =====
-- The resolvers of server/mlabns/util/resolver.py: which sliver tools answer a query, by policy.
-- The generator of random numbers is passed along.
pub mod Nearest
pub mod Kept
pub mod Covered
pub mod Ranked
pub mod Total
pub mod Available
pub mod Answers
use mlab_ns.Base.{
  ℕ, zero, suc, ◌+◌, String, Bool, true, false, ◌||◌, Option, none, some, List, [], ◌∷◌, ◌++◌, map,
  ◌==◌, opt_eq, truthy, keep, if◌then◌else◌, is_empty, text_or_none, take, min, length, nat_eq, not,
  code, is_some,
}
use mlab_ns.Base.Text.{last_code}
use mlab_ns.Base.Errors.{PyError, Result, ok, raise, index_error, value_error, ◌>>=◌}
use mlab_ns.Message.{
  status_online, policy_geo, policy_metro, policy_random, policy_country, policy_geo_options,
  policy_all,
}
use mlab_ns.Runtime.{FloatOps}
use mlab_ns.Model.{SliverTool, Site, SliverToolQuery, Backend}
use mlab_ns.Base.Dict.{lookup, insert}
use mlab_ns.ClientSignature.{signature_probability}
use mlab_ns.Fetcher.{ToolProperties, fetch}
use mlab_ns.Env.{Env}
use mlab_ns.Distance.{distance, is_backup_site, keep_sites, sort_by_distance, site_keep_probability}

-- The fields of a LookupQuery that a resolver reads.
pub record Wanted (F : Type 0) : Type 0 where
  pub tool_id : String
  pub tool_address_family : Option String
  pub latitude : Option F
  pub longitude : Option F
  pub country : Option String
  pub metro : Option String

-- _tool_properties_from_query; an empty address family is None either way.
abbrev pub tool_properties_from_query : {F : Type 0} → Wanted F → ToolProperties
tool_properties_from_query q = record {
  tool_id = q.tool_id;
  status = some status_online;
  all_slivers = false;
  address_family = text_or_none q.tool_address_family;
  metro = none;
  country = none;
}

-- site_distances and tool_distances of _get_closest_n_candidates.
pub record Distances (F : Type 0) : Type 0 where
  pub sites : List (String × F)
  pub tools : List (F × SliverTool F)

abbrev pub no_distances : {F : Type 0} → Distances F
no_distances = record { sites = []; tools = [] }

pub data Resolver : Type 0 where
  geo metro random country geo_options all : Resolver

-- new_resolver
unfoldable pub new_resolver : Option String → Resolver
new_resolver policy =
    if opt_eq policy policy_geo
    then geo
    else if opt_eq policy policy_metro
    then metro
    else if opt_eq policy policy_random
    then random
    else if opt_eq policy policy_country
    then country
    else if opt_eq policy policy_geo_options
    then geo_options
    else if opt_eq policy policy_all
    then all
    else random

-- An empty list of candidates is answered by None.
abbrev pub none_if_empty : {F : Type 0} → List (SliverTool F) → Option (List (SliverTool F))
none_if_empty [] = none
none_if_empty (t ∷ ts) = some (t ∷ ts)

module _ {F G : Type 0} (env : Env F G) where
  -- The answer of a resolver: None, a list, or an exception; and the generator.
  abbrev pub Answer : Type 0
  Answer = Result (Option (List (SliverTool F))) × G

  -- _fetch_tools_with_properties
  unfoldable pub fetch_tools_with_properties : ToolProperties → G → Option (List (SliverTool F)) × G
  fetch_tools_with_properties props g =
      let (candidates, g') = fetch env props g in (none_if_empty candidates, g')

  -- _add_candidate, from the position of the client.
  unfoldable pub add_candidate : F → F → SliverTool F → Distances F → Result (Distances F)
  add_candidate lat lon t d = if is_some (lookup t.site_id d.sites) then ok d else (do
    far ← distance env.fl lat lon t.latitude t.longitude
    ok (record { sites = insert t.site_id far d.sites; tools = d.tools ++ (far, t) ∷ [] }))

  abbrev pub then_add :
      Result (Distances F) → G → (Distances F → Result (Distances F) × G) → Result (Distances F) × G
  then_add (raise e) g more = (raise e, g)
  then_add (ok d) g more = more d

  -- The loop over the filtered candidates: each is kept with the probability of its site.
  unfoldable pub add_candidates :
      F → F → List (SliverTool F) → Distances F → G → Result (Distances F) × G
  add_candidates lat lon [] d g = (ok d, g)
  add_candidates lat lon (t ∷ ts) d g =
      let (u, g') = env.rng.uniform g in
      then_add
        (if env.fl.less u (site_keep_probability env.fl t.site_id)
          then add_candidate lat lon t d
          else ok d)
        g' (λ d'. add_candidates lat lon ts d' g')

  -- The tools in order of distance.
  abbrev pub ranking : Distances F → List (SliverTool F)
  ranking d = map (λ (p : F × SliverTool F). p.1) (sort_by_distance env.fl d.tools)

  abbrev pub nearest_of : ℕ → Result (Distances F) → Result (Option (List (SliverTool F)))
  nearest_of n (raise e) = raise e
  nearest_of n (ok d) = ok (some (take n (ranking d)))

  -- What follows the filter on the site ids.
  unfoldable pub nearest : ℕ → F → F → Result (List (SliverTool F)) → G → Answer
  nearest n lat lon (raise e) g = (raise e, g)
  nearest n lat lon (ok filtered) g =
      let (r, g') = add_candidates lat lon filtered no_distances g in (nearest_of n r, g')

  -- The body of _get_closest_n_candidates for a client whose position is known.
  unfoldable pub closest_to : String → ℕ → F → F → List (SliverTool F) → G → Answer
  closest_to signature n lat lon candidates g =
      let (shuffled, g1) = env.rng.shuffle candidates g in
      let (u, g2) = env.rng.uniform g1 in
      nearest n lat lon (keep_sites (env.fl.less (signature_probability env signature) u) shuffled)
        g2

  unfoldable pub sampled : Option (List (SliverTool F)) × G → Answer
  sampled (none, g) = (raise value_error, g)
  sampled (some ts, g) = (ok (some ts), g)

  unfoldable pub closest_n_of : Option F → Option F → String → ℕ → List (SliverTool F) → G → Answer
  closest_n_of (some lat) (some lon) signature n candidates g =
      closest_to signature n lat lon candidates g
  closest_n_of _ _ signature n candidates g =
      sampled (env.rng.sample candidates (min (length candidates) n) g)

  unfoldable pub closest_n_found : Wanted F → String → ℕ → Option (List (SliverTool F)) × G → Answer
  closest_n_found q signature n (none, g) = (ok none, g)
  closest_n_found q signature n (some candidates, g) =
      closest_n_of q.latitude q.longitude signature n candidates g

  -- _get_closest_n_candidates
  unfoldable pub get_closest_n_candidates : Wanted F → String → ℕ → G → Answer
  get_closest_n_candidates q signature n g =
      closest_n_found q signature n (fetch_tools_with_properties (tool_properties_from_query q) g)

  unfoldable pub chosen : Option (SliverTool F) × G → Answer
  chosen (none, g) = (raise index_error, g)
  chosen (some t, g) = (ok (some (t ∷ [])), g)

  -- [random.choice(candidates)], or None where there are no candidates.
  unfoldable pub choose_of : Option (List (SliverTool F)) × G → Answer
  choose_of (none, g) = (ok none, g)
  choose_of (some candidates, g) = chosen (env.rng.choice candidates g)

  abbrev pub lift : Option (List (SliverTool F)) × G → Answer
  lift (o, g) = (ok o, g)

  -- answer_query of each resolver class.
  unfoldable pub answer_query : Resolver → Wanted F → String → G → Answer
  answer_query geo q signature g = get_closest_n_candidates q signature 1 g
  answer_query geo_options q signature g = get_closest_n_candidates q signature 4 g
  answer_query all q signature g =
      lift (fetch_tools_with_properties (tool_properties_from_query q) g)
  answer_query random q signature g =
      choose_of (fetch_tools_with_properties (tool_properties_from_query q) g)
  answer_query metro q signature g =
      if truthy q.metro
      then choose_of (
          fetch_tools_with_properties (record (tool_properties_from_query q) { metro = q.metro }) g)
      else (ok none, g)
  answer_query country q signature g =
      if truthy q.country
      then choose_of (
          fetch_tools_with_properties
            (record (tool_properties_from_query q) { country = q.country }) g)
      else (ok none, g)
