-- ===== src/Lookup/Outcome.antt =====
-- How a lookup ends.
use mlab_ns.Base.{
  String, Bool, true, Option, none, some, List, [], ◌∷◌, ◌==◌, ◌≡◌, ◌≢◌, refl, ap, ◌∙◌, eq_iff,
  if_elim, All, All-map, is_some,
}
use mlab_ns.Base.Errors.{Result, ok}
use mlab_ns.Model.{SliverTool, Tool, get_tool_from_tool_id}
use mlab_ns.Env.{Env, EnvLaws}
use mlab_ns.Request.{LookupQuery}
use mlab_ns.Signature.{calculate_client_signature}
use mlab_ns.Maxmind.{Maxmind}
use mlab_ns.Geolocation.Sources.{IsReadable}
use mlab_ns.LocationLog.Ends.{HasPosition, CanCompare, with_maxmind, log_location-total}
use mlab_ns.Fetcher.{fetch}
use mlab_ns.Fetcher.Sound.{IsCacheFiled}
use mlab_ns.Resolver.{Resolver, geo, metro, random, country, geo_options, all, new_resolver}
use mlab_ns.Resolver.Answers.{criteria, answer_query-Good}
use mlab_ns.Resolver.Total.{IsAnswerable, answer_query-total}
use mlab_ns.Lookup.{
  Response, json_data, json_list, json_or_none, several, tool_if_none, send_json_response,
  send_response, logged, respond, resolve, wanted,
}

abbrev pub IsOk : {A : Type 0} → Result A → Type 0
IsOk {A} r = (a : A) × (r ≡ ok a)

module _ {F G : Type 0} (env : Env F G) where
  json_data-IsOk :
      (family : Option String) (tool : Option Tool) (t : SliverTool F)
      → is_some tool ≡ true
      → IsOk (json_data family tool t)
  unfolding json_data
  json_data-IsOk family none t h = absurd (cc)
  json_data-IsOk family (some tool) t h = (_, refl)

  tool_if_none-some :
      (id : String) (tool : Option Tool) (t : SliverTool F)
      → is_some (get_tool_from_tool_id env.backend id) ≡ true
      → t.tool_id ≡ id
      → is_some (tool_if_none env tool t) ≡ true
  tool_if_none-some id (some tool) t h e = refl
  tool_if_none-some id none t h e =
      ap (λ (i : String). is_some (get_tool_from_tool_id env.backend i)) e ∙ h

  json_list-IsOk :
      (id : String)
      → is_some (get_tool_from_tool_id env.backend id) ≡ true
      → (family : Option String) (tool : Option Tool) (ts : List (SliverTool F))
      → All (λ t. t.tool_id ≡ id) ts
      → IsOk (json_list env family tool ts)
  unfolding json_list
  json_list-IsOk id h family tool [] have = ([], refl)
  json_list-IsOk id h family tool (t ∷ ts) (e, have) =
      let (d, first) =
        json_data-IsOk family (tool_if_none env tool t) t (tool_if_none-some id tool t h e) in
      let (ds, rest) = json_list-IsOk id h family (tool_if_none env tool t) ts have in
      (d ∷ ds, rw (first, rest) refl)

  send_json_response-IsOk :
      (id : String)
      → is_some (get_tool_from_tool_id env.backend id) ≡ true
      → (family : Option String) (ts : List (SliverTool F)) → All (λ t. t.tool_id ≡ id) ts
      → IsOk (send_json_response env family ts)
  unfolding send_json_response
  send_json_response-IsOk id h family ts have =
      let (ds, e) = json_list-IsOk id h family none ts have in
      (json_or_none (several ts) ds, rw e refl)

  send_response-IsOk :
      (q : LookupQuery F) (ts : List (SliverTool F))
      → is_some (get_tool_from_tool_id env.backend q.tool_id) ≡ true
      → q.response_format ≢ "redirect"
      → q.response_format ≢ "map"
      → All (λ t. t.tool_id ≡ q.tool_id) ts
      → IsOk (send_response env q ts)
  unfolding send_response
  send_response-IsOk q ts h no_redirect no_map have =
      let sent = send_json_response-IsOk q.tool_id h q.tool_address_family ts have in
      if_elim IsOk (q.response_format == "json") _ _ (λ _. sent)
        (λ _.
          if_elim IsOk (q.response_format == "html") _ _ (λ _. (_, refl))
            (λ _.
              if_elim IsOk (q.response_format == "redirect") _ _
                (λ e. absurd (no_redirect ((eq_iff q.response_format "redirect").0 e)))
                (λ _.
                  if_elim IsOk (q.response_format == "bt") _ _ (λ _. (_, refl))
                    (λ _.
                      if_elim IsOk (q.response_format == "map") _ _
                        (λ e. absurd (no_map ((eq_iff q.response_format "map").0 e)))
                        (λ _. sent)))))

module _ {F G : Type 0} (env : Env F G) (laws : EnvLaws env) (m : Maxmind F) where
  -- For the tool ndt_ssl, the distance that is logged can be computed.
  abbrev pub CanLog : LookupQuery F → Type 0
  CanLog q = q.tool_id ≡ "ndt_ssl" → CanCompare env.fl (with_maxmind env.fl m q)

  logged-IsOk :
      (q : LookupQuery F) (loaded : Bool) (ts : List (SliverTool F)) (sent : Result (Response F))
      → IsReadable env.fl m loaded
      → HasPosition q
      → CanLog q
      → IsOk sent
      → IsOk (logged env m q loaded ts sent)
  unfolding logged
  logged-IsOk q loaded ts sent readable position near (r, e) =
      let (d, e') = log_location-total env.fl m q loaded ts readable position near in
      (r, rw (e, e') refl)

  -- A query for a tool that the datastore knows is answered without an exception in every format
  -- but redirect and map, whatever is drawn. The conditions are that the tools fetched have site ids,
  -- that the distances that are needed can be computed,
  -- that memcache holds under an id slivers of that tool only, that MaxMind can be read, and that a
  -- position of App Engine has both coordinates.
  pub resolve-total :
      (filed : IsCacheFiled env.backend) (q : LookupQuery F) (loaded : Bool) (g : G)
      → IsReadable env.fl m loaded
      → HasPosition q
      → CanLog q
      → All
          (IsAnswerable env laws.chance q.location.latitude q.location.longitude)
          (fetch env (criteria (new_resolver q.policy) (wanted q)) g).0
      → is_some (get_tool_from_tool_id env.backend q.tool_id) ≡ true
      → q.response_format ≢ "redirect"
      → q.response_format ≢ "map"
      → (r : Response F) × (resolve env m q loaded g ≡ ok r)
  unfolding resolve respond
  resolve-total filed q loaded g readable position near h known no_redirect no_map =
      let signature = calculate_client_signature q.ip_address q.user_agent q.path_qs in
      let (o, e) =
        answer_query-total env laws.chance (new_resolver q.policy) (wanted q) signature g h in
      rw e (
        answered o (λ ts same.
          All-map _ _ ts (λ t fits. fits.tool ∙ criteria_tool (new_resolver q.policy))
            (answer_query-Good env laws filed (new_resolver q.policy) (wanted q) signature g ts
              (e ∙ ap ok same)).0))
    where
      criteria_tool : (r : Resolver) → (criteria r (wanted q)).tool_id ≡ q.tool_id
      criteria_tool geo = refl
      criteria_tool metro = refl
      criteria_tool random = refl
      criteria_tool country = refl
      criteria_tool geo_options = refl
      criteria_tool all = refl

      answered :
          (o : Option (List (SliverTool F)))
          → ((ts : List (SliverTool F)) → o ≡ some ts → All (λ t. t.tool_id ≡ q.tool_id) ts)
          → (r : Response F) × (respond env m q loaded (ok o) ≡ ok r)
      answered none have = (_, refl)
      answered (some ts) have =
          logged-IsOk q loaded ts (send_response env q ts) readable position near
            (send_response-IsOk env q ts known no_redirect no_map (have ts refl))
