-- ===== src/Compare/Instances.antt =====
-- What compare_instances.py makes of the answers of the lookup handler.
use mlab_ns.Base.{
  ℕ, suc, String, Bool, true, false, Option, none, some, List, [], ◌∷◌, ◌≡◌, refl, sym, ◌∙◌, ap,
}
use mlab_ns.Base.Errors.{PyError, Result, ok, raise, ok-injective}
use mlab_ns.Page.{Answer, received}
use mlab_ns.Runtime.{FloatOps}
use mlab_ns.Model.{SliverTool}
use mlab_ns.Env.{Env}
use mlab_ns.Lookup.{
  JsonData, Response, json, json_data, json_list, tool_if_none, send_json_response,
}
use mlab_ns.Compare.{Status, listed, single, Options, stopped, header, get_metrics}
use mlab_ns.Compare.Runs.{get_metrics-single}

-- What a client reads of a JSON response: an array, or the object that stands alone.
abbrev pub status_of : Bool → List JsonData → Option Status
status_of true ds = some (listed ds)
status_of false (d ∷ []) = some (single d)
status_of false _ = none

same_parts :
    {F : Type 0} (a b : Bool) (ds es : List JsonData)
    → ◌≡◌ {A = Response F} (json a ds) (json b es)
    → (a ≡ b) × (ds ≡ es)
same_parts a b ds es e = (cc, cc)

module _ {F G : Type 0} (env : Env F G) where
  send_json_response-one :
      (family : Option String) (t : SliverTool F) (array : Bool) (ds : List JsonData)
      → send_json_response env family (t ∷ []) ≡ ok (json array ds)
      → (d : JsonData) × (status_of array ds ≡ some (single d))
  unfolding send_json_response json_list
  send_json_response-one family t array ds e =
      by_data (json_data family (tool_if_none env none t) t) refl
    where
      by_data :
          (r : Result JsonData)
          → json_data family (tool_if_none env none t) t ≡ r
          → (d : JsonData) × (status_of array ds ≡ some (single d))
      by_data (raise x) same = absurd (cc (rw same at e))
      by_data (ok d) same =
          let parts = same_parts false array (d ∷ []) ds (ok-injective (rw same at e)) in
          (d, of_parts parts.0 parts.1)
        where
          of_parts : false ≡ array → d ∷ [] ≡ ds → status_of array ds ≡ some (single d)
          of_parts a b = rw (sym a, sym b) refl

  -- Where the lookup handler of the first instance answers with the JSON of one tool, a comparison with
  -- it prints the header alone and ends in an exception, whatever the options and the second instance.
  pub get_metrics_one_tool :
      (fl : FloatOps F) (o : Options) (sent : ℕ → Answer (Option Status) × Answer (Option Status))
      (family : Option String) (t : SliverTool F) (array : Bool) (ds : List JsonData) (fuel : ℕ)
      → send_json_response env family (t ∷ []) ≡ ok (json array ds)
      → (sent 0).0 ≡ received (status_of array ds)
      → (e : PyError) × (get_metrics fl o sent (suc fuel) ≡ (header ∷ [], stopped e))
  get_metrics_one_tool fl o sent family t array ds fuel sends reads =
      let (d, e) = send_json_response-one family t array ds sends in
      let (x, failed, ends) = get_metrics-single fl o sent d fuel (reads ∙ ap received e) in
      (x, ends)
