-- ===== src/Tests/Comparisons.antt =====
-- Comparisons of two instances.
use mlab_ns.Base.{
  ℕ, ◌+◌, String, false, not, ◌&&◌, Option, none, some, List, [], ◌∷◌, ◌≡◌, refl, arith, length,
  ◌<◌,
}
use mlab_ns.Base.Errors.{ok}
use mlab_ns.Base.Regex.{re_search, re_match, match_from}
use mlab_ns.Page.{Answer, received}
use mlab_ns.Model.{get_tool_from_tool_id}
use mlab_ns.Fqdn.{rewrite, apply_af_awareness, parse, replace}
use mlab_ns.Lookup.{
  JsonData, json, send_json_response, json_list, json_data, create_tool_url, ips_of,
}
use mlab_ns.Compare.{
  Status, listed, default_samples, Options, Item, has_item, set_of, compare_results, compared,
  get_mlabns_status, filter_results, convert_results, items_of, done, running, get_metrics,
  infer_queueing, munged, node_and_site, occurs_in, given,
}
use mlab_ns.Compare.Sets.{compare_results_lem}
use mlab_ns.Compare.Runs.{IsComparable, get_metrics_ends}
use mlab_ns.Compare.Queueing.{AllStand, infer_queueing-AllStand}
use mlab_ns.Tests.World.{world, thousandths, lga_mlab1}

abbrev result : String → String → JsonData
result fqdn ip = record {
  url = none;
  port = none;
  fqdn = fqdn;
  ip = ip ∷ [];
  site = "lga03";
  city = "New_York";
  country = "US";
  tool_extra = none;
}

abbrev mlab1 : JsonData
mlab1 = result "ndt.iupui.mlab1.lga03.measurement-lab.org" "4.14.159.86"

abbrev mlab2 : JsonData
mlab2 = result "ndt.iupui.mlab2.lga03.measurement-lab.org" "4.14.159.99"

abbrev options : Options
options = record {
  samples = default_samples;
  all_fields = false;
  infer_queueing = false;
  ignore_patterns = [];
}

-- The first instance has a server that the second one leaves out.
abbrev sent : ℕ → Answer (Option Status) × Answer (Option Status)
sent n = (received (some (listed (mlab1 ∷ mlab2 ∷ []))), received (some (listed (mlab1 ∷ []))))

abbrev items : List Item
items = ("a" ∷ []) ∷ ("b" ∷ []) ∷ ("a" ∷ []) ∷ []

abbrev others : List Item
others = ("b" ∷ []) ∷ ("c" ∷ []) ∷ []

compare_results_lem_example :
    let c = compare_results (set_of items) (set_of others) in
    ((x : Item)
      → (has_item x c.common ≡ (has_item x items && has_item x others))
        × (has_item x c.missing ≡ (has_item x items && not (has_item x others)))
        × (has_item x c.extra ≡ (has_item x others && not (has_item x items))))
    × (length c.common + length c.missing ≡ length (set_of items))
    × (length c.common + length c.extra ≡ length (set_of others))
compare_results_lem_example = compare_results_lem items others

sent-IsComparable : (n : ℕ) → IsComparable thousandths options sent n
unfolding compared get_mlabns_status filter_results convert_results items_of set_of compare_results
sent-IsComparable n = (_, refl, λ e. absurd (omega (arith, e)))

get_metrics_ends_example :
    (options.samples ≡ default_samples
      → (fuel : ℕ) → 60 < fuel
      → ((get_metrics thousandths options sent fuel).1 ≡ done)
        × (length (get_metrics thousandths options sent fuel).0 ≡ 61))
    × ((s : String)
        → options.samples ≡ given s
        → (fuel : ℕ)
        → ((get_metrics thousandths options sent fuel).1 ≡ running)
          × (length (get_metrics thousandths options sent fuel).0 ≡ ℕ.suc fuel))
get_metrics_ends_example = get_metrics_ends thousandths options sent sent-IsComparable

-- The second instance advertises another server of the site.
queueing : infer_queueing (mlab1 ∷ []) (mlab2 ∷ []) ≡ ok (mlab1 ∷ [])
unfolding infer_queueing node_and_site re_search re_match match_from munged occurs_in
queueing = refl

infer_queueing-AllStand_example : AllStand (mlab2 ∷ []) (mlab1 ∷ []) (mlab1 ∷ [])
infer_queueing-AllStand_example =
    infer_queueing-AllStand (mlab1 ∷ []) (mlab2 ∷ []) (mlab1 ∷ []) queueing

abbrev only_data : JsonData
only_data = record {
  url = some "http://ndt-iupui-mlab1-lga03.mlab-oti.measurement-lab.org:7123";
  port = some "3001";
  fqdn = "ndt-iupui-mlab1-lga03.mlab-oti.measurement-lab.org";
  ip = "4.14.159.86" ∷ [];
  site = "lga03";
  city = "";
  country = "US";
  tool_extra = none;
}

only_sent : send_json_response world none (lga_mlab1 ∷ []) ≡ ok (json false (only_data ∷ []))
unfolding send_json_response json_list json_data get_tool_from_tool_id create_tool_url ips_of
    rewrite apply_af_awareness parse replace
only_sent = refl
