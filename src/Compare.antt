-- ===== src/Compare.antt =====
-- compare_instances.py: what two instances of the program answer for a tool, compared
-- sample by sample. What an instance answers is that of the lookup handler.
pub mod Sets
pub mod Runs
pub mod Queueing
pub mod Instances
use Prim.Native.String.{compare}
use text.Mathlib.Text.{is_lt}
use mlab_ns.Base.{
  ℕ, suc, ◌+◌, String, code, Bool, true, false, ◌||◌, ◌&&◌, not, Option, none, some, List, [], ◌∷◌,
  ◌==◌, if◌then◌else◌, nat_eq, leb, ltb, keep, length, map,
}
use mlab_ns.Base.Regex.{Regex, one, seq, group, Groups, group_text, re_search}
use mlab_ns.Base.Errors.{PyError, Result, ok, raise, ◌>>=◌}
use mlab_ns.Page.{Answer, received, http_error, url_error}
use mlab_ns.Runtime.{FloatOps}
use mlab_ns.Lookup.{JsonData}

-- The JSON that an instance sends: an array, or the object alone of a single tool.
pub data Status : Type 0 where
  listed : List JsonData → Status
  single : JsonData → Status

-- The options that are read after parse_options. Without --samples there are 60; with it the
-- option is a text, since no type is given.
pub data Samples : Type 0 where
  default_samples : Samples
  given : String → Samples

pub record Options : Type 0 where
  pub samples : Samples
  pub all_fields : Bool
  pub infer_queueing : Bool
  -- re.search for the patterns to ignore
  pub ignore_patterns : List (String → Bool)

-- get_mlabns_status, with none for what is not JSON.
unfoldable pub get_mlabns_status : Answer (Option Status) → Result Status
get_mlabns_status http_error = raise PyError.system_exit
get_mlabns_status url_error = raise PyError.url_error
get_mlabns_status (received none) = raise PyError.system_exit
get_mlabns_status (received (some status)) = ok status

-- The loop over the patterns.
abbrev pub is_ignored : List (String → Bool) → String → Bool
is_ignored [] fqdn = false
is_ignored (p ∷ ps) fqdn = let rest = is_ignored ps fqdn in if p fqdn then true else rest

-- A dict is gone through by its keys: a pattern indexes the first one, a text, by 'fqdn', and
-- without patterns the dict is indexed by 0.
abbrev pub filter_single : List (String → Bool) → Result (List JsonData)
filter_single [] = raise PyError.key_error
filter_single (p ∷ ps) = raise PyError.type_error

-- filter_results
unfoldable pub filter_results : List (String → Bool) → Status → Result (List JsonData)
filter_results patterns (listed ds) =
    ok (keep (λ (d : JsonData). not (is_ignored patterns d.fqdn)) ds)
filter_results patterns (single d) = filter_single patterns

infixr 40 ◌▸◌
abbrev ◌▸◌ : Regex → Regex → Regex
r ▸ s = seq r s

abbrev char : ℕ → Regex
char c = one (λ d. nat_eq d c)

abbrev between : ℕ → ℕ → Regex
between a b = one (λ c. leb a c && leb c b)

-- (mlab[1-4])\.([a-z]{3}[0-9]{2})
abbrev pub node_regex : Regex
node_regex =
    group 1 (char b'm' ▸ char b'l' ▸ char b'a' ▸ char b'b' ▸ between b'1' b'4')
    ▸ char b'.'
    ▸ group 2 (
        between b'a' b'z'
        ▸ between b'a' b'z'
        ▸ between b'a' b'z'
        ▸ between b'0' b'9'
        ▸ between b'0' b'9')

abbrev both_groups : Option String → Option String → Result (String × String)
both_groups (some node) (some site) = ok (node, site)
both_groups _ _ = raise PyError.attribute_error

abbrev groups_of : Option Groups → Result (String × String)
groups_of none = raise PyError.attribute_error
groups_of (some gs) = both_groups (group_text 1 gs) (group_text 2 gs)

-- re.search(...).groups(), where None has no method groups.
unfoldable pub node_and_site : String → Result (String × String)
node_and_site fqdn = groups_of (re_search node_regex fqdn)

abbrev starts_with : String → String → Bool
starts_with String.[] s = true
starts_with (String.◌∷◌ c p) String.[] = false
starts_with (String.◌∷◌ c p) (String.◌∷◌ d s) = nat_eq (code c) (code d) && starts_with p s

-- part in text
unfoldable pub occurs_in : String → String → Bool
occurs_in part String.[] = starts_with part String.[]
occurs_in part (String.◌∷◌ c s) = starts_with part (String.◌∷◌ c s) || occurs_in part s

-- The choice of infer_queueing for one result of the first instance, from those of the second that
-- name its site.
unfoldable pub munged : JsonData → String → String → List JsonData → Result JsonData
munged d node site [] = raise PyError.index_error
munged d node site (e ∷ es) = do
  (node', site') ← node_and_site e.fqdn
  ok (if site == site' && is_lt (compare node node') then d else e)

-- infer_queueing
unfoldable pub infer_queueing : List JsonData → List JsonData → Result (List JsonData)
infer_queueing [] others = ok []
infer_queueing (d ∷ ds) others = do
  (node, site) ← node_and_site d.fqdn
  m ← munged d node site (keep (λ (e : JsonData). occurs_in site e.fqdn) others)
  ms ← infer_queueing ds others
  ok (m ∷ ms)

-- A tuple of convert_results.
abbrev pub Item : Type 0
Item = List String

abbrev pub same_item : Item → Item → Bool
same_item [] [] = true
same_item [] (t ∷ ts) = false
same_item (s ∷ ss) [] = false
same_item (s ∷ ss) (t ∷ ts) = s == t && same_item ss ts

abbrev pub has_item : Item → List Item → Bool
has_item x [] = false
has_item x (y ∷ ys) = let rest = has_item x ys in if same_item x y then true else rest

abbrev item_with : JsonData → List String → Option String → Result Item
item_with d [] url = raise PyError.index_error
item_with d (ip ∷ ips) none = raise PyError.key_error
item_with d (ip ∷ ips) (some url) = ok (d.city ∷ d.country ∷ d.fqdn ∷ ip ∷ d.site ∷ url ∷ [])

-- The item of a result: of all fields, the first address and the URL have to be there.
abbrev pub item_of : Bool → JsonData → Result Item
item_of all_fields d = if all_fields then item_with d d.ip d.url else ok (d.fqdn ∷ [])

-- A set, as a list in which nothing is twice.
unfoldable pub set_of : List Item → List Item
set_of [] = []
set_of (x ∷ xs) = let rest = set_of xs in if has_item x rest then rest else x ∷ rest

unfoldable pub items_of : Bool → List JsonData → Result (List Item)
items_of all_fields [] = ok []
items_of all_fields (d ∷ ds) = do x ← item_of all_fields d; xs ← items_of all_fields ds; ok (x ∷ xs)

-- convert_results
unfoldable pub convert_results : Bool → List JsonData → Result (List Item)
convert_results all_fields ds = do xs ← items_of all_fields ds; ok (set_of xs)

pub record Comparison : Type 0 where
  pub common : List Item
  pub missing : List Item
  pub extra : List Item

-- compare_results
unfoldable pub compare_results : List Item → List Item → Comparison
compare_results s1 s2 = record {
  common = keep (λ x. has_item x s2) s1;
  missing = keep (λ x. not (has_item x s2)) s1;
  extra = keep (λ x. not (has_item x s1)) s2;
}

-- The totals of get_metrics.
pub record Totals : Type 0 where
  pub samples : ℕ
  pub common : ℕ
  pub missing : ℕ
  pub extra : ℕ
  pub denominator : ℕ

-- A line that is printed.
pub record Line (F : Type 0) : Type 0 where
  pub sample : ℕ
  pub common : ℕ
  pub missing : ℕ
  pub extra : ℕ
  pub pct_agree : F
  pub pct_disagree : F
  pub avg_common : F
  pub avg_missing : F
  pub avg_extra : F
  pub avg_pct_agree : F
  pub avg_pct_disagree : F

-- What is printed: the header with the names of the columns, or the line of a sample.
pub data Printed (F : Type 0) : Type 0 where
  header : Printed F
  row : Line F → Printed F

abbrev pub no_totals : Totals
no_totals = record { samples = 0; common = 0; missing = 0; extra = 0; denominator = 0 }

-- How a run of get_metrics ends: it is done, an exception ends it, or it still goes on.
pub data Ending : Type 0 where
  done : Ending
  stopped : PyError → Ending
  running : Ending

-- samples < args.samples, where every int is less than a text.
abbrev pub goes_on : ℕ → Samples → Bool
goes_on n default_samples = ltb n 60
goes_on n (given s) = true

module _ {F : Type 0} (fl : FloatOps F) (o : Options) where
  abbrev pub if_inferred : List JsonData → List JsonData → Result (List JsonData)
  if_inferred first second = if o.infer_queueing then infer_queueing first second else ok second

  -- The comparison of a sample, from what the two instances send.
  unfoldable pub compared : Answer (Option Status) → Answer (Option Status) → Result Comparison
  compared a b = do
    results_one ← get_mlabns_status a
    filtered_one ← filter_results o.ignore_patterns results_one
    results_two ← get_mlabns_status b
    filtered_two ← filter_results o.ignore_patterns results_two
    inferred ← if_inferred filtered_one filtered_two
    set_one ← convert_results o.all_fields filtered_one
    set_two ← convert_results o.all_fields inferred
    ok (compare_results set_one set_two)

  abbrev pub totals_with : Comparison → Totals → Totals
  totals_with c t = record {
    samples = t.samples + 1;
    common = t.common + length c.common;
    missing = t.missing + length c.missing;
    extra = t.extra + length c.extra;
    denominator = t.denominator + (length c.common + length c.missing + length c.extra);
  }

  -- n / d * 100
  abbrev percent : ℕ → ℕ → F
  percent n d = fl.mul (fl.ratio n d) (fl.ratio 100 1)

  abbrev pub line_of : Comparison → Totals → Line F
  line_of c t =
      let denominator = length c.common + length c.missing + length c.extra in
      record {
        sample = t.samples;
        common = length c.common;
        missing = length c.missing;
        extra = length c.extra;
        pct_agree = percent (length c.common) denominator;
        pct_disagree = percent (length c.missing + length c.extra) denominator;
        avg_common = fl.ratio t.common t.samples;
        avg_missing = fl.ratio t.missing t.samples;
        avg_extra = fl.ratio t.extra t.samples;
        avg_pct_agree = percent t.common t.denominator;
        avg_pct_disagree = percent (t.missing + t.extra) t.denominator;
      }

  -- The line of a sample and the new totals, where the denominator is not 0.
  unfoldable pub counted : Totals → Comparison → Result (Line F × Totals)
  counted t c =
      if nat_eq (length c.common + length c.missing + length c.extra) 0
      then raise PyError.zero_division_error
      else ok (line_of c (totals_with c t), totals_with c t)

  abbrev then_on :
      Result (Line F × Totals) → (Totals → List (Line F) × Ending) → List (Line F) × Ending
  then_on (raise e) more = ([], stopped e)
  then_on (ok (line, t)) more = let (lines, ending) = more t in (line ∷ lines, ending)

  -- The loop of get_metrics, for as many rounds as there is fuel: its lines and how it ends.
  unfoldable pub rounds :
      (ℕ → Answer (Option Status) × Answer (Option Status)) → ℕ → Totals → List (Line F) × Ending
  rounds sent ℕ.zero t = ([], running)
  rounds sent (suc fuel) t =
      if goes_on t.samples o.samples
      then then_on (do c ← compared (sent t.samples).0 (sent t.samples).1; counted t c)
          (rounds sent fuel)
      else ([], done)

  -- get_metrics: what is printed, the header first, and how it ends.
  unfoldable pub get_metrics :
      (ℕ → Answer (Option Status) × Answer (Option Status)) → ℕ → List (Printed F) × Ending
  get_metrics sent fuel =
      let (lines, ending) = rounds sent fuel no_totals in (header ∷ map row lines, ending)
