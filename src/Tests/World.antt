-- ===== src/Tests/World.antt =====
-- A small deployment: slivers at three sites, numbers in thousandths, and a generator that counts.
use mlab_ns.Base.{
  ℕ, zero, suc, ◌+◌, ◌-◌, ◌*◌, ◌/◌, ◌≤◌, String, Bool, true, false, ◌&&◌, Option, none, some, List,
  [], ◌∷◌, ◌++◌, ◌==◌, ◌≡◌, refl, ap, subst, ltb, nat_eq, contains, keep, take, length,
  if◌then◌else◌, if_elim, Memᴰ, Permᴰ, Permᴰ-refl, All, All-keep, All-self, All-map, arith, eq_iff,
}
use mathlib.Core.List.{head?}
use mathlib.Core.Option.{some-injective}
use mlab_ns.Base.Text.{join}
use mlab_ns.Runtime.{FloatOps, FloatOrder, Chance, ChanceLaws}
use mlab_ns.Model.{
  SliverTool, Site, Tool, SliverToolQuery, Answers, WithinSites, WithinCountry, Backend,
}
use mlab_ns.Env.{Env, EnvLaws}
use mlab_ns.Fetcher.Sound.{IsCacheFiled}

-- What only has to be some function is a simple one.
abbrev pub thousandths : FloatOps ℕ
thousandths = record {
  float = λ s. if s == "40.7" then some 40700 else if s == "0.0" then some 0 else none;
  less = ltb;
  is_number = λ x. true;
  is_zero = λ x. nat_eq x 0;
  abs = λ x. x;
  ratio = λ n d. n * 1000 / d;
  add = λ x y. x + y;
  sub = λ x y. (x - y) + (y - x);
  mul = λ x y. x * y / 1000;
  div = λ x y. x * 1000 / y;
  radians = λ x. x / 57;
  sin = λ x. some x;
  cos = λ x. some 1000;
  sqrt = λ x. some x;
  atan2 = λ x y. x;
  show = λ x. "0.0";
}

pub thousandths_order : FloatOrder thousandths
thousandths_order = record {
  less_asym = λ a b e. ground arith;
  less_through = λ a b c n e f. ground arith;
}

abbrev sample_of : List (SliverTool ℕ) → ℕ → ℕ → Option (List (SliverTool ℕ)) × ℕ
sample_of ts k g = (if ltb (length ts) k then none else some (take k ts), g)

-- The draws are 0, 1, 2, ... thousandths, up to 1.0.
abbrev pub counting : Chance ℕ ℕ (SliverTool ℕ)
counting = record {
  uniform = λ g. (if ltb 1000 g then 1000 else g, suc g);
  shuffle = λ ts g. (ts, g);
  sample = sample_of;
  choice = λ ts g. (head? ts, g);
  dict_values = λ ts. ts;
}

sample_split :
    {A : Type 0} (k : ℕ) (xs : List A)
    → k ≤ length xs
    → (rest : List A) × (length (take k xs) ≡ k) × (xs ≡ take k xs ++ rest)
sample_split zero xs h = (xs, refl, refl)
sample_split (suc k) [] h = absurd (omega (arith, h))
sample_split (suc k) (x ∷ xs) h =
    let (rest, l, e) = sample_split k xs (omega (arith, h)) in
    (rest, omega (arith, l), ap (λ ys. x ∷ ys) e)

pub counting_laws : ChanceLaws thousandths counting
counting_laws = record {
  uniform_le_one = λ g. ground arith;
  shuffle_perm = λ xs g. Permᴰ-refl xs;
  sample_perm = λ xs k g h.
      let (rest, l, e) = sample_split k xs h in
      (
        take k xs,
        rest,
        if_elim (λ o. o ≡ some (take k xs)) (ltb (length xs) k) none _ (λ t. absurd (ground arith))
            (λ _. refl),
        l,
        subst (λ ys. Permᴰ xs ys) e (Permᴰ-refl xs),
      );
  choice_mem = chosen_mem;
  choice_some = λ x xs g. (x, refl);
  values_perm = λ xs. Permᴰ-refl xs;
}
  where
    chosen_mem :
        (xs : List (SliverTool ℕ)) (g : ℕ) (y : SliverTool ℕ) → head? xs ≡ some y → Memᴰ y xs
    chosen_mem [] g y e = absurd (cc)
    chosen_mem (x ∷ xs) g y e = Memᴰ.head (cc)

abbrev sliver_of : String → String → String → String → ℕ → ℕ → SliverTool ℕ
sliver_of site server ipv4 status lat lon = record {
  key_name = join "-" ("ndt" ∷ "iupui_ndt" ∷ server ∷ site ∷ []);
  tool_id = "ndt";
  slice_id = "iupui_ndt";
  site_id = site;
  server_id = server;
  server_port = some "3001";
  http_port = some "7123";
  tool_extra = "";
  fqdn = join "" ("ndt-iupui-" ∷ server ∷ "-" ∷ site ∷ ".mlab-oti.measurement-lab.org" ∷ []);
  sliver_ipv4 = ipv4;
  sliver_ipv6 = "off";
  status_ipv4 = status;
  status_ipv6 = "offline";
  update_request_timestamp = 7;
  latitude = lat;
  longitude = lon;
  city = "";
  country = "US";
  roundrobin = false;
}

abbrev pub lga_mlab1 : SliverTool ℕ
lga_mlab1 = sliver_of "lga03" "mlab1" "4.14.159.86" "online" 40700 73900

abbrev pub lga_mlab2 : SliverTool ℕ
lga_mlab2 = sliver_of "lga03" "mlab2" "4.14.159.99" "online" 40700 73900

abbrev pub lax_mlab1 : SliverTool ℕ
lax_mlab1 = sliver_of "lax04" "mlab1" "38.98.51.12" "online" 33900 118400

abbrev pub sea_mlab1 : SliverTool ℕ
sea_mlab1 = sliver_of "sea0c" "mlab1" "off" "offline" 47400 122300

abbrev pub slivers : List (SliverTool ℕ)
slivers = lax_mlab1 ∷ lga_mlab2 ∷ lga_mlab1 ∷ sea_mlab1 ∷ []

abbrev pub ndt : Tool
ndt = record {
  slice_id = "iupui_ndt";
  tool_id = "ndt";
  server_port = some "3001";
  http_port = some "7123";
  show_tool_extra = true;
  status_source = some "prometheus";
}

abbrev pub lga03 : Site ℕ
lga03 = record {
  site_id = "lga03";
  city = "New York";
  country = "US";
  latitude = 40700;
  longitude = 73900;
  metro = "lga" ∷ [];
  registration_timestamp = 1;
  roundrobin = false;
}

-- The conditions of a query, tested.
abbrev within_sites : Option (List String) → String → Bool
within_sites none s = true
within_sites (some ids) s = contains s ids

abbrev within_country : Option String → String → Bool
within_country none c = true
within_country (some d) c = c == d

abbrev pub answers : SliverToolQuery → SliverTool ℕ → Bool
answers q t =
    (t.tool_id == q.tool_id)
    && within_sites q.site_ids t.site_id
    && within_country q.country t.country

within_sites-Within :
    (ids : Option (List String)) (s : String) → within_sites ids s ≡ true → WithinSites ids s
within_sites-Within none s e = tt
within_sites-Within (some ids) s e = e

within_country-Within :
    (c : Option String) (d : String) → within_country c d ≡ true → WithinCountry c d
within_country-Within none d e = tt
within_country-Within (some c) d e = (eq_iff d c).0 e

pub answers-Answers : (q : SliverToolQuery) (t : SliverTool ℕ) → answers q t ≡ true → Answers q t
answers-Answers q t e = (
  (eq_iff t.tool_id q.tool_id).0 (ground arith),
  within_sites-Within q.site_ids t.site_id (ground arith),
  within_country-Within q.country t.country (ground arith),
)

Within-within_sites :
    (ids : Option (List String)) (s : String) → WithinSites ids s → within_sites ids s ≡ true
Within-within_sites none s h = refl
Within-within_sites (some ids) s h = h

Within-within_country :
    (c : Option String) (d : String) → WithinCountry c d → within_country c d ≡ true
Within-within_country none d h = refl
Within-within_country (some c) d h = (eq_iff d c).1 h

pub Answers-answers : (q : SliverToolQuery) (t : SliverTool ℕ) → Answers q t → answers q t ≡ true
Answers-answers q t (id, sites, country) = ground (
  arith,
  (eq_iff t.tool_id q.tool_id).1 id,
  Within-within_sites q.site_ids t.site_id sites,
  Within-within_country q.country t.country country,
)

-- Memcache holds the slivers; so does the datastore.
abbrev pub stored : Backend ℕ
stored = record {
  cached_tools = λ id. some (keep (λ (t : SliverTool ℕ). t.tool_id == id) slivers);
  cached_requests = λ key. if key == "1.2.3.4##/ndt" then some "2500" else none;
  query_sliver_tools = λ q. keep (answers q) slivers;
  sites_in_metro = λ m. if m == "lga" then lga03 ∷ [] else [];
  all_tools = ndt ∷ [];
  tools_by_id = λ id. if id == "ndt" then ndt ∷ [] else [];
}

pub stored-IsCacheFiled : IsCacheFiled stored
stored-IsCacheFiled = record { filed = kept }
  where
    kept :
        (id : String) (ts : List (SliverTool ℕ))
        → stored.cached_tools id ≡ some ts
        → All (λ t. t.tool_id ≡ id) ts
    kept id ts e = subst (All (λ (t : SliverTool ℕ). t.tool_id ≡ id)) (some-injective _ _ e) (
        All-map _ _ _ (λ t p. (eq_iff t.tool_id id).0 p.1)
          (All-keep (λ t. Memᴰ t slivers) (λ (t : SliverTool ℕ). t.tool_id == id) slivers
            (All-self slivers)))

abbrev pub world : Env ℕ ℕ
world = record { fl = thousandths; rng = counting; backend = stored }

pub world_laws : EnvLaws world
world_laws = record {
  chance = counting_laws;
  stored = record {
    query_answers = λ q.
        All-map _ _ _ (λ t p. answers-Answers q t p.1)
          (All-keep (λ t. Memᴰ t slivers) (answers q) slivers (All-self slivers));
  };
}
