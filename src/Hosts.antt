-- ===== src/Hosts.antt =====
-- _filter_choose_one_host_per_site of server/mlabns/db/sliver_tool_fetcher.py: the table of one
-- host per site, the round robin between the hosts of a site, and the loop over the tools. The
-- generator of random numbers is passed along.
pub mod Kept
use Prim.Native.String.{compare}
use text.Mathlib.Text.{is_lt}
use mlab_ns.Base.{
  ℕ, ◌+◌, String, Bool, true, false, Option, none, some, List, [], ◌∷◌, map, ◌==◌, if◌then◌else◌,
}
use mlab_ns.Runtime.{FloatOps, Chance}
use mlab_ns.Base.Dict.{lookup, insert, values}
use mlab_ns.Model.{SliverTool}
use mlab_ns.Env.{Env}

-- RoundRobinCounter = defaultdict(lambda: 2)
abbrev pub counter_at : String → List (String × ℕ) → ℕ
counter_at k d = elim (lookup k d) [ none ↦ 2 | some n ↦ n ]

-- min(a, b, key=fqdn): the first of the two unless the second is less.
unfoldable pub min_fqdn : {F : Type 0} → SliverTool F → SliverTool F → SliverTool F
min_fqdn a b = if is_lt (compare b.fqdn a.fqdn) then b else a

pub record Hosts (F : Type 0) : Type 0 where
  pub sites : List (String × SliverTool F)
  pub counter : List (String × ℕ)

abbrev pub no_hosts : {F : Type 0} → Hosts F
no_hosts = record { sites = []; counter = [] }

module _ {F G : Type 0} (env : Env F G) where
  -- The second, third, ... host of a round robin site replaces the one that is kept with
  -- probability 1/2, 1/3, ...
  unfoldable pub round_robin : SliverTool F → Hosts F → G → Hosts F × G
  round_robin tool h g =
      let (u, g') = env.rng.uniform g in
      let n = counter_at tool.site_id h.counter in
      let replaced = insert tool.site_id tool h.sites in
      (
        record {
          sites = if env.fl.less u (env.fl.ratio 1 n) then replaced else h.sites;
          counter = insert tool.site_id (n + 1) h.counter;
        },
        g',
      )

  -- One round of the loop.
  unfoldable pub add_host : SliverTool F → Hosts F → G → Hosts F × G
  add_host tool h g = elim (lookup tool.site_id h.sites) [
    | none ↦ (record h { sites = insert tool.site_id tool h.sites }, g)
    | some current ↦
        if tool.roundrobin
        then round_robin tool h g
        else (record h { sites = insert tool.site_id (min_fqdn current tool) h.sites }, g)
  ]

  unfoldable pub add_hosts : List (SliverTool F) → Hosts F → G → Hosts F × G
  add_hosts [] h g = (h, g)
  add_hosts (tool ∷ tools) h g = let (h', g') = add_host tool h g in add_hosts tools h' g'

  unfoldable pub choose_one_host_per_site : List (SliverTool F) → G → List (SliverTool F) × G
  choose_one_host_per_site tools g =
      let (h, g') = add_hosts tools no_hosts g in (env.rng.dict_values (values h.sites), g')
