-- ===== src/Distance.antt =====
-- server/mlabns/util/distance.py, and what server/mlabns/util/resolver.py does with site ids and
-- distances: the filter on backup sites, the probability of a site, the sort.
pub mod Sorting
use mlab_ns.Base.{
  ℕ, zero, suc, ◌+◌, String, Bool, true, false, ◌||◌, Option, none, some, List, [], ◌∷◌, ◌++◌, map,
  ◌==◌, opt_eq, truthy, keep, if◌then◌else◌, is_empty, text_or_none, take, min, length, nat_eq, not,
  code, is_some,
}
use mlab_ns.Base.Text.{last_code}
use mlab_ns.Base.Errors.{PyError, Result, ok, raise, index_error, value_error, ◌>>=◌}
use mlab_ns.Message.{
  status_online, policy_geo, policy_metro, policy_random, policy_country, policy_geo_options,
  policy_all,
}
use mlab_ns.Runtime.{FloatOps}
use mlab_ns.Model.{SliverTool, Site, SliverToolQuery, Backend}
use mlab_ns.Base.Dict.{lookup, insert}
use mlab_ns.Env.{Env}

abbrev value_of : {F : Type 0} → Option F → Result F
value_of none = raise value_error
value_of (some x) = ok x

-- distance.py: the haversine formula. The root of 1 - a is a ValueError where rounding makes a
-- greater than 1, as it may at the antipode.
unfoldable pub distance : {F : Type 0} → FloatOps F → F → F → F → F → Result F
distance fl lat1 lon1 lat2 lon2 = do
  half_lat ← value_of (fl.sin (fl.div (fl.radians (fl.sub lat2 lat1)) (fl.ratio 2 1)))
  cos1 ← value_of (fl.cos (fl.radians lat1))
  cos2 ← value_of (fl.cos (fl.radians lat2))
  half_lon ← value_of (fl.sin (fl.div (fl.radians (fl.sub lon2 lon1)) (fl.ratio 2 1)))
  let a = fl.add (fl.mul half_lat half_lat) (fl.mul (fl.mul (fl.mul cos1 cos2) half_lon) half_lon)
  root ← value_of (fl.sqrt a)
  other ← value_of (fl.sqrt (fl.sub (fl.ratio 1 1) a))
  ok (fl.mul (fl.ratio 6371 1) (fl.mul (fl.ratio 2 1) (fl.atan2 root other)))

-- site_keep_probability, in tenths.
abbrev pub site_keep_tenths : List (String × ℕ)
site_keep_tenths =
    ("bom01", 5)
    ∷ ("hnd01", 2)
    ∷ ("lga1t", 5)
    ∷ ("lis01", 5)
    ∷ ("lju01", 5)
    ∷ ("tnr01", 5)
    ∷ ("tun01", 5)
    ∷ ("vie01", 5)
    ∷ ("yqm01", 5)
    ∷ ("yul02", 2)
    ∷ ("yvr01", 2)
    ∷ ("ywg01", 5)
    ∷ ("yyc02", 5)
    ∷ ("yyz02", 2)
    ∷ []

-- site_id[-1] == 'c', with the IndexError of an empty site id.
abbrev pub is_backup_site : String → Result Bool
is_backup_site String.[] = raise index_error
is_backup_site (String.◌∷◌ c s) = ok (nat_eq (last_code s (code c)) b'c')

module _ {F : Type 0} where
  -- filter(lambda c: c.site_id[-1] == 'c', tools), or != 'c' where backup is false
  unfoldable pub keep_sites : Bool → List (SliverTool F) → Result (List (SliverTool F))
  keep_sites backup [] = ok []
  keep_sites backup (t ∷ ts) = do
    b ← is_backup_site t.site_id
    rest ← keep_sites backup ts
    ok (if (if backup then b else not b) then t ∷ rest else rest)

  -- list.sort(key=distance), which is stable, on pairs of a distance and a tool.
  unfoldable pub insert_by_distance :
      FloatOps F → F × SliverTool F → List (F × SliverTool F) → List (F × SliverTool F)
  insert_by_distance fl x [] = x ∷ []
  insert_by_distance fl x (y ∷ ys) =
      let further = insert_by_distance fl x ys in
      if fl.less y.0 x.0 then y ∷ further else x ∷ y ∷ ys

  unfoldable pub sort_by_distance : FloatOps F → List (F × SliverTool F) → List (F × SliverTool F)
  sort_by_distance fl [] = []
  sort_by_distance fl (x ∷ xs) = insert_by_distance fl x (sort_by_distance fl xs)

  abbrev pub site_keep_probability : FloatOps F → String → F
  site_keep_probability fl site_id = elim (lookup site_id site_keep_tenths) [
    | none ↦ fl.ratio 1 1
    | some n ↦ fl.ratio n 10
  ]
