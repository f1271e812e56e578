-- ===== src/Tests/Lookups.antt =====
-- Lookups in the small deployment.
use mlab_ns.Base.{
  ℕ, false, Option, none, some, List, [], ◌∷◌, ◌≡◌, refl, sym, subst, arith, eq_iff, All, All-map,
  Apart, Memᴰ,
}
use mlab_ns.Base.Errors.{ok}
use mlab_ns.Model.{SliverTool}
use mlab_ns.Filters.{filter_by_status}
use mlab_ns.Filters.Status.{StatusOn, filter_by_status_iff}
use mlab_ns.Hosts.{choose_one_host_per_site, add_hosts, add_host, min_fqdn}
use mlab_ns.Hosts.Kept.{OtherSite}
use mlab_ns.Fetcher.{
  fetch, memcache_fetch, fetch_cached, apply_filters, apply_filter, find_site_ids_for_metro,
}
use mlab_ns.Fetcher.Sound.{Fits, fetch-Fits, fetch-Apart}
use mlab_ns.ClientSignature.{signature_probability, probability_of}
use mlab_ns.Distance.{distance, keep_sites, sort_by_distance, insert_by_distance}
use mlab_ns.Resolver.{
  Wanted, geo_options, answer_query, get_closest_n_candidates, closest_n_found, closest_n_of,
  closest_to, nearest, add_candidates, add_candidate, fetch_tools_with_properties,
  tool_properties_from_query,
}
use mlab_ns.Resolver.Kept.{IsBackup}
use mlab_ns.Resolver.Ranked.{IsClosest, closest_to-IsRanked, closest_to_regular}
use mlab_ns.Resolver.Answers.{Good, criteria, answer_query-Good}
use mlab_ns.Resolver.Total.{HasSiteId, answer_query-total}
use mlab_ns.Tests.World.{
  world, world_laws, counting_laws, thousandths_order, stored-IsCacheFiled, slivers, lga_mlab1,
  lga_mlab2, lax_mlab1, sea_mlab1,
}

-- A client in Philadelphia, who asks for NDT over IPv4.
abbrev client : Wanted ℕ
client = record {
  tool_id = "ndt";
  tool_address_family = some "ipv4";
  latitude = some 39900;
  longitude = some 75100;
  country = some "US";
  metro = none;
}

abbrev near : List (SliverTool ℕ)
near = lga_mlab1 ∷ lax_mlab1 ∷ []

fetched : (fetch world (tool_properties_from_query client) 0).0 ≡ lax_mlab1 ∷ lga_mlab1 ∷ []
unfolding fetch memcache_fetch fetch_cached apply_filters apply_filter filter_by_status
    choose_one_host_per_site add_hosts add_host min_fqdn
fetched = refl

answered : (answer_query world geo_options client "" 0).0 ≡ ok (some near)
unfolding answer_query get_closest_n_candidates closest_n_found closest_n_of closest_to nearest
    add_candidates add_candidate fetch_tools_with_properties fetch memcache_fetch fetch_cached
    apply_filters apply_filter filter_by_status choose_one_host_per_site add_hosts add_host min_fqdn
    signature_probability probability_of distance keep_sites sort_by_distance insert_by_distance
answered = refl

answer_query-Good_example :
    Good (Fits (find_site_ids_for_metro world) (criteria geo_options client)) (some 4) near
answer_query-Good_example =
    answer_query-Good world world_laws stored-IsCacheFiled geo_options client "" 0 near answered

fetched-HasSiteId : All HasSiteId (fetch world (criteria geo_options client) 0).0
fetched-HasSiteId =
    subst (All HasSiteId) (sym fetched)
      (ground (arith, eq_iff "lax04" ""), (ground (arith, eq_iff "lga03" ""), tt))

answer_query-total_example :
    (o : Option (List (SliverTool ℕ))) × ((answer_query world geo_options client "" 0).0 ≡ ok o)
unfolding distance
answer_query-total_example =
    answer_query-total world counting_laws geo_options client "" 0
      (All-map _ _ _ (λ t h. (h, λ x y at_x at_y. (_, refl))) fetched-HasSiteId)

-- The nearest of all slivers, where none has been filtered out.
abbrev nearest_two : List (SliverTool ℕ)
nearest_two = lga_mlab2 ∷ lax_mlab1 ∷ []

closest : (closest_to world "" 2 39900 75100 slivers 0).0 ≡ ok (some nearest_two)
unfolding closest_to nearest add_candidates add_candidate signature_probability probability_of
    distance keep_sites sort_by_distance insert_by_distance
closest = refl

closest_to-IsRanked_example :
    IsClosest world counting_laws thousandths_order 39900 75100
      (λ t. t.tool_id ≡ "ndt")
      ""
      2
      slivers
      0
      nearest_two
unfolding distance
closest_to-IsRanked_example =
    closest_to-IsRanked world counting_laws thousandths_order 39900 75100 (λ t. t.tool_id ≡ "ndt")
      "" 2 slivers 0 nearest_two
      ((refl, λ x e. refl), ((refl, λ x e. refl), ((refl, λ x e. refl), ((refl, λ x e. refl), tt))))
      closest

closest_to_regular_example : All (IsBackup false) nearest_two
closest_to_regular_example =
    closest_to_regular world counting_laws 39900 75100 "" 2 slivers 0 nearest_two refl closest

fetch-Fits_example :
    All
      (Fits (find_site_ids_for_metro world) (tool_properties_from_query client))
      (fetch world (tool_properties_from_query client) 0).0
fetch-Fits_example =
    fetch-Fits world world_laws stored-IsCacheFiled (tool_properties_from_query client) 0

fetch-Apart_example : Apart OtherSite (fetch world (tool_properties_from_query client) 0).0
fetch-Apart_example = fetch-Apart world world_laws (tool_properties_from_query client) 0 refl

filter_by_status_iff_example :
    (Memᴰ sea_mlab1 (filter_by_status slivers (some "ipv4") "online")
      → Memᴰ sea_mlab1 slivers × StatusOn (some "ipv4") "online" sea_mlab1)
    × (Memᴰ sea_mlab1 slivers
        → StatusOn (some "ipv4") "online" sea_mlab1
        → Memᴰ sea_mlab1 (filter_by_status slivers (some "ipv4") "online"))
filter_by_status_iff_example = filter_by_status_iff slivers (some "ipv4") "online" sea_mlab1
