-- ===== src/Tests/Systems.antt =====
-- A run of the system: a sliver is added, monitored and looked up.
use mlab_ns.Base.{
  ℕ, true, false, none, some, List, [], ◌∷◌, keep, ◌==◌, ◌≡◌, inl, refl, arith, eq_iff, subst,
  All-keep, All-map, All-self, Memᴰ, Memᴰ-keep,
}
use mathlib.Core.Option.{some-injective}
use mlab_ns.Base.Errors.{ok}
use mlab_ns.Model.{SliverTool, Site, Tool, get_sliver_tool_id}
use mlab_ns.Filters.{filter_by_status}
use mlab_ns.Hosts.{choose_one_host_per_site, add_hosts, add_host, min_fqdn}
use mlab_ns.Fetcher.{
  fetch, memcache_fetch, datastore_fetch, fetch_cached, apply_filters, apply_filter,
  find_site_ids_for_metro,
}
use mlab_ns.Fetcher.Sound.{Fits}
use mlab_ns.Filters.Status.{StatusOn}
use mlab_ns.Fqdn.{parse, get_slice_site_server_ids, ids_of}
use mlab_ns.Status.{
  put, cache, SliceStatus, update_sliver_tools_status, update_tools, update_family, update_ipv4,
}
use mlab_ns.IpUpdate.{
  Production, Row, set_sliver_tool, initialize_sliver_tool, update_sliver, update_slice,
  update_rows, is_production_slice,
}
use mlab_ns.Resolver.{Wanted, random, all, answer_query, fetch_tools_with_properties}
use mlab_ns.Resolver.Answers.{Good, criteria, limit}
use mlab_ns.Store.{
  Store, apply_writes, Datastore, DatastoreLaws, Platform, Outcome, env_of, put_tools, apply_write,
}
use mlab_ns.System.{State, status, addresses, write, site, load, ipv4, Reach, here, next}
use mlab_ns.System.Sound.{IsSound, Reach-IsSound}
use mlab_ns.System.Lookups.{Reach-answer_query, answer_query_stored}
use mlab_ns.Base.Dict.{lookup}
use mlab_ns.System.Stored.{result_of, lookup-update_sliver_tools_status}
use mlab_ns.Tests.World.{
  thousandths, counting, counting_laws, answers, answers-Answers, Answers-answers, ndt, lga03,
}

abbrev pub datastore : Datastore ℕ
datastore = record {
  select = λ ts q. keep (answers q) ts;
  in_metro = λ sites m. keep (λ (x : Site ℕ). x.site_id == "lga03") sites;
  with_tool_id = λ tools id. keep (λ (t : Tool). t.tool_id == id) tools;
}

pub datastore_laws : DatastoreLaws datastore
datastore_laws = record {
  select_answers = λ ts q.
      All-map _ _ _ (λ t p. (p.0, answers-Answers q t p.1))
        (All-keep (λ t. Memᴰ t ts) (answers q) ts (All-self ts));
  select_all = λ ts q t m h. Memᴰ-keep (answers q) ts m (Answers-answers q t h);
  with_tool_id_all = λ tools t m.
      Memᴰ-keep (λ (u : Tool). u.tool_id == t.tool_id) tools m
        ((eq_iff t.tool_id t.tool_id).1 refl);
}

abbrev pub platform : Platform ℕ ℕ
platform = record {
  fl = thousandths;
  rng = counting;
  datastore = datastore;
  cached_requests = λ key. none;
}

abbrev pub production : Production
production = record { site_matches = λ s. true; machine_matches = λ m. true }

abbrev pub row : Row
row = record {
  hostname = "ndt-iupui-mlab4-lga03.mlab-oti.measurement-lab.org";
  ipv4 = "4.14.159.120";
  ipv6 = "";
}

abbrev pub added : SliverTool ℕ
added = record {
  key_name = "ndt-iupui_ndt-mlab4-lga03";
  tool_id = "ndt";
  slice_id = "iupui_ndt";
  site_id = "lga03";
  server_id = "mlab4";
  server_port = some "3001";
  http_port = some "7123";
  tool_extra = "";
  fqdn = "ndt-iupui-mlab4-lga03.mlab-oti.measurement-lab.org";
  sliver_ipv4 = "4.14.159.120";
  sliver_ipv6 = "off";
  status_ipv4 = "offline";
  status_ipv6 = "offline";
  update_request_timestamp = 9;
  latitude = 40700;
  longitude = 73900;
  city = "New York";
  country = "US";
  roundrobin = false;
}

abbrev known : SliceStatus
known =
    (
      "ndt-iupui-mlab4-lga03.mlab-oti.measurement-lab.org",
      record { status = "online"; tool_extra = "ok" },
    )
    ∷ []

abbrev pub monitored : SliverTool ℕ
monitored = record added {
  status_ipv4 = "online";
  tool_extra = "ok";
  update_request_timestamp = 10;
}

-- Every entity of a put reaches the datastore; memcache takes the list or not.
abbrev pub stored : Outcome ℕ
stored = record { stores = λ t. true; caches = true }

abbrev lost : Outcome ℕ
lost = record { stores = λ t. false; caches = false }

abbrev pub empty : State ℕ
empty = record {
  store = record {
    slivers = [];
    sites = ("lga03", lga03) ∷ [];
    tools = ndt ∷ [];
    tools_cache = [];
  };
  pending = [];
}

pub empty-Reach : Reach platform empty
empty-Reach = next (next here (load (ndt ∷ []))) (site lga03)

added-Reach : Reach platform (record empty { pending = put (added ∷ []) ∷ [] })
unfolding update_rows is_production_slice get_slice_site_server_ids parse ids_of update_slice
    update_sliver set_sliver_tool initialize_sliver_tool get_sliver_tool_id
added-Reach = next empty-Reach (addresses 9 production (row ∷ []))

abbrev pub with_sliver : State ℕ
with_sliver = record empty { store = record empty.store { slivers = (added.key_name, added) ∷ [] } }

pub with_sliver-Reach : Reach platform with_sliver
unfolding put_tools apply_write
with_sliver-Reach = next added-Reach (write [] [] (put (added ∷ [])) stored refl)

abbrev reported : State ℕ
reported = record with_sliver { pending = put (monitored ∷ []) ∷ cache "ndt" (monitored ∷ []) ∷ [] }

reported-Reach : Reach platform reported
unfolding update_sliver_tools_status update_tools update_family update_ipv4 datastore_fetch
reported-Reach = next with_sliver-Reach (status ipv4 "ndt" known (λ t. 10) 0)

-- The datastore refuses the new status; memcache takes it.
abbrev pub final : State ℕ
final = record with_sliver {
  store = record with_sliver.store { tools_cache = ("ndt", monitored ∷ []) ∷ [] };
}

pub final-Reach : Reach platform final
unfolding put_tools apply_write
final-Reach =
    next
      (next reported-Reach
        (write [] (cache "ndt" (monitored ∷ []) ∷ []) (put (monitored ∷ [])) lost refl))
      (write [] [] (cache "ndt" (monitored ∷ [])) stored refl)

Reach-IsSound_example : IsSound reported
Reach-IsSound_example = Reach-IsSound platform datastore_laws reported-Reach

abbrev client : Wanted ℕ
client = record {
  tool_id = "ndt";
  tool_address_family = some "ipv4";
  latitude = none;
  longitude = none;
  country = none;
  metro = none;
}

answered :
    (answer_query (env_of platform final.store) all client "" 0).0 ≡ ok (some (monitored ∷ []))
unfolding answer_query fetch_tools_with_properties fetch memcache_fetch fetch_cached apply_filters
    apply_filter filter_by_status choose_one_host_per_site add_hosts add_host min_fqdn
answered = refl

Reach-answer_query_example :
    Good
      (Fits (find_site_ids_for_metro (env_of platform final.store)) (criteria all client))
      (limit all)
      (monitored ∷ [])
Reach-answer_query_example =
    Reach-answer_query platform datastore_laws counting_laws final-Reach all client "" 0
      (monitored ∷ []) answered

monitored_online : StatusOn (some "ipv4") "online" monitored
monitored_online =
    (λ e. refl, λ e. absurd (ground (arith, eq_iff "ipv4" "ipv6", some-injective _ _ e)), inl refl)

monitored-Fits :
    Fits (find_site_ids_for_metro (env_of platform final.store)) (criteria random client) monitored
monitored-Fits = record {
  tool = refl;
  status = λ s e.
      subst (λ x. StatusOn (some "ipv4") x monitored) (some-injective _ _ e) monitored_online;
  country = λ c e. absurd (cc);
  metro = λ m e. absurd (cc);
}

-- The datastore has the sliver as online, and memcache has nothing.
abbrev online : Store ℕ
online = record final.store { slivers = (monitored.key_name, monitored) ∷ []; tools_cache = [] }

answer_query_stored_example :
    (u : SliverTool ℕ) × (us : List (SliverTool ℕ)) × ((answer_query
        (env_of platform online)
        random
        client
        ""
        0).0
      ≡ ok (some (u ∷ us)))
answer_query_stored_example =
    answer_query_stored platform datastore_laws counting_laws online random client "" 0 monitored tt
      (Memᴰ.head refl) monitored-Fits

lookup-update_sliver_tools_status_example :
    lookup added.key_name
      (apply_writes stored
        (update_sliver_tools_status (env_of platform with_sliver.store) (λ t. 10) known "ndt" "" 0)
        with_sliver.store).slivers
    ≡ some (result_of ipv4 (λ t. 10) known added)
lookup-update_sliver_tools_status_example =
    (lookup-update_sliver_tools_status platform datastore_laws with_sliver-Reach ipv4 "ndt" known
        (λ t. 10) 0 stored added.key_name added (λ u. refl) refl).0
      refl
