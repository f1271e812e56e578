-- ===== src/IpUpdate.antt =====
-- IPUpdateHandler of server/mlabns/handlers/update.py: the addresses of the slivers, from the rows of
-- hostnames.json; and is_production_slice of server/mlabns/util/production_check.py.
pub mod Sliver
pub mod Kept
pub mod Keyed
use mlab_ns.Base.{
  ℕ, String, Bool, true, false, ◌||◌, ◌&&◌, not, Option, none, some, List, [], ◌∷◌, ◌++◌, ◌==◌, map,
  keep, if◌then◌else◌, opt_eq, option_or,
}
use mlab_ns.Base.Text.{join, no_text}
use mlab_ns.Message.{no_ip_address, status_offline}
use mlab_ns.Model.{SliverTool, Site, Tool, get_sliver_tool_id}
use mlab_ns.Fqdn.{FqdnParts, parse, get_slice_site_server_ids}

pub record Row : Type 0 where
  pub hostname : String
  pub ipv4 : String
  pub ipv6 : String

-- re.match of the deployment's SITE_REGEX and MACHINE_REGEX, which are in its environment.
pub record Production : Type 0 where
  pub site_matches : String → Bool
  pub machine_matches : String → Bool

abbrev in_production : Production → Option FqdnParts → Bool
in_production p none = false
in_production p (some parts) = p.site_matches parts.site && p.machine_matches parts.machine

unfoldable pub is_production_slice : Production → String → Bool
is_production_slice p fqdn = in_production p (parse fqdn)

-- not ip, and the address in its place
abbrev pub or_off : String → String
or_off ip = if no_text ip then no_ip_address else ip

-- roundrobin == rr
abbrev pub same_flag : Bool → Bool → Bool
same_flag true b = b
same_flag false b = not b

-- The key of a sliver of a tool on a server of a site.
abbrev pub sliver_key : String → String → String → String → String
sliver_key tool_id slice_id server_id site_id =
    option_or "" (get_sliver_tool_id (some tool_id) (some slice_id) (some server_id) (some site_id))

module _ {F : Type 0} where
  -- The sliver as set_sliver_tool leaves it, and whether it returns it or False.
  unfoldable pub set_sliver_tool :
      SliverTool F → String → String → Bool → String → SliverTool F × Bool
  set_sliver_tool t ipv4 ipv6 rr fqdn =
      let v4 = or_off ipv4 in
      let v6 = or_off ipv6 in
      let t1 = if not (t.sliver_ipv4 == v4) then record t { sliver_ipv4 = v4 } else t in
      let t2 = if not (t1.sliver_ipv6 == v6) then record t1 { sliver_ipv6 = v6 } else t1 in
      let t3 = if not (same_flag t2.roundrobin rr) then record t2 { roundrobin = rr } else t2 in
      let t4 = if not (t3.fqdn == fqdn) then record t3 { fqdn = fqdn } else t3 in
      (
        t4,
        not (t.sliver_ipv4 == v4)
            || not (t1.sliver_ipv6 == v6)
            || not (same_flag t2.roundrobin rr)
            || not (t3.fqdn == fqdn),
      )

  unfoldable pub initialize_sliver_tool : ℕ → Tool → Site F → String → String → SliverTool F
  initialize_sliver_tool now tool site server_id fqdn = record {
    key_name = sliver_key tool.tool_id tool.slice_id server_id site.site_id;
    tool_id = tool.tool_id;
    slice_id = tool.slice_id;
    site_id = site.site_id;
    server_id = server_id;
    server_port = tool.server_port;
    http_port = tool.http_port;
    tool_extra = "";
    fqdn = fqdn;
    sliver_ipv4 = no_ip_address;
    sliver_ipv6 = no_ip_address;
    status_ipv4 = status_offline;
    status_ipv6 = status_offline;
    update_request_timestamp = now;
    latitude = site.latitude;
    longitude = site.longitude;
    city = site.city;
    country = site.country;
    roundrobin = site.roundrobin;
  }

-- The slivers read from the datastore, which the handler changes in place, and those that it puts.
pub record Slivers (F : Type 0) : Type 0 where
  pub known : List (SliverTool F)
  pub puts : List (SliverTool F)

module _ {F : Type 0} (now : ℕ) where
  abbrev put_if : Bool → SliverTool F → List (SliverTool F) → List (SliverTool F)
  put_if updated t puts = if updated then puts ++ t ∷ [] else puts

  -- One sliver of a row, by how many stored slivers have its key: one is changed, none is added,
  -- and more are an error.
  unfoldable pub update_sliver :
      Row → Site F → Tool → String → List (SliverTool F) → Slivers F → Slivers F
  update_sliver row site tool server_id (t ∷ []) s =
      let (t', updated) = set_sliver_tool t row.ipv4 row.ipv6 site.roundrobin row.hostname in
      record {
        known = map (λ (u : SliverTool F). if u.key_name == t.key_name then t' else u) s.known;
        puts = put_if updated t' s.puts;
      }
  update_sliver row site tool server_id [] s =
      let (t', updated) =
        set_sliver_tool (initialize_sliver_tool now tool site server_id row.hostname) row.ipv4
          row.ipv6 site.roundrobin row.hostname in
      record s { puts = put_if updated t' s.puts }
  update_sliver row site tool server_id (t ∷ u ∷ ts) s = s

  -- for slice_tool in slice_tools
  unfoldable pub update_slice : Row → Site F → String → String → List Tool → Slivers F → Slivers F
  update_slice row site slice_id server_id [] s = s
  update_slice row site slice_id server_id (tool ∷ tools) s =
      let key = sliver_key tool.tool_id slice_id server_id site.site_id in
      update_slice row site slice_id server_id tools (
        update_sliver row site tool server_id
          (keep (λ (u : SliverTool F). u.key_name == key) s.known) s)

  abbrev pub on_site : Row → String → String → List Tool → List (Site F) → Slivers F → Slivers F
  on_site row slice_id server_id tools [] s = s
  on_site row slice_id server_id tools (site ∷ more) s =
      update_slice row site slice_id server_id (keep (λ (t : Tool). t.slice_id == slice_id) tools) s

  abbrev pub of_ids :
      Row → List (Site F) → List Tool → Option (String × String × String) → Slivers F → Slivers F
  of_ids row sites tools none s = s
  of_ids row sites tools (some (slice_id, site_id, server_id)) s =
      on_site row slice_id server_id tools (keep (λ (x : Site F). x.site_id == site_id) sites) s

  -- for row in rows
  unfoldable pub update_rows :
      Production → List (Site F) → List Tool → List Row → Slivers F → Slivers F
  update_rows p sites tools [] s = s
  update_rows p sites tools (row ∷ rows) s = update_rows p sites tools rows (
      if is_production_slice p row.hostname
      then of_ids row sites tools (get_slice_site_server_ids row.hostname) s
      else s)
