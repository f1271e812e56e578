-- ===== src/Prometheus/Queries.antt =====
-- QUERIES of server/mlabns/util/prometheus_status.py: the query for each tool and address family.
use mlab_ns.Base.{String, List, [], ◌∷◌}
use mlab_ns.Base.Text.{join}

abbrev pub queries : List (String × String)
queries =
    (
      "ndt",
      join "\n" (
          "min by (experiment, machine) (" ∷ "    probe_success{service=\"ndt_raw\"} OR"
          ∷ "    script_success{service=\"ndt5_client\"} OR"
          ∷ "    label_replace(((node_filesystem_size_bytes{cluster=\"platform-cluster\", mountpoint=\"/cache/data\"} -"
          ∷ "      node_filesystem_avail_bytes{cluster=\"platform-cluster\", mountpoint=\"/cache/data\"}) /"
          ∷ "        node_filesystem_size_bytes{cluster=\"platform-cluster\", mountpoint=\"/cache/data\"}),"
          ∷ "        \"experiment\", \"ndt.iupui\", \"\", \"\") < bool 0.95 OR"
          ∷ "    label_replace(kube_node_spec_taint{cluster=\"platform-cluster\", key=\"lame-duck\"},"
          ∷ "      \"experiment\", \"ndt.iupui\", \"\", \"\") != bool 1 OR"
          ∷ "    lame_duck_experiment{cluster=\"platform-cluster\"} != bool 1 OR"
          ∷ "    label_replace(gmx_machine_maintenance, \"experiment\", \"ndt.iupui\", \"\", \"\") != bool 1"
          ∷ ")" ∷ "" ∷ []),
    )
    ∷ (
      "ndt_ipv6",
      join "\n" (
          "min by (experiment, machine) (" ∷ "    probe_success{service=\"ndt_raw_ipv6\"} OR"
          ∷ "    script_success{service=\"ndt5_client\"} OR"
          ∷ "    label_replace(((node_filesystem_size_bytes{cluster=\"platform-cluster\", mountpoint=\"/cache/data\"} -"
          ∷ "      node_filesystem_avail_bytes{cluster=\"platform-cluster\", mountpoint=\"/cache/data\"}) /"
          ∷ "        node_filesystem_size_bytes{cluster=\"platform-cluster\", mountpoint=\"/cache/data\"}),"
          ∷ "        \"experiment\", \"ndt.iupui\", \"\", \"\") < bool 0.95 OR"
          ∷ "    label_replace(kube_node_spec_taint{cluster=\"platform-cluster\", key=\"lame-duck\"},"
          ∷ "      \"experiment\", \"ndt.iupui\", \"\", \"\") != bool 1 OR"
          ∷ "    lame_duck_experiment{cluster=\"platform-cluster\"} != bool 1 OR"
          ∷ "    label_replace(gmx_machine_maintenance, \"experiment\", \"ndt.iupui\", \"\", \"\") != bool 1"
          ∷ ")" ∷ "" ∷ []),
    )
    ∷ (
      "ndt_ssl",
      join "\n" (
          "min by (experiment, machine) (" ∷ "    probe_success{service=\"ndt_ssl\"} OR"
          ∷ "    script_success{service=\"ndt5_client\"} OR"
          ∷ "    label_replace(((node_filesystem_size_bytes{cluster=\"platform-cluster\", mountpoint=\"/cache/data\"} -"
          ∷ "      node_filesystem_avail_bytes{cluster=\"platform-cluster\", mountpoint=\"/cache/data\"}) /"
          ∷ "        node_filesystem_size_bytes{cluster=\"platform-cluster\", mountpoint=\"/cache/data\"}),"
          ∷ "        \"experiment\", \"ndt.iupui\", \"\", \"\") < bool 0.95 OR"
          ∷ "    label_replace(kube_node_spec_taint{cluster=\"platform-cluster\", key=\"lame-duck\"},"
          ∷ "      \"experiment\", \"ndt.iupui\", \"\", \"\") != bool 1 OR"
          ∷ "    lame_duck_experiment{cluster=\"platform-cluster\"} != bool 1 OR"
          ∷ "    label_replace(gmx_machine_maintenance, \"experiment\", \"ndt.iupui\", \"\", \"\") != bool 1"
          ∷ ")" ∷ "" ∷ []),
    )
    ∷ (
      "ndt_ssl_ipv6",
      join "\n" (
          "min by (experiment, machine) (" ∷ "    probe_success{service=\"ndt_ssl_ipv6\"} OR"
          ∷ "    script_success{service=\"ndt5_client\"} OR"
          ∷ "    label_replace(((node_filesystem_size_bytes{cluster=\"platform-cluster\", mountpoint=\"/cache/data\"} -"
          ∷ "      node_filesystem_avail_bytes{cluster=\"platform-cluster\", mountpoint=\"/cache/data\"}) /"
          ∷ "        node_filesystem_size_bytes{cluster=\"platform-cluster\", mountpoint=\"/cache/data\"}),"
          ∷ "        \"experiment\", \"ndt.iupui\", \"\", \"\") < bool 0.95 OR"
          ∷ "    label_replace(kube_node_spec_taint{cluster=\"platform-cluster\", key=\"lame-duck\"},"
          ∷ "      \"experiment\", \"ndt.iupui\", \"\", \"\") != bool 1 OR"
          ∷ "    lame_duck_experiment{cluster=\"platform-cluster\"} != bool 1 OR"
          ∷ "    label_replace(gmx_machine_maintenance, \"experiment\", \"ndt.iupui\", \"\", \"\") != bool 1"
          ∷ ")" ∷ "" ∷ []),
    )
    ∷ (
      "ndt7",
      join "\n" (
          "min by (experiment, machine) (" ∷ "    probe_success{service=\"ndt7\"} OR"
          ∷ "    label_replace(((node_filesystem_size_bytes{cluster=\"platform-cluster\", mountpoint=\"/cache/data\"} -"
          ∷ "      node_filesystem_avail_bytes{cluster=\"platform-cluster\", mountpoint=\"/cache/data\"}) /"
          ∷ "        node_filesystem_size_bytes{cluster=\"platform-cluster\", mountpoint=\"/cache/data\"}),"
          ∷ "        \"experiment\", \"ndt.iupui\", \"\", \"\") < bool 0.95 OR"
          ∷ "    label_replace(kube_node_spec_taint{cluster=\"platform-cluster\", key=\"lame-duck\"},"
          ∷ "      \"experiment\", \"ndt.iupui\", \"\", \"\") != bool 1 OR"
          ∷ "    lame_duck_experiment{cluster=\"platform-cluster\"} != bool 1 OR"
          ∷ "    label_replace(gmx_machine_maintenance, \"experiment\", \"ndt.iupui\", \"\", \"\") != bool 1"
          ∷ ")" ∷ "" ∷ []),
    )
    ∷ (
      "ndt7_ipv6",
      join "\n" (
          "min by (experiment, machine) (" ∷ "    probe_success{service=\"ndt7_ipv6\"} OR"
          ∷ "    label_replace(((node_filesystem_size_bytes{cluster=\"platform-cluster\", mountpoint=\"/cache/data\"} -"
          ∷ "      node_filesystem_avail_bytes{cluster=\"platform-cluster\", mountpoint=\"/cache/data\"}) /"
          ∷ "        node_filesystem_size_bytes{cluster=\"platform-cluster\", mountpoint=\"/cache/data\"}),"
          ∷ "        \"experiment\", \"ndt.iupui\", \"\", \"\") < bool 0.95 OR"
          ∷ "    label_replace(kube_node_spec_taint{cluster=\"platform-cluster\", key=\"lame-duck\"},"
          ∷ "      \"experiment\", \"ndt.iupui\", \"\", \"\") != bool 1 OR"
          ∷ "    lame_duck_experiment{cluster=\"platform-cluster\"} != bool 1 OR"
          ∷ "    label_replace(gmx_machine_maintenance, \"experiment\", \"ndt.iupui\", \"\", \"\") != bool 1"
          ∷ ")" ∷ "" ∷ []),
    )
    ∷ (
      "neubot",
      join "\n" (
          "min by (experiment, machine) (" ∷ "    probe_success{service=\"neubot\"} OR"
          ∷ "    probe_success{service=\"neubot_tls\"} OR"
          ∷ "    label_replace(kube_node_spec_taint{cluster=\"platform-cluster\", key=\"lame-duck\"},"
          ∷ "      \"experiment\", \"neubot.mlab\", \"\", \"\") != bool 1 OR"
          ∷ "    label_replace(gmx_machine_maintenance, \"experiment\", \"neubot.mlab\", \"\", \"\") != bool 1"
          ∷ ")" ∷ "" ∷ []),
    )
    ∷ (
      "neubot_ipv6",
      join "\n" (
          "min by (experiment, machine) (" ∷ "    probe_success{service=\"neubot_ipv6\"} OR"
          ∷ "    probe_success{service=\"neubot_tls_ipv6\"} OR"
          ∷ "    label_replace(kube_node_spec_taint{cluster=\"platform-cluster\", key=\"lame-duck\"},"
          ∷ "      \"experiment\", \"neubot.mlab\", \"\", \"\") != bool 1 OR"
          ∷ "    label_replace(gmx_machine_maintenance, \"experiment\", \"neubot.mlab\", \"\", \"\") != bool 1"
          ∷ ")" ∷ "" ∷ []),
    )
    ∷ []
