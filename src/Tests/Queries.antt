-- ===== src/Tests/Queries.antt =====
-- The signature of a client, and a name that is rewritten.
use mlab_ns.Base.{◌≤◌, some, ◌≡◌, refl, arith}
use mlab_ns.Base.Text.{size}
use mlab_ns.Signature.{calculate_client_signature, signature_key, cut_resource, cut_user_agent}
use mlab_ns.Signature.Size.{size-calculate_client_signature}
use mlab_ns.Fqdn.{parse, rewrite, apply_af_awareness, replace, replace_from}

size-calculate_client_signature_example :
    size (calculate_client_signature "1.2.3.4" "Mozilla" "/ndt?country=US") ≤ 250
size-calculate_client_signature_example =
    size-calculate_client_signature "1.2.3.4" "Mozilla" "/ndt?country=US" (omega arith)

signed : calculate_client_signature "1.2.3.4" "Mozilla" "/ndt" ≡ "1.2.3.4#Mozilla#/ndt"
unfolding calculate_client_signature signature_key cut_resource cut_user_agent
signed = refl

rewritten :
    rewrite "ndt-iupui-mlab1-lga03.mlab-oti.measurement-lab.org" (some "ipv4") "ndt"
    ≡ "ndt-iupui-mlab1v4-lga03.mlab-oti.measurement-lab.org"
unfolding rewrite apply_af_awareness parse replace replace_from
rewritten = refl

parsed :
    parse "ndt-iupui-mlab4-lga06.mlab-staging.measurement-lab.org"
    ≡ some (record {
      experiment = some "ndt";
      org = some "iupui";
      machine = "mlab4";
      site = "lga06";
      project = some "mlab-staging";
      domain = "measurement-lab.org";
    })
unfolding parse
parsed = refl
