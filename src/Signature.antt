-- ===== src/Signature.antt =====
-- calculate_client_signature of server/mlabns/util/lookup_query.py, over the texts that it reads.
pub mod Size
use mlab_ns.Base.{ℕ, ◌+◌, ◌-◌, String, Bool, ltb, leb, if◌then◌else◌}
use mlab_ns.Base.Text.{size, prefix, no_text}
use Prim.Native.String.{◌++◌}

-- key_max_size and res_min_size
abbrev pub key_max_size : ℕ
key_max_size = 250

abbrev pub res_min_size : ℕ
res_min_size = 40

-- res_max_size, at least res_min_size: a difference below 0 is below it too.
abbrev pub res_max_size : ℕ → ℕ → ℕ
res_max_size ip resource =
    let n = key_max_size - ip - resource - 2 in if ltb n res_min_size then res_min_size else n

unfoldable pub cut_resource : String → String → String
cut_resource ip resource =
    let most = res_max_size (size ip) (size resource) in
    if ltb most (size resource) then prefix most resource else resource

-- user_agent[:ua_max_size] where it is longer: a size below 0 counts from the end.
unfoldable pub cut_user_agent : String → String → String → String
cut_user_agent ip resource user_agent =
    let used = size ip + size resource + 2 in
    if leb used key_max_size
    then (if ltb (key_max_size - used) (size user_agent)
        then prefix (key_max_size - used) user_agent
        else user_agent)
    else prefix (size user_agent - (used - key_max_size)) user_agent

unfoldable pub signature_key : String → String → String → String
signature_key ip user_agent path_qs =
    let resource = cut_resource ip path_qs in
    ip ++ ("#" ++ (cut_user_agent ip resource user_agent ++ ("#" ++ resource)))

-- calculate_client_signature, from ip_address, user_agent and path_qs
unfoldable pub calculate_client_signature : String → String → String → String
calculate_client_signature ip user_agent path_qs =
    if no_text ip then "" else if no_text path_qs then "" else signature_key ip user_agent path_qs
