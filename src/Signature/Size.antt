-- ===== src/Signature/Size.antt =====
-- How long a client signature is, and what it holds.
use Prim.Native.String.{◌++◌}
use text.Mathlib.TextLemmas.{nil-append, cons-append}
use mlab_ns.Base.{ℕ, zero, suc, ◌+◌, ◌-◌, ◌≤◌, min, String, ◌≡◌, arith, if_elim}
use mlab_ns.Base.Text.{size, prefix, no_text}
use mlab_ns.Signature.{
  cut_resource, cut_user_agent, signature_key, calculate_client_signature, key_max_size,
  res_max_size,
}

size-append : (s t : String) → size (s ++ t) ≡ size s + size t
size-append String.[] t = rw nil-append (omega arith)
size-append (String.◌∷◌ c s) t = rw cons-append (omega (arith, size-append s t))

size-prefix : (n : ℕ) (s : String) → size (prefix n s) ≡ min n (size s)
size-prefix zero s = omega arith
size-prefix (suc n) String.[] = omega arith
size-prefix (suc n) (String.◌∷◌ c s) = omega (arith, size-prefix n s)

-- The resource keeps within its size, which is at most 40 where little is left.
size-cut_resource : (ip r : String) → size ip ≤ 208 → size ip + size (cut_resource ip r) + 2 ≤ 250
unfolding cut_resource
size-cut_resource ip r h = ground (arith, size-prefix (res_max_size (size ip) (size r)) r)

size-cut_user_agent :
    (ip r ua : String)
    → size ip + size r + 2 ≤ 250
    → size ip + size r + 2 + size (cut_user_agent ip r ua) ≤ 250
unfolding cut_user_agent
size-cut_user_agent ip r ua h =
    ground (arith, size-prefix (key_max_size - (size ip + size r + 2)) ua)

size-signature_key : (ip ua r : String) → size ip ≤ 208 → size (signature_key ip ua r) ≤ 250
unfolding signature_key
size-signature_key ip ua r h =
    let res = cut_resource ip r in
    let agent = cut_user_agent ip res ua in
    omega (
      arith,
      size-append ip ("#" ++ (agent ++ ("#" ++ res))),
      size-append "#" (agent ++ ("#" ++ res)),
      size-append agent ("#" ++ res),
      size-append "#" res,
      size-cut_user_agent ip res ua (size-cut_resource ip r h),
    )

-- A client signature has at most 250 characters, whatever the user agent and the resource, if the
-- address has at most 208. Every text of an address is shorter than that.
pub size-calculate_client_signature :
    (ip ua path_qs : String) → size ip ≤ 208 → size (calculate_client_signature ip ua path_qs) ≤ 250
unfolding calculate_client_signature
size-calculate_client_signature ip ua path_qs h =
    if_elim (λ (s : String). size s ≤ 250) (no_text ip) "" _ (λ _. omega arith)
      (λ _.
        if_elim (λ (s : String). size s ≤ 250) (no_text path_qs) "" _ (λ _. omega arith)
          (λ _. size-signature_key ip ua path_qs h))
