-- ===== src/Fqdn/Rewrite.antt =====
-- Rewriting a domain name for an address family.
use text.Mathlib.TextLemmas.{append-nil, nil-append, cons-append}
use text.Mathlib.TextEquality.{Char-path}
use Prim.Native.String.{◌++◌}
use mlab_ns.Base.{
  ℕ, zero, suc, ◌-◌, String, true, false, Option, none, some, opt_eq, truthy, code, ◌≡◌, ◌⊎◌, Char,
  refl, ap, ◌∙◌, arith, if_elim,
}
use mlab_ns.Base.Text.{size}
use mlab_ns.Fqdn.{
  FqdnParts, parse, begins_with, replace_from, interleave, replace, annotate, apply_af_awareness,
  rewrite,
}

abbrev skip_chars : ℕ → String → String
skip_chars zero s = s
skip_chars (suc n) String.[] = ""
skip_chars (suc n) (String.◌∷◌ c s) = skip_chars n s

begins_with-skip : (old s : String) → begins_with old s ≡ true → old ++ skip_chars (size old) s ≡ s
begins_with-skip String.[] s h = rw nil-append refl
begins_with-skip (String.◌∷◌ a old) String.[] h = absurd (cc)
begins_with-skip (String.◌∷◌ a old) (String.◌∷◌ c s) h =
    let same : code a ≡ code c = ground arith in
    let rest : begins_with old s ≡ true = ground arith in
    cons-append a old (skip_chars (size old) s)
    ∙ (ap (λ t. String.◌∷◌ a t) (begins_with-skip old s rest)
        ∙ ap (λ d. String.◌∷◌ d s) (Char-path a c same))

replace_from_self :
    (a : Char) (o : String) (skip : ℕ) (s : String)
    → replace_from (String.◌∷◌ a o) (String.◌∷◌ a o) skip s ≡ skip_chars skip s
unfolding replace_from
replace_from_self a o zero String.[] = refl
replace_from_self a o (suc skip) String.[] = refl
replace_from_self a o (suc skip) (String.◌∷◌ c s) = replace_from_self a o skip s
replace_from_self a o zero (String.◌∷◌ c s) =
    if_elim (λ t. t ≡ String.◌∷◌ c s) (begins_with (String.◌∷◌ a o) (String.◌∷◌ c s)) _ _
      (λ h.
        let less : suc (size o) - 1 ≡ size o = omega arith in
        ap (λ t. String.◌∷◌ a o ++ t)
          (replace_from_self a o (suc (size o) - 1) s ∙ ap (λ n. skip_chars n s) less)
        ∙ begins_with-skip (String.◌∷◌ a o) (String.◌∷◌ c s) h)
      (λ _. ap (λ t. String.◌∷◌ c t) (replace_from_self a o zero s))

interleave_nothing : (s : String) → interleave "" s ≡ s
unfolding interleave
interleave_nothing String.[] = refl
interleave_nothing (String.◌∷◌ c s) = nil-append _ ∙ ap (λ t. String.◌∷◌ c t) (interleave_nothing s)

-- To replace a text by itself changes nothing.
replace_self : (old s : String) → replace old old s ≡ s
unfolding replace
replace_self String.[] s = interleave_nothing s
replace_self (String.◌∷◌ a o) s = replace_from_self a o zero s

annotate_nothing : (fqdn : String) (p : Option FqdnParts) → annotate fqdn "" p ≡ fqdn
annotate_nothing fqdn none = refl
annotate_nothing fqdn (some p) =
    ap (λ m. replace p.machine m fqdn) (append-nil p.machine) ∙ replace_self p.machine fqdn

-- A name is left as it is unless the client asks for IPv4 or IPv6 and the name is that of a sliver.
pub rewrite_unchanged :
    (fqdn : String) (address_family : Option String) (tool_id : String)
    → ((opt_eq address_family "ipv4" ≡ false) × (opt_eq address_family "ipv6" ≡ false))
      ⊎ (parse fqdn ≡ none)
    → rewrite fqdn address_family tool_id ≡ fqdn
unfolding rewrite apply_af_awareness
rewrite_unchanged fqdn af tool_id h =
    if_elim (λ t. t ≡ fqdn) (truthy af) _ _
      (λ _.
        if_elim (λ t. t ≡ fqdn) (opt_eq af "ipv4") _ _ (λ e. unparsed "v4" (ground (arith, e)))
          (λ _.
            if_elim (λ t. t ≡ fqdn) (opt_eq af "ipv6") _ _ (λ e. unparsed "v6" (ground (arith, e)))
              (λ _. refl)))
      (λ _. annotate_nothing fqdn (parse fqdn))
  where
    unparsed :
        (annotation : String) → parse fqdn ≡ none → annotate fqdn annotation (parse fqdn) ≡ fqdn
    unparsed annotation e = ap (annotate fqdn annotation) e
