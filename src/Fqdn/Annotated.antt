-- ===== src/Fqdn/Annotated.antt =====
-- fqdn_rewrite.py: the name of a sliver for an address family.
use Prim.Native.String.{◌++◌}
use mlab_ns.Base.{
  ℕ, String, Char, code, Bool, true, false, some, nat_eq, if◌then◌else◌, ◌≡◌, refl, sym, ap, ◌∙◌,
  arith,
}
use mlab_ns.Base.Regex.Matches.{attach, attach-append, AllOf}
use mlab_ns.Fqdn.{
  is_lower, is_separator, begins_with, replace_from, replace, annotate, parse, apply_af_awareness,
  rewrite,
}
use mlab_ns.Fqdn.RoundTrip.{
  IsWord, IsSite, machine_text, site_text, is_machine_digit, is_no_newline, print, attached-print,
  parse-print,
}

-- Of the characters that are not n.
abbrev pub is_other : Char → ℕ → Bool
is_other n c = if nat_eq c (code n) then false else true

AllOf-map :
    (t u : ℕ → Bool) → ((c : ℕ) → t c ≡ true → u c ≡ true) → (s : String) → AllOf t s → AllOf u s
AllOf-map t u f String.[] h = tt
AllOf-map t u f (String.◌∷◌ c s) (h, hs) = (f (code c) h, AllOf-map t u f s hs)

AllOf-attach : (t : ℕ → Bool) (s u : String) → AllOf t s → AllOf t u → AllOf t (attach s u)
AllOf-attach t String.[] u h hu = hu
AllOf-attach t (String.◌∷◌ c s) u (h, hs) hu = (h, AllOf-attach t s u hs hu)

attach-attach : (s t u : String) → attach (attach s t) u ≡ attach s (attach t u)
attach-attach String.[] t u = refl
attach-attach (String.◌∷◌ c s) t u = ap (String.◌∷◌ c) (attach-attach s t u)

module _ (n : Char) (new : String) (hn : is_machine_digit (code n) ≡ true) where
  passed :
      (c : Char) (s : String)
      → begins_with (machine_text n) (String.◌∷◌ c s) ≡ false
      → replace_from (machine_text n) new 0 (String.◌∷◌ c s)
        ≡ String.◌∷◌ c (replace_from (machine_text n) new 0 s)
  unfolding replace_from
  passed c s e = rw e refl

  -- No machine begins before the one of the name.
  before :
      (c : Char) (p rest : String)
      → AllOf (is_other n) (String.◌∷◌ c p)
      → begins_with (machine_text n) (String.◌∷◌ c (attach p (attach (machine_text n) rest)))
        ≡ false
  before c String.[] rest h = ground arith
  before c (String.◌∷◌ d String.[]) rest h = ground arith
  before c (String.◌∷◌ d (String.◌∷◌ e String.[])) rest h = ground arith
  before c (String.◌∷◌ d (String.◌∷◌ e (String.◌∷◌ f String.[]))) rest h =
      let differs : nat_eq (code n) (code "m") ≡ false = ground (arith, hn) in
      ground (arith, differs)
  before c (String.◌∷◌ d (String.◌∷◌ e (String.◌∷◌ f (String.◌∷◌ g p)))) rest
        (_, (_, (_, (_, (h, _))))) =
      let differs : nat_eq (code n) (code g) ≡ false = ground (arith, h) in ground (arith, differs)

  replace-before :
      (p rest : String)
      → AllOf (is_other n) p
      → replace_from (machine_text n) new 0 (attach p (attach (machine_text n) rest))
        ≡ attach p (replace_from (machine_text n) new 0 (attach (machine_text n) rest))
  replace-before String.[] rest h = refl
  replace-before (String.◌∷◌ c p) rest h =
      passed c _ (before c p rest h) ∙ ap (String.◌∷◌ c) (replace-before p rest h.1)

  replace-machine :
      (rest : String)
      → replace_from (machine_text n) new 0 (attach (machine_text n) rest)
        ≡ new ++ replace_from (machine_text n) new 0 rest
  unfolding replace_from
  replace-machine rest = let same : nat_eq (code n) (code n) ≡ true = ground arith in rw same refl

  without :
      (c : Char) (s : String)
      → AllOf (is_other n) s
      → begins_with (machine_text n) (String.◌∷◌ c s) ≡ false
  without c String.[] h = ground arith
  without c (String.◌∷◌ d String.[]) h = ground arith
  without c (String.◌∷◌ d (String.◌∷◌ e String.[])) h = ground arith
  without c (String.◌∷◌ d (String.◌∷◌ e (String.◌∷◌ f String.[]))) h = ground arith
  without c (String.◌∷◌ d (String.◌∷◌ e (String.◌∷◌ f (String.◌∷◌ g p)))) (_, (_, (_, (h, _)))) =
      let differs : nat_eq (code n) (code g) ≡ false = ground (arith, h) in ground (arith, differs)

  -- A text without the digit is left as it is.
  replace_without : (s : String) → AllOf (is_other n) s → replace_from (machine_text n) new 0 s ≡ s
  unfolding replace_from
  replace_without String.[] h = refl
  replace_without (String.◌∷◌ c s) (_, h) =
      passed c s (without c s h) ∙ ap (String.◌∷◌ c) (replace_without s h)

  not_digit : (c : ℕ) → is_machine_digit c ≡ false → is_other n c ≡ true
  not_digit c h = ground (arith, h, hn)

  lower_other : (s : String) → AllOf is_lower s → AllOf (is_other n) s
  lower_other = AllOf-map is_lower (is_other n) (λ c h. not_digit c (ground (arith, h)))

  project_other :
      (w domain : String)
      → IsWord w
      → AllOf (is_other n) domain
      → AllOf (is_other n) (attach "." (attach (attach "mlab-" w) (attach "." domain)))
  project_other w domain hw hd =
      let after : AllOf (is_other n) (attach w (attach "." domain)) =
        AllOf-attach (is_other n) w _ (lower_other w hw.1) (not_digit b'.' refl, hd) in
      let word : AllOf (is_other n) (attach "mlab-" (attach w (attach "." domain))) =
        AllOf-attach (is_other n) "mlab-" _
          (
            not_digit b'm' refl,
            (
              not_digit b'l' refl,
              (not_digit b'a' refl, (not_digit b'b' refl, (not_digit b'-' refl, tt))),
            ),
          )
          after in
      (not_digit b'.' refl, word)

  -- No machine stands in a separator and a site.
  replace-site :
      (sep a b c x y : Char) (s : String)
      → is_separator (code sep) ≡ true
      → IsSite a b c x y
      → AllOf (is_other n) s
      → replace_from (machine_text n) new 0 (String.◌∷◌ sep (attach (site_text a b c x y) s))
        ≡ String.◌∷◌ sep (attach (site_text a b c x y) s)
  replace-site sep a b c x y s hs (ha, hb, hc, hx, hy) h =
      let no_sep : nat_eq (code "m") (code sep) ≡ false = ground (arith, hs) in
      let no_b : nat_eq (code "b") (code x) ≡ false = ground (arith, hx) in
      let no_b2 : nat_eq (code "b") (code y) ≡ false = ground (arith, hy) in
      let no_l : nat_eq (code "l") (code x) ≡ false = ground (arith, hx) in
      let no_m : nat_eq (code "m") (code x) ≡ false = ground (arith, hx) in
      let no_m2 : nat_eq (code "m") (code y) ≡ false = ground (arith, hy) in
      passed sep _ (ground (arith, no_sep))
      ∙ ap (String.◌∷◌ sep) (
          passed a _ (ground (arith, no_b))
          ∙ ap (String.◌∷◌ a) (
              passed b _ (ground (arith, no_b2, no_l))
              ∙ ap (String.◌∷◌ b) (
                  passed c _ (ground (arith, no_l))
                  ∙ ap (String.◌∷◌ c) (
                      passed x _ (ground (arith, no_m))
                      ∙ ap (String.◌∷◌ x) (
                          passed y _ (ground (arith, no_m2))
                          ∙ ap (String.◌∷◌ y) (replace_without s h))))))

module _ (sep : Char) (experiment org : String) (n a b c x y : Char) (w domain : String)
    (hs : is_separator (code sep) ≡ true) (he : IsWord experiment) (ho : IsWord org)
    (hn : is_machine_digit (code n) ≡ true) (hsite : IsSite a b c x y) (hw : IsWord w)
    (hd : AllOf is_no_newline domain) (hother : AllOf (is_other n) domain) where
  abbrev name : String → String
  name machine = print sep experiment org machine (site_text a b c x y) (attach "mlab-" w) domain

  abbrev first : String
  first = attach experiment (String.◌∷◌ sep (attach org (String.◌∷◌ sep "")))

  abbrev last : String
  last =
      String.◌∷◌ sep
        (attach (site_text a b c x y) (attach "." (attach (attach "mlab-" w) (attach "." domain))))

  name-parts : (machine : String) → name machine ≡ attach first (machine ++ last)
  name-parts machine =
      sym
        (attached-print sep experiment org machine (site_text a b c x y) (attach "mlab-" w) domain)
      ∙ (ap (λ t. attach experiment (String.◌∷◌ sep (attach org (String.◌∷◌ sep t))))
            (attach-append machine last)
          ∙ sym (
              attach-attach experiment _ _
              ∙ ap (λ t. attach experiment (String.◌∷◌ sep t)) (attach-attach org _ _)))

  first_other : AllOf (is_other n) first
  first_other =
      let hsep : is_other n (code sep) ≡ true = not_digit n "" hn (code sep) (ground (arith, hs)) in
      AllOf-attach (is_other n) experiment _ (lower_other n "" hn experiment he.1)
        (hsep, AllOf-attach (is_other n) org _ (lower_other n "" hn org ho.1) (hsep, tt))

  replace-name : (new : String) → replace (machine_text n) new (name (machine_text n)) ≡ name new
  unfolding replace
  replace-name new =
      ap (replace_from (machine_text n) new 0) (
        name-parts (machine_text n) ∙ ap (attach first) (sym (attach-append (machine_text n) last)))
      ∙ (replace-before n new hn first last first_other
          ∙ (ap (attach first) (
                replace-machine n new hn last
                ∙ ap (λ t. new ++ t)
                    (replace-site n new hn sep a b c x y _ hs hsite
                      (project_other n new hn w domain hw hother)))
              ∙ sym (name-parts new)))

  annotate-name :
      (annotation : String)
      → annotate (name (machine_text n)) annotation (parse (name (machine_text n)))
        ≡ name (machine_text n ++ annotation)
  annotate-name annotation =
      ap (annotate (name (machine_text n)) annotation)
        (parse-print sep experiment org n a b c x y w domain hs he ho hn hsite hw hd)
      ∙ replace-name (machine_text n ++ annotation)

  -- The name of a sliver, made of its parts as parse reads them, is rewritten for a client that asks
  -- for IPv4 or IPv6: v4 or v6 stands after the machine, and every other part is as it was. The
  -- domain is one without the digit of the machine.
  pub rewrite-print :
      (tool_id : String)
      → (rewrite
            (print sep experiment org
              (machine_text n)
              (site_text a b c x y)
              (attach "mlab-" w)
              domain)
            (some "ipv4")
            tool_id
          ≡ print sep experiment org
              (machine_text n ++ "v4")
              (site_text a b c x y)
              (attach "mlab-" w)
              domain)
        × (rewrite
              (print sep experiment org
                (machine_text n)
                (site_text a b c x y)
                (attach "mlab-" w)
                domain)
              (some "ipv6")
              tool_id
            ≡ print sep experiment org
                (machine_text n ++ "v6")
                (site_text a b c x y)
                (attach "mlab-" w)
                domain)
  unfolding rewrite apply_af_awareness
  rewrite-print tool_id = (annotate-name "v4", annotate-name "v6")
