-- ===== src/Fqdn/RoundTrip.antt =====
-- The parts of a name come back when the name is parsed.
use Prim.Native.String.{◌++◌}
use mlab_ns.Base.{
  ℕ, String, Char, code, Bool, true, false, ◌||◌, ◌&&◌, Option, some, [], ◌∷◌, leb, nat_eq, truthy,
  if◌then◌else◌, ◌≡◌, refl, ap, ◌∙◌, subst, arith,
}
use mlab_ns.Base.Text.{no_text}
use mlab_ns.Base.Regex.{Regex, one, many, seq, group, at_end, Groups, re_match}
use mlab_ns.Base.Regex.Matches.{
  attach, attach-append, prefix-attach, AllOf, StopsAt, Matches, match_one_of, match_many_of,
  match_seq_of, match_opt_of, match_group_of, match_end_of,
}
use mlab_ns.Fqdn.{
  is_lower, is_separator, char, word, mlab, site_digit, fqdn_regex, parts_of, parts_if, parse,
  get_slice_site_server_ids, ids_of,
}

-- Of one letter from a to z, or more.
abbrev pub IsWord : String → Type 0
IsWord s = (no_text s ≡ false) × AllOf is_lower s

abbrev pub machine_text : Char → String
machine_text n = attach "mlab" (String.◌∷◌ n "")

abbrev pub site_text : Char → Char → Char → Char → Char → String
site_text a b c x y = String.◌∷◌ a (String.◌∷◌ b (String.◌∷◌ c (String.◌∷◌ x (String.◌∷◌ y ""))))

abbrev pub is_machine_digit : ℕ → Bool
is_machine_digit c = leb b'1' c && leb c b'4'

abbrev pub is_site_digit : ℕ → Bool
is_site_digit c = leb b'0' c && leb c b'9' || nat_eq c b'c' || nat_eq c b't'

abbrev pub is_no_newline : ℕ → Bool
is_no_newline c = if nat_eq c 10 then false else true

-- The characters of a site id: three letters and two digits, c or t.
abbrev pub IsSite : Char → Char → Char → Char → Char → Type 0
IsSite a b c x y =
    (is_lower (code a) ≡ true)
    × (is_lower (code b) ≡ true)
    × (is_lower (code c) ≡ true)
    × (is_site_digit (code x) ≡ true)
    × (is_site_digit (code y) ≡ true)

module _ {gs : Groups} {k : String → Groups → Option Groups} {g : Groups} where
  match_char :
      {test : ℕ → Bool} {r : Regex} {c : Char} {s : String}
      → test (code c) ≡ true
      → Matches r s gs k g
      → Matches (seq (one test) r) (String.◌∷◌ c s) gs k g
  match_char t m = match_seq_of (match_one_of t m.found)

  text_group :
      (n : ℕ) (r : Regex) (w rest : String)
      → ((k' : String → Groups → Option Groups)
          → k' rest gs ≡ some g
          → Matches r (attach w rest) gs k' g)
      → k rest ((n, w) ∷ gs) ≡ some g
      → Matches (group n r) (attach w rest) gs k g
  text_group n r w rest m e =
      match_group_of (m _ (ap (λ t. k rest ((n, t) ∷ gs)) (prefix-attach w rest) ∙ e))

word-Matches :
    (gs : Groups) (g : Groups) (s rest : String)
    → IsWord s
    → StopsAt is_lower rest
    → (k : String → Groups → Option Groups) → k rest gs ≡ some g
    → Matches word (attach s rest) gs k g
word-Matches gs g String.[] rest h stop k e = absurd (cc h.0)
word-Matches gs g (String.◌∷◌ c s) rest (_, (t, h)) stop k e =
    match_char t (match_many_of s rest h stop e)

machine-Matches :
    (gs : Groups) (g : Groups) (n : Char) (rest : String)
    → is_machine_digit (code n) ≡ true
    → (k : String → Groups → Option Groups) → k rest gs ≡ some g
    → Matches (seq mlab (one is_machine_digit)) (attach (machine_text n) rest) gs k g
machine-Matches gs g n rest h k e = match_seq_of (
    match_char refl
      (match_char refl (match_char refl (match_one_of refl (match_one_of h e).found))))

site-Matches :
    (gs : Groups) (g : Groups) (a b c x y : Char) (rest : String)
    → IsSite a b c x y
    → (k : String → Groups → Option Groups) → k rest gs ≡ some g
    → Matches
        (seq (one is_lower) (seq (one is_lower) (seq (one is_lower) (seq site_digit site_digit))))
        (attach (site_text a b c x y) rest)
        gs
        k
        g
site-Matches gs g a b c x y rest (ha, hb, hc, hx, hy) k e =
    match_char ha (match_char hb (match_char hc (match_char hx (match_one_of hy e))))

project-Matches :
    (gs : Groups) (g : Groups) (w rest : String)
    → IsWord w
    → StopsAt is_lower rest
    → (k : String → Groups → Option Groups) → k rest gs ≡ some g
    → Matches (seq mlab (seq (char b'-') word)) (attach (attach "mlab-" w) rest) gs k g
project-Matches gs g w rest h stop k e = match_seq_of (
    match_char refl (
      match_char refl (
        match_char refl
          (match_one_of refl (match_char refl (word-Matches gs g w rest h stop k e)).found))))

separator-StopsAt : (c : Char) → is_separator (code c) ≡ true → is_lower (code c) ≡ false
separator-StopsAt c h = ground (arith, h)

-- The name, from its parts: with - as the separator in the names of today, and with . in older ones.
abbrev pub print : Char → String → String → String → String → String → String → String
print sep experiment org machine site project domain =
    experiment
    ++ String.◌∷◌ sep (
        org
        ++ String.◌∷◌ sep
            (machine ++ String.◌∷◌ sep (site ++ ("." ++ (project ++ ("." ++ domain))))))

abbrev pub attached : Char → String → String → String → String → String → String → String
attached sep experiment org machine site project domain = attach experiment (
    String.◌∷◌ sep (
      attach org (
        String.◌∷◌ sep (
          attach machine
            (String.◌∷◌ sep (attach site (attach "." (attach project (attach "." domain)))))))))

pub attached-print :
    (sep : Char) (experiment org machine site project domain : String)
    → attached sep experiment org machine site project domain
      ≡ print sep experiment org machine site project domain
attached-print sep experiment org machine site project domain =
    attach-append experiment _
    ∙ ap (λ t. experiment ++ String.◌∷◌ sep t)
        (attach-append org _
          ∙ ap (λ t. org ++ String.◌∷◌ sep t)
              (attach-append machine _
                ∙ ap (λ t. machine ++ String.◌∷◌ sep t)
                    (attach-append site _
                      ∙ ap (λ t. site ++ t)
                          (attach-append "." _
                            ∙ ap (λ t. "." ++ t)
                                (attach-append project _
                                  ∙ ap (λ t. project ++ t) (attach-append "." domain))))))

pub attach_nil : (s : String) → attach s "" ≡ s
attach_nil String.[] = refl
attach_nil (String.◌∷◌ c s) = ap (String.◌∷◌ c) (attach_nil s)

domain-Matches :
    (gs : Groups) (domain : String)
    → AllOf is_no_newline domain
    → Matches
        (seq (group 6 (many is_no_newline)) at_end)
        domain
        gs
        (λ rest gs. some gs)
        ((6, domain) ∷ gs)
domain-Matches gs domain h =
    subst
      (λ s.
        Matches (seq (group 6 (many is_no_newline)) at_end) s gs (λ rest gs. some gs)
          ((6, domain) ∷ gs))
      (attach_nil domain)
      (match_seq_of (
        text_group 6 (many is_no_newline) domain "" (λ k e. match_many_of domain "" h tt e)
          (match_end_of refl).found))

parse_matched :
    (s : String) (g : Groups)
    → Matches fqdn_regex s [] (λ rest gs. some gs) g
    → parse s ≡ some (parts_of g)
unfolding parse re_match
parse_matched s g m = ap parts_if m.found

IsWord-truthy : (s : String) → IsWord s → truthy (some s) ≡ true
IsWord-truthy String.[] h = absurd (cc h.0)
IsWord-truthy (String.◌∷◌ c s) h = refl

module _ (sep : Char) (experiment org : String) (n a b c x y : Char) (w domain : String)
    (hs : is_separator (code sep) ≡ true) (he : IsWord experiment) (ho : IsWord org)
    (hn : is_machine_digit (code n) ≡ true) (hsite : IsSite a b c x y) (hw : IsWord w)
    (hd : AllOf is_no_newline domain) where
  abbrev parts : Groups
  parts =
      (6, domain)
      ∷ (5, attach "mlab-" w)
      ∷ (4, site_text a b c x y)
      ∷ (3, machine_text n)
      ∷ (2, org)
      ∷ (1, experiment)
      ∷ []

  attached-Matches :
      Matches fqdn_regex
        (attached sep experiment org
          (machine_text n)
          (site_text a b c x y)
          (attach "mlab-" w)
          domain)
        []
        (λ rest gs. some gs)
        parts
  attached-Matches = match_seq_of (
      match_opt_of (
        match_seq_of (
          text_group 1 word experiment _
            (word-Matches _ _ experiment _ he (separator-StopsAt sep hs))
            (match_seq_of (
              match_opt_of (
                match_char hs (
                  text_group 2 word org _ (word-Matches _ _ org _ ho (separator-StopsAt sep hs))
                    (match_one_of hs
                      (match_seq_of (
                        text_group 3 (seq mlab (one is_machine_digit)) (machine_text n) _
                          (machine-Matches _ _ n _ hn)
                          (match_char hs (
                            match_seq_of (
                              text_group 4
                                (seq (one is_lower) (
                                  seq (one is_lower)
                                    (seq (one is_lower) (seq site_digit site_digit))))
                                (site_text a b c x y) _ (site-Matches _ _ a b c x y _ hsite)
                                (match_seq_of (
                                  match_opt_of (
                                    match_char refl (
                                      text_group 5 (seq mlab (seq (char b'-') word))
                                        (attach "mlab-" w) _ (project-Matches _ _ w _ hw refl)
                                        (match_char refl (domain-Matches _ domain hd)).found)))
                                          ).found))).found)).found).found)))).found)))

  -- The name of a sliver is parsed into the parts that it has been made of: an experiment and an
  -- organisation of letters, a machine from mlab1 to mlab4, a site of three letters and two digits
  -- (c and t count as digits), a project, and a domain on one line, with - or . between the first.
  pub parse-print :
      parse
        (print sep experiment org (machine_text n) (site_text a b c x y) (attach "mlab-" w) domain)
      ≡ some (record {
        experiment = some experiment;
        org = some org;
        machine = machine_text n;
        site = site_text a b c x y;
        project = some (attach "mlab-" w);
        domain = domain;
      })
  parse-print =
      subst (λ s. parse s ≡ some (parts_of parts))
        (attached-print sep experiment org (machine_text n) (site_text a b c x y) (attach "mlab-" w)
          domain)
        (parse_matched _ parts attached-Matches)

  -- The slice of such a name is that of the organisation and the experiment, and its site and its
  -- server are those of the name.
  pub get_slice_site_server_ids-print :
      get_slice_site_server_ids
        (print sep experiment org (machine_text n) (site_text a b c x y) (attach "mlab-" w) domain)
      ≡ some (org ++ ("_" ++ experiment), site_text a b c x y, machine_text n)
  unfolding get_slice_site_server_ids ids_of
  get_slice_site_server_ids-print =
      ap ids_of parse-print ∙ rw (IsWord-truthy experiment he, IsWord-truthy org ho) refl
