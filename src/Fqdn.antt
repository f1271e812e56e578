-- ===== src/Fqdn.antt =====
-- server/mlabns/util/parse_fqdn.py and fqdn_rewrite.py, and get_slice_site_server_ids of
-- server/mlabns/db/model.py: the parts of the domain name of a sliver.
pub mod Rewrite
pub mod RoundTrip
pub mod Annotated
use mlab_ns.Base.{
  ℕ, zero, suc, ◌-◌, String, Bool, true, false, ◌||◌, ◌&&◌, Option, none, some, List, [], ◌∷◌,
  nat_eq, leb, opt_eq, truthy, option_or, if◌then◌else◌, code,
}
use Prim.Native.String.{◌++◌}
use mlab_ns.Base.Text.{size, no_text}
use mlab_ns.Base.Regex.{Regex, one, many, seq, opt, group, at_end, Groups, group_text, re_match}

abbrev pub is_lower : ℕ → Bool
is_lower c = leb b'a' c && leb c b'z'

abbrev is_separator : ℕ → Bool
is_separator c = nat_eq c b'.' || nat_eq c b'-'

infixr 40 ◌▸◌
abbrev ◌▸◌ : Regex → Regex → Regex
r ▸ s = seq r s

abbrev char : ℕ → Regex
char c = one (λ d. nat_eq d c)

-- [a-z]+
abbrev word : Regex
word = one is_lower ▸ many is_lower

-- 'mlab'
abbrev mlab : Regex
mlab = char b'm' ▸ char b'l' ▸ char b'a' ▸ char b'b'

-- [0-9ct]
abbrev site_digit : Regex
site_digit = one (λ c. leb b'0' c && leb c b'9' || nat_eq c b'c' || nat_eq c b't')

-- (?:([a-z]+)(?:[.-]([a-z]+))?[.-])?(mlab[1-4])[.-]([a-z]{3}[0-9ct]{2})(?:\.(mlab-[a-z]+))?\.(.*)$
abbrev fqdn_regex : Regex
fqdn_regex =
    opt (group 1 word ▸ opt (one is_separator ▸ group 2 word) ▸ one is_separator)
    ▸ group 3 (mlab ▸ one (λ c. leb b'1' c && leb c b'4'))
    ▸ one is_separator
    ▸ group 4 (one is_lower ▸ one is_lower ▸ one is_lower ▸ site_digit ▸ site_digit)
    ▸ opt (char b'.' ▸ group 5 (mlab ▸ char b'-' ▸ word))
    ▸ char b'.'
    ▸ group 6 (many (λ c. if nat_eq c 10 then false else true))
    ▸ at_end

pub record FqdnParts : Type 0 where
  pub experiment : Option String
  pub org : Option String
  pub machine : String
  pub site : String
  pub project : Option String
  pub domain : String

abbrev parts_of : Groups → FqdnParts
parts_of gs = record {
  experiment = group_text 1 gs;
  org = group_text 2 gs;
  machine = option_or "" (group_text 3 gs);
  site = option_or "" (group_text 4 gs);
  project = group_text 5 gs;
  domain = option_or "" (group_text 6 gs);
}

abbrev parts_if : Option Groups → Option FqdnParts
parts_if none = none
parts_if (some gs) = some (parts_of gs)

-- parse, with none for the empty dict.
unfoldable pub parse : String → Option FqdnParts
unfolding re_match
parse fqdn = parts_if (re_match fqdn_regex fqdn)

-- get_slice_site_server_ids, from the parts: the slice, site and server ids.
unfoldable pub ids_of : Option FqdnParts → Option (String × String × String)
ids_of none = none
ids_of (some p) =
    if truthy p.experiment && truthy (some p.machine) && truthy (some p.site)
    then some (
      (if truthy p.org
          then option_or "" p.org ++ ("_" ++ option_or "" p.experiment)
          else option_or "" p.experiment),
      p.site,
      p.machine,
    )
    else none

unfoldable pub get_slice_site_server_ids : String → Option (String × String × String)
unfolding parse ids_of
get_slice_site_server_ids fqdn = ids_of (parse fqdn)

abbrev pub begins_with : String → String → Bool
begins_with String.[] s = true
begins_with (String.◌∷◌ a old) String.[] = false
begins_with (String.◌∷◌ a old) (String.◌∷◌ c s) =
    let rest = begins_with old s in if nat_eq (code a) (code c) then rest else false

-- The replacement of a text old that is not empty: skip counts the characters of a match that
-- are still to be passed over.
unfoldable pub replace_from : String → String → ℕ → String → String
replace_from old new skip String.[] = ""
replace_from old new (suc skip) (String.◌∷◌ c s) = replace_from old new skip s
replace_from old new zero (String.◌∷◌ c s) =
    let matched = new ++ replace_from old new (size old - 1) s in
    let passed = String.◌∷◌ c (replace_from old new 0 s) in
    if begins_with old (String.◌∷◌ c s) then matched else passed

-- An empty text is found before every character and at the end.
unfoldable pub interleave : String → String → String
interleave new String.[] = new
interleave new (String.◌∷◌ c s) = new ++ String.◌∷◌ c (interleave new s)

-- s.replace(old, new)
unfoldable pub replace : String → String → String → String
unfolding replace_from interleave
replace String.[] new s = interleave new s
replace (String.◌∷◌ a old) new s = replace_from (String.◌∷◌ a old) new 0 s

abbrev pub annotate : String → String → Option FqdnParts → String
annotate fqdn annotation none = fqdn
annotate fqdn annotation (some p) = replace p.machine (p.machine ++ annotation) fqdn

-- _apply_af_awareness
unfoldable pub apply_af_awareness : String → Option String → String
apply_af_awareness fqdn address_family =
    if truthy address_family
    then (if opt_eq address_family "ipv4"
        then annotate fqdn "v4" (parse fqdn)
        else if opt_eq address_family "ipv6"
        then annotate fqdn "v6" (parse fqdn)
        else fqdn)
    else annotate fqdn "" (parse fqdn)

-- rewrite; the tool id is not used.
unfoldable pub rewrite : String → Option String → String → String
rewrite fqdn address_family tool_id = apply_af_awareness fqdn address_family
