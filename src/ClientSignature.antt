-- ===== src/ClientSignature.antt =====
-- server/mlabns/db/client_signature_fetcher.py: the probability with which a client that was seen
-- too often is sent to a regular site.
use mlab_ns.Base.{
  ℕ, ◌+◌, ◌-◌, ◌*◌, String, Char, code, Bool, true, false, ◌||◌, ◌&&◌, Option, none, some, leb,
  nat_eq, if◌then◌else◌,
}
use mlab_ns.Runtime.{FloatOps}
use mlab_ns.Env.{Env}

-- The integer that a text spells, as a sign and a magnitude.
pub record Integer : Type 0 where
  pub negative : Bool
  pub magnitude : ℕ

abbrev is_space : Char → Bool
is_space c = nat_eq (code c) 32 || leb 9 (code c) && leb (code c) 13

abbrev is_digit : Char → Bool
is_digit c = leb b'0' (code c) && leb (code c) b'9'

abbrev all_space : String → Bool
all_space String.[] = true
all_space (String.◌∷◌ c s) = is_space c && all_space s

-- Digits, then white space up to the end.
abbrev digits : Bool → ℕ → String → Option Integer
digits negative n String.[] = some (record { negative = negative; magnitude = n })
digits negative n (String.◌∷◌ c s) =
    let rest = digits negative (n * 10 + (code c - b'0')) s in
    if is_digit c
    then rest
    else if all_space (String.◌∷◌ c s)
    then some (record { negative = negative; magnitude = n })
    else none

-- At least one digit.
abbrev number : Bool → String → Option Integer
number negative String.[] = none
number negative (String.◌∷◌ c s) = if is_digit c then digits negative (code c - b'0') s else none

abbrev signed : Char → String → Option Integer
signed c s =
    if nat_eq (code c) b'-'
    then number true s
    else if nat_eq (code c) b'+'
    then number false s
    else number false (String.◌∷◌ c s)

-- int(s), with none for ValueError.
unfoldable pub int : String → Option Integer
int String.[] = none
int (String.◌∷◌ c s) = let rest = int s in if is_space c then rest else signed c s

unfoldable pub float_of_int : {F : Type 0} → FloatOps F → Integer → F
float_of_int fl i =
    if i.negative then fl.sub (fl.ratio 0 1) (fl.ratio i.magnitude 1) else fl.ratio i.magnitude 1

-- int(probability_str) / 10000.0, and 1.0 for no record or a corrupt one.
unfoldable pub probability_of : {F : Type 0} → FloatOps F → Option String → F
probability_of fl none = fl.ratio 1 1
probability_of fl (some s) = elim (int s) [
  | none ↦ fl.ratio 1 1
  | some i ↦ fl.div (float_of_int fl i) (fl.ratio 10000 1)
]

-- ClientSignatureFetcher.fetch
unfoldable pub signature_probability : {F G : Type 0} → Env F G → String → F
unfolding probability_of
signature_probability env key = probability_of env.fl (env.backend.cached_requests key)
