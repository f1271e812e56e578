-- ===== src/Base/Text.antt =====
-- Python's string methods, over the characters of a text: split, strip, join, slices.
use Prim.Native.Nat.{ℕ, zero, suc}
use Prim.Native.Char.{Char, code}
use Prim.Native.String.{String, ◌++◌}
use mathlib.Core.Bool.{Bool, true, false, ◌&&◌}
use mathlib.Core.List.{List, [], ◌∷◌}
use mlab_ns.Base.Tests.{nat_eq, if◌then◌else◌}

abbrev pub is_char : ℕ → Char → Bool
is_char k c = nat_eq (code c) k

abbrev pub prepend : Char → List String → List String
prepend c [] = String.◌∷◌ c "" ∷ []
prepend c (w ∷ ws) = String.◌∷◌ c w ∷ ws

-- s.split(sep) for a separator of one character, given by its code.
abbrev pub split : ℕ → String → List String
split sep String.[] = "" ∷ []
split sep (String.◌∷◌ c s) =
    let rest = split sep s in if is_char sep c then "" ∷ rest else prepend c rest

abbrev pub lstrip : ℕ → String → String
lstrip k String.[] = ""
lstrip k (String.◌∷◌ c s) = let rest = lstrip k s in if is_char k c then rest else String.◌∷◌ c s

abbrev pub no_text : String → Bool
no_text String.[] = true
no_text (String.◌∷◌ _ _) = false

abbrev pub rstrip : ℕ → String → String
rstrip k String.[] = ""
rstrip k (String.◌∷◌ c s) =
    let rest = rstrip k s in if is_char k c && no_text rest then "" else String.◌∷◌ c rest

-- s.strip(chars) for one character.
abbrev pub strip : ℕ → String → String
strip k s = rstrip k (lstrip k s)

-- sep.join(parts).
abbrev pub join : String → List String → String
join sep [] = ""
join sep (s ∷ []) = s
join sep (s ∷ t ∷ ts) = s ++ (sep ++ join sep (t ∷ ts))

-- len(s).
abbrev pub size : String → ℕ
size String.[] = 0
size (String.◌∷◌ c s) = suc (size s)

-- s[:n].
abbrev pub prefix : ℕ → String → String
prefix zero s = ""
prefix (suc n) String.[] = ""
prefix (suc n) (String.◌∷◌ c s) = String.◌∷◌ c (prefix n s)

-- s[-1] == c, and None for the IndexError of an empty text.
abbrev pub last_code : String → ℕ → ℕ
last_code String.[] k = k
last_code (String.◌∷◌ c s) k = last_code s (code c)

-- The element [0] of what split returns, which is never empty.
abbrev pub first_part : List String → String
first_part [] = ""
first_part (s ∷ ss) = s
