-- ===== src/Base/Regex.antt =====
-- Python's re.match for the patterns that the program writes: classes of characters, greedy
-- repetition of a class, optional parts, groups and the end of the text. A match goes on with what
-- follows, k, so that a part gives way where the rest does not match, in the order of preference of
-- the re module.
pub mod Matches
use Prim.Native.Nat.{ℕ, ◌-◌}
use Prim.Native.Char.{code}
use Prim.Native.String.{String}
use mathlib.Core.Bool.{Bool, true, false}
use mathlib.Core.Option.{Option, none, some}
use mathlib.Core.List.{List, [], ◌∷◌}
use mlab_ns.Base.Tests.{nat_eq, if◌then◌else◌}
use mlab_ns.Base.Text.{size, prefix, no_text}

pub data Regex : Type 0 where
  one many : (ℕ → Bool) → Regex
  seq : Regex → Regex → Regex
  opt : Regex → Regex
  group : ℕ → Regex → Regex
  at_end : Regex

-- The texts of the groups.
abbrev pub Groups : Type 0
Groups = List (ℕ × String)

abbrev pub group_text : ℕ → Groups → Option String
group_text n [] = none
group_text n ((m, s) ∷ gs) = let rest = group_text n gs in if nat_eq m n then some s else rest

abbrev pub or_else : Option Groups → Option Groups → Option Groups
or_else (some g) h = some g
or_else none h = h

-- A class repeated any number of times, as often as possible first.
match_many : (ℕ → Bool) → String → (String → Option Groups) → Option Groups
match_many test String.[] k = k ""
match_many test (String.◌∷◌ c s) k =
    let longer = match_many test s k in
    let both = or_else longer (k (String.◌∷◌ c s)) in
    if test (code c) then both else k (String.◌∷◌ c s)

-- The end of the text, or a line feed before it.
abbrev is_end : String → Bool
is_end String.[] = true
is_end (String.◌∷◌ c s) = if nat_eq (code c) 10 then no_text s else false

abbrev match_one : (ℕ → Bool) → String → (String → Option Groups) → Option Groups
match_one test String.[] k = none
match_one test (String.◌∷◌ c s) k = if test (code c) then k s else none

unfoldable pub match_from :
    Regex → String → Groups → (String → Groups → Option Groups) → Option Groups
unfolding match_many
match_from (one test) s gs k = match_one test s (λ rest. k rest gs)
match_from (many test) s gs k = match_many test s (λ rest. k rest gs)
match_from (seq r₁ r₂) s gs k = match_from r₁ s gs (λ rest gs'. match_from r₂ rest gs' k)
match_from (opt r) s gs k = or_else (match_from r s gs k) (k s gs)
match_from (group n r) s gs k =
    match_from r s gs (λ rest gs'. k rest ((n, prefix (size s - size rest) s) ∷ gs'))
match_from at_end s gs k = if is_end s then k s gs else none

-- re.match
unfoldable pub re_match : Regex → String → Option Groups
unfolding match_from
re_match r s = match_from r s [] (λ rest gs. some gs)

-- re.search: the match at the first place where there is one.
unfoldable pub re_search : Regex → String → Option Groups
re_search r String.[] = re_match r String.[]
re_search r (String.◌∷◌ c s) = or_else (re_match r (String.◌∷◌ c s)) (re_search r s)
