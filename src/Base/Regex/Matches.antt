-- ===== src/Base/Regex/Matches.antt =====
-- How a match goes, from the parts of the pattern and of the text.
use text.Mathlib.TextLemmas.{nil-append, cons-append}
use Prim.Native.Nat.{ℕ, ◌+◌, ◌-◌}
use Prim.Native.Char.{Char, code}
use Prim.Native.String.{String, ◌++◌}
use mathlib.Core.Path.{◌≡◌, refl, sym, ap, ◌∙◌}
use mathlib.Core.Bool.{Bool, true, false}
use mathlib.Core.Option.{Option, none, some}
use mathlib.Core.List.{◌∷◌}
use native.Mathlib.Omega.{arith}
use mlab_ns.Base.Tests.{if◌then◌else◌, if_elim}
use mlab_ns.Base.Text.{size, prefix}
use mlab_ns.Base.Regex.{
  Regex, one, many, seq, opt, group, at_end, Groups, or_else, match_many, match_from,
}

-- A text before another, character by character.
abbrev pub attach : String → String → String
attach String.[] t = t
attach (String.◌∷◌ c s) t = String.◌∷◌ c (attach s t)

pub attach-append : (s t : String) → attach s t ≡ s ++ t
attach-append String.[] t = sym (nil-append t)
attach-append (String.◌∷◌ c s) t = ap (String.◌∷◌ c) (attach-append s t) ∙ sym (cons-append c s t)

size-attach : (s t : String) → size (attach s t) ≡ size s + size t
size-attach String.[] t = omega arith
size-attach (String.◌∷◌ c s) t = omega (arith, size-attach s t)

prefix_at : (s t : String) → prefix (size s) (attach s t) ≡ s
prefix_at String.[] t = refl
prefix_at (String.◌∷◌ c s) t = ap (String.◌∷◌ c) (prefix_at s t)

-- What stands before the rest.
pub prefix-attach : (s t : String) → prefix (size (attach s t) - size t) (attach s t) ≡ s
prefix-attach s t =
    let n : size (attach s t) - size t ≡ size s = omega (arith, size-attach s t) in
    ap (λ m. prefix m (attach s t)) n ∙ prefix_at s t

-- Every character is of the class.
abbrev pub AllOf : (ℕ → Bool) → String → Type 0
AllOf test String.[] = Unit
AllOf test (String.◌∷◌ c s) = (test (code c) ≡ true) × AllOf test s

-- The same as a test.
abbrev pub all_of : (ℕ → Bool) → String → Bool
all_of test String.[] = true
all_of test (String.◌∷◌ c s) = let rest = all_of test s in if test (code c) then rest else false

pub all_of-AllOf : (test : ℕ → Bool) (s : String) → all_of test s ≡ true → AllOf test s
all_of-AllOf test String.[] e = tt
all_of-AllOf test (String.◌∷◌ c s) e = (ground (arith, e), all_of-AllOf test s (ground (arith, e)))

-- The text does not begin with a character of the class.
abbrev pub StopsAt : (ℕ → Bool) → String → Type 0
StopsAt test String.[] = Unit
StopsAt test (String.◌∷◌ c s) = test (code c) ≡ false

or_else-some : (a b : Option Groups) (g : Groups) → a ≡ some g → or_else a b ≡ some g
or_else-some none b g e = absurd (cc)
or_else-some (some h) b g e = e

match_many-attach :
    (test : ℕ → Bool) (s rest : String) (k : String → Option Groups) (g : Groups)
    → AllOf test s
    → StopsAt test rest
    → k rest ≡ some g
    → match_many test (attach s rest) k ≡ some g
unfolding match_many
match_many-attach test String.[] String.[] k g h stop e = e
match_many-attach test String.[] (String.◌∷◌ c rest) k g h stop e =
    if_elim (λ o. o ≡ some g) (test (code c)) _ _ (λ t. absurd (cc (t, stop))) (λ _. e)
match_many-attach test (String.◌∷◌ c s) rest k g (t, h) stop e =
    rw t (or_else-some _ _ g (match_many-attach test s rest k g h stop e))

-- The pattern matches a first part of the text, and what follows, k, matches the rest.
pub record Matches (r : Regex) (s : String) (gs : Groups) (k : String → Groups → Option Groups)
    (g : Groups) : Type 0 where
  pub found : match_from r s gs k ≡ some g

module _ {gs : Groups} {k : String → Groups → Option Groups} {g : Groups} where
  pub match_one_of :
      {test : ℕ → Bool} {c : Char} {s : String}
      → test (code c) ≡ true
      → k s gs ≡ some g
      → Matches (one test) (String.◌∷◌ c s) gs k g
  unfolding match_from
  match_one_of t e = record { found = rw t e }

  pub match_many_of :
      {test : ℕ → Bool} (s rest : String)
      → AllOf test s
      → StopsAt test rest
      → k rest gs ≡ some g
      → Matches (many test) (attach s rest) gs k g
  unfolding match_from
  match_many_of {test} s rest h stop e = record {
    found = match_many-attach test s rest (λ r. k r gs) g h stop e;
  }

  pub match_seq_of :
      {r₁ r₂ : Regex} {s : String}
      → Matches r₁ s gs (λ rest gs'. match_from r₂ rest gs' k) g
      → Matches (seq r₁ r₂) s gs k g
  unfolding match_from
  match_seq_of m = record { found = m.found }

  pub match_opt_of : {r : Regex} {s : String} → Matches r s gs k g → Matches (opt r) s gs k g
  unfolding match_from
  match_opt_of m = record { found = or_else-some _ _ g m.found }

  -- The text of a group is what its pattern has passed.
  pub match_group_of :
      {n : ℕ} {r : Regex} {s : String}
      → Matches r s gs (λ rest gs'. k rest ((n, prefix (size s - size rest) s) ∷ gs')) g
      → Matches (group n r) s gs k g
  unfolding match_from
  match_group_of m = record { found = m.found }

  pub match_end_of : k "" gs ≡ some g → Matches at_end "" gs k g
  unfolding match_from
  match_end_of e = record { found = e }
