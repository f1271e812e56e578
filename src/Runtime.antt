-- ===== src/Runtime.antt =====
-- What the program takes from the language's runtime and cannot be read here: floats, the random
-- module, and the order in which a dict lists its values. The laws are those of Python's manual.
use mlab_ns.Base.{
  ℕ, ◌≤◌, String, Bool, true, false, Option, some, ◌≡◌, List, ◌∷◌, ◌++◌, Memᴰ, Permᴰ, length,
}

-- Python's float.
pub record FloatOps (F : Type 0) : Type 0 where
  -- float(s), with none for ValueError
  pub float : String → Option F
  -- x < y, false where one side is a NaN
  pub less : F → F → Bool
  -- x == x, which fails for a NaN alone
  pub is_number : F → Bool
  -- x == 0.0, which is when a float counts as false
  pub is_zero : F → Bool
  pub abs : F → F
  -- the float nearest to n / d: a literal such as 0.2 is ratio 2 10
  pub ratio : ℕ → ℕ → F
  pub add : F → F → F
  pub sub : F → F → F
  pub mul : F → F → F
  pub div : F → F → F
  pub radians : F → F
  -- none for ValueError, a math domain error: of an infinity, or the square root of what is below 0
  pub sin : F → Option F
  pub cos : F → Option F
  pub sqrt : F → Option F
  pub atan2 : F → F → F
  -- '%f' % x
  pub show : F → String

-- random.uniform(0, 1), shuffle, sample and choice over a generator G, and dict.values().
pub record Chance (G F T : Type 0) : Type 0 where
  pub uniform : G → F × G
  pub shuffle : List T → G → List T × G
  -- none for ValueError: more items are asked for than there are
  pub sample : List T → ℕ → G → Option (List T) × G
  -- none for IndexError: there is no item
  pub choice : List T → G → Option T × G
  pub dict_values : List T → List T

-- The order of floats. Every comparison with a NaN fails, so only the float in the middle
-- has to be a number.
pub record FloatOrder {F : Type 0} (fl : FloatOps F) : Type 0 where
  pub less_asym : (a b : F) → fl.less a b ≡ true → fl.less b a ≡ false
  pub less_through :
      (a b c : F)
      → fl.is_number b ≡ true
      → fl.less b a ≡ false
      → fl.less c b ≡ false
      → fl.less c a ≡ false

pub record ChanceLaws {G F T : Type 0} (fl : FloatOps F) (r : Chance G F T) : Type 0 where
  -- uniform(0, 1) is at most 1.0
  pub uniform_le_one : (g : G) → fl.less (fl.ratio 1 1) (r.uniform g).0 ≡ false
  pub shuffle_perm : (xs : List T) (g : G) → Permᴰ xs (r.shuffle xs g).0
  -- a sample of k items is what stands first in some order of the items
  pub sample_perm :
      (xs : List T) (k : ℕ) (g : G)
      → k ≤ length xs
      → (ys rest : List T) × ((r.sample xs k g).0 ≡ some ys)
        × (length ys ≡ k)
        × Permᴰ xs (ys ++ rest)
  pub choice_mem : (xs : List T) (g : G) (y : T) → (r.choice xs g).0 ≡ some y → Memᴰ y xs
  -- there is a choice where there is an item
  pub choice_some : (x : T) (xs : List T) (g : G) → (y : T) × ((r.choice (x ∷ xs) g).0 ≡ some y)
  pub values_perm : (xs : List T) → Permᴰ xs (r.dict_values xs)
