-- ===== src/Base/Errors.antt =====
-- Computations that may end with an uncaught exception, and that draw from a generator G.

use mathlib.Core.Path.{◌≡◌, refl, subst}

pub data PyError : Type 0 where
  index_error type_error value_error attribute_error gcs_not_found url_error key_error : PyError
  zero_division_error system_exit os_error : PyError
  -- httplib.HTTPException, socket.timeout: what urllib2.urlopen and read raise beside URLError
  http_exception : PyError

pub data Result {ℓ} (A : Type ℓ) : Type ℓ where
  ok : A → Result A
  raise : PyError → Result A

-- What holds of the value, if there is one.
abbrev pub OnOk {ℓ κ} : {A : Type ℓ} → (A → Type κ) → Result A → Type κ
OnOk Q (ok a) = Q a
OnOk Q (raise e) = Unit

pub OnOk_of {ℓ κ} : {A : Type ℓ} (Q : A → Type κ) (r : Result A) {a : A} → OnOk Q r → r ≡ ok a → Q a
OnOk_of Q r h e = subst (OnOk Q) e h

pub OnOk-map {ℓ κ} :
    {A : Type ℓ} (P Q : A → Type κ) (r : Result A) → ((a : A) → P a → Q a) → OnOk P r → OnOk Q r
OnOk-map P Q (ok a) f h = f a h
OnOk-map P Q (raise e) f h = tt

pub OnOk-and {ℓ κ} :
    {A : Type ℓ} (P Q : A → Type κ) (r : Result A) → OnOk P r → OnOk Q r → OnOk (λ a. P a × Q a) r
OnOk-and P Q (ok a) p q = (p, q)
OnOk-and P Q (raise e) p q = tt

infixl 5 ◌>>=◌
abbrev pub ◌>>=◌ {ℓ κ} : {A : Type ℓ} {B : Type κ} → Result A → (A → Result B) → Result B
ok a >>= f = f a
raise e >>= f = raise e

pub ok-injective {ℓ} : {A : Type ℓ} {x y : A} → ok x ≡ ok y → x ≡ y
ok-injective e = cc

-- A bind that ends well, taken apart.
pub >>=-eq-ok {ℓ κ} :
    {A : Type ℓ} {B : Type κ} (r : Result A) (f : A → Result B) {b : B}
    → (r >>= f) ≡ ok b
    → (a : A) × (r ≡ ok a) × (f a ≡ ok b)
>>=-eq-ok (ok a) f e = (a, refl, e)
>>=-eq-ok (raise x) f e = absurd (cc)
