-- ===== src/Page.antt =====
-- What urllib2 gives for a URL that a cron handler opens, and what the handler sends.

use mlab_ns.Base.{◌≡◌, refl}
use mlab_ns.Base.Errors.{Result, ok, raise}

-- What is read; an HTTPError, which the handlers catch; or another URLError, which they do not.
pub data Answer {ℓ} (A : Type ℓ) : Type ℓ where
  received : A → Answer A
  http_error url_error : Answer A

-- util.send_success and util.send_not_found.
pub data Reply : Type 0 where
  success not_found : Reply

module _ {A : Type 0} where
  -- A part of a handler that changes A and may end with an exception, and what follows it.
  abbrev pub and_then : Result {0} Unit × A → (A → Result {0} Unit × A) → Result {0} Unit × A
  and_then (raise e, s) f = (raise e, s)
  and_then (ok u, s) f = f s

  -- return util.send_success(self)
  abbrev pub succeeded : Result {0} Unit × A → Result Reply × A
  succeeded (raise e, s) = (raise e, s)
  succeeded (ok u, s) = (ok success, s)

  pub and_then-ok :
      (r : Result {0} Unit × A) (f : A → Result {0} Unit × A) → r.0 ≡ ok tt → and_then r f ≡ f r.1
  and_then-ok (ok u, s) f h = refl
  and_then-ok (raise e, s) f h = absurd (cc)

  -- What each part keeps, both keep.
  pub and_then-keeps :
      (P : A → Type 0) (r : Result {0} Unit × A) (f : A → Result {0} Unit × A)
      → P r.1
      → ((s : A) → P s → P (f s).1)
      → P (and_then r f).1
  and_then-keeps P (raise e, s) f h k = h
  and_then-keeps P (ok u, s) f h k = k s h

  -- Where neither part raises, both end.
  pub and_then-ends :
      (P : A → Type 0) (r : Result {0} Unit × A) (f : A → Result {0} Unit × A)
      → (r.0 ≡ ok tt) × P r.1
      → ((s : A) → P s → ((f s).0 ≡ ok tt) × P (f s).1)
      → ((and_then r f).0 ≡ ok tt) × P (and_then r f).1
  and_then-ends P (raise e, s) f h k = absurd (cc h.0)
  and_then-ends P (ok u, s) f h k = k s h.1

  pub succeeded-keeps : (P : A → Type 0) (r : Result {0} Unit × A) → P r.1 → P (succeeded r).1
  succeeded-keeps P (raise e, s) h = h
  succeeded-keeps P (ok u, s) h = h

  pub succeeded-ends : (r : Result {0} Unit × A) → r.0 ≡ ok tt → (succeeded r).0 ≡ ok success
  succeeded-ends (raise e, s) h = absurd (cc)
  succeeded-ends (ok u, s) h = refl
