-- ===== src/Common/Results.antt =====
-- The exceptions of the services as values. Nest turns each into an HTTP status.
use Prim.Native.Nat.{ℕ}
use mathlib.Core.Bool.{Bool, true, false}
use mathlib.Core.Path.{◌≡◌, refl}
use mathlib.Core.Logic.{◌⊎◌, inl, inr}
use mathlib.Core.Option.{Option, none, some}

pub data HttpError : Type 0 where
  not_found bad_request forbidden conflict gone too_many_requests : HttpError
  internal_error bad_gateway unauthorized : HttpError
  -- The `retryAfter` of the response body, in seconds.
  unavailable : ℕ → HttpError

pub data Result {ℓ} (A : Type ℓ) : Type ℓ where
  ok : A → Result A
  err : HttpError → Result A

infixl 5 ◌>>=◌ ◌>>◌
abbrev pub ◌>>=◌ {ℓ κ} : {A : Type ℓ} {B : Type κ} → Result A → (A → Result B) → Result B
ok a >>= f = f a
err e >>= f = err e

abbrev pub ◌>>◌ {ℓ κ} : {A : Type ℓ} {B : Type κ} → Result A → Result B → Result B
m >> k = m >>= λ _. k

-- `if (test) throw e;`
abbrev pub throw_if : Bool → HttpError → Result (Unit {0})
throw_if true e = err e
throw_if false e = ok tt

-- `if (!row) throw e;`
abbrev pub or_throw {ℓ} : {A : Type ℓ} → Option A → HttpError → Result A
or_throw none e = err e
or_throw (some a) e = ok a

pub Result-cases {ℓ} :
    {A : Type ℓ} (r : Result A) → ((e : HttpError) × (r ≡ err e)) ⊎ ((a : A) × (r ≡ ok a))
Result-cases (ok a) = inr (a, refl)
Result-cases (err e) = inl (e, refl)
