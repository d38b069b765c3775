-- ===== src/SystemCall.antt =====
-- libsponge/util/util.cc: `SystemCall` and the exceptions that the code throws.
use cs144_lab_assignment.Common.{ℕ, ◌≡◌, refl, ◌⊎◌, inl, inr}

-- `runtime_error`, `out_of_range`, and `unix_error` with its `errno`.
pub data Exception : Type 0 where
  runtime_error out_of_range : Exception
  unix_error : ℕ → Exception

-- What a call that may throw comes to.
pub data Result {ℓ} (A : Type ℓ) : Type ℓ where
  ok : A → Result A
  throws : Exception → Result A

-- What the kernel answers: a number that is not negative, or a failure with its `errno`. The return
-- value is the `int` that `SystemCall` is given.
pub data SysReturn : Type 0 where
  returned : ℕ → SysReturn
  failed : ℕ → SysReturn

-- `SystemCall(attempt, return_value)`. The `errno_mask` is 0 at every call that is modelled, and the
-- `errno` of a failure is never 0.
unfoldable pub system_call : SysReturn → Result ℕ
system_call (returned n) = ok n
system_call (failed errno) = throws (unix_error errno)

pub Result-cases {ℓ} :
    {A : Type ℓ} (r : Result A) → ((e : Exception) × (r ≡ throws e)) ⊎ ((a : A) × (r ≡ ok a))
Result-cases (throws e) = inl (e, refl)
Result-cases (ok a) = inr (a, refl)
