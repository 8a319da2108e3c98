-- ===== src/Psci/Codes.antt =====
-- src/psci.rs: the numbers of the error codes, and the fields of the version.
use mini_visor_pi.Prelude.{ℕ, ◌+◌, ◌*◌, ◌%◌, ◌^◌, ◌<◌, ◌≡◌, ◌≢◌, ◌⊎◌, refl, inl, inr, arith}
use mini_visor_pi.Psci.{
  PsciErrorCodes, success, not_supported, invalid_parameters, denied, already_on, on_pending,
  internal_failure, not_present, disabled, invalid_address, unknown, from_u64,
}

-- The table of the PSCI specification, as 32-bit words.
abbrev pub number : PsciErrorCodes → ℕ
number success = 0
number not_supported = 0xFFFFFFFF
number invalid_parameters = 0xFFFFFFFE
number denied = 0xFFFFFFFD
number already_on = 0xFFFFFFFC
number on_pending = 0xFFFFFFFB
number internal_failure = 0xFFFFFFFA
number not_present = 0xFFFFFFF9
number disabled = 0xFFFFFFF8
number invalid_address = 0xFFFFFFF7
number unknown = 1

from_low :
    (code : PsciErrorCodes) (value : ℕ) → value % 2 ^ 32 ≡ number code → from_u64 value ≡ code
unfolding from_u64
from_low success value e = rw e refl
from_low not_supported value e = rw e refl
from_low invalid_parameters value e = rw e refl
from_low denied value e = rw e refl
from_low already_on value e = rw e refl
from_low on_pending value e = rw e refl
from_low internal_failure value e = rw e refl
from_low not_present value e = rw e refl
from_low disabled value e = rw e refl
from_low invalid_address value e = rw e refl
from_low unknown value e = rw e refl

-- The low 32 bits of a register.
low_word : (high word : ℕ) → word < 2 ^ 32 → (high * 2 ^ 32 + word) % 2 ^ 32 ≡ word
low_word high word h = omega arith

number-lt : (code : PsciErrorCodes) → number code < 2 ^ 32
number-lt success = omega arith
number-lt not_supported = omega arith
number-lt invalid_parameters = omega arith
number-lt denied = omega arith
number-lt already_on = omega arith
number-lt on_pending = omega arith
number-lt internal_failure = omega arith
number-lt not_present = omega arith
number-lt disabled = omega arith
number-lt invalid_address = omega arith
number-lt unknown = omega arith

known-number : (value : ℕ) → from_u64 value ≢ unknown → value % 2 ^ 32 ≡ number (from_u64 value)
unfolding from_u64
known-number value h = ground arith

unknown-cases : (code : PsciErrorCodes) → (code ≡ unknown) ⊎ (code ≢ unknown)
unknown-cases unknown = inl refl
unknown-cases _ = inr (λ e. cc)

-- Each error code is recognised from its number in the low half of X0, whatever the high half is, and
-- a value that is not reported as unknown has in its low half the number of the code that is reported.
pub from_u64-number :
    (code : PsciErrorCodes) (high value : ℕ)
    → (from_u64 (high * 2 ^ 32 + number code) ≡ code)
      × ((from_u64 value ≡ unknown) ⊎ (value % 2 ^ 32 ≡ number (from_u64 value)))
from_u64-number code high value = (
  from_low code (high * 2 ^ 32 + number code) (low_word high (number code) (number-lt code)),
  elim (unknown-cases (from_u64 value)) [
    | inl e ↦ inl e
    | inr known ↦ inr (known-number value known)
  ],
)
