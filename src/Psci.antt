-- ===== src/Psci.antt =====
-- src/psci.rs: the results of firmware calls.
use mini_visor_pi.Prelude.{
  ℕ, ◌+◌, ◌-◌, ◌*◌, ◌%◌, ◌^◌, Bool, true, false, Option, none, some, ◌==◌, if◌then◌else◌, bit_and,
}
use mini_visor_pi.Prelude.Bits.{shr}
pub mod Codes

pub data PsciErrorCodes : Type 0 where
  success not_supported invalid_parameters denied already_on on_pending internal_failure not_present
        disabled invalid_address unknown :
      PsciErrorCodes

abbrev pub psci_version : ℕ
psci_version = 0x84000000

abbrev pub psci_system_off : ℕ
psci_system_off = 0x84000008

abbrev pub psci_system_reset : ℕ
psci_system_reset = 0x84000009

abbrev pub psci_cpu_on : ℕ
psci_cpu_on = 0xC4000003

abbrev pub psci_cpu_off : ℕ
psci_cpu_off = 0x84000002

-- The 32 bits of the i32 value -n.
abbrev pub negative : ℕ → ℕ
negative n = 2 ^ 32 - n

-- PsciErrorCodes::from: `value as i32` keeps the low 32 bits.
unfoldable pub from_u64 : ℕ → PsciErrorCodes
from_u64 value =
    let low = value % 2 ^ 32 in
    if low == 0
    then success
    else if low == negative 1
    then not_supported
    else if low == negative 2
    then invalid_parameters
    else if low == negative 3
    then denied
    else if low == negative 4
    then already_on
    else if low == negative 5
    then on_pending
    else if low == negative 6
    then internal_failure
    else if low == negative 7
    then not_present
    else if low == negative 8
    then disabled
    else if low == negative 9
    then invalid_address
    else unknown

abbrev pub is_success : PsciErrorCodes → Bool
is_success success = true
is_success _ = false

pub data PsciResult {ℓ} (A : Type ℓ) : Type ℓ where
  ok : A → PsciResult A
  err : PsciErrorCodes → PsciResult A

-- The firmware is a parameter: a call changes its state and returns X0.
module _ {F : Type 0} (smc : F → ℕ → ℕ → ℕ → ℕ → F × ℕ) where
  unfoldable pub check_psci_version : F → F × PsciResult (ℕ × ℕ)
  check_psci_version f =
      let r = smc f psci_version 0 0 0 in
      if r.1 % 2 ^ 32 == negative 1
      then (r.0, err not_supported)
      else (r.0, ok (shr r.1 16 % 2 ^ 16, bit_and r.1 (2 ^ 16 - 1) % 2 ^ 16))

  unfoldable pub cpu_on : ℕ → ℕ → ℕ → F → F × PsciResult (Unit {0})
  cpu_on target_cpu entry_point argument f =
      let r = smc f psci_cpu_on target_cpu entry_point argument in
      let error_code = from_u64 r.1 in
      if is_success error_code then (r.0, ok tt) else (r.0, err error_code)
