-- ===== src/GicDistributor.antt =====
-- The virtual GICv2 Distributor of src/mmio/gicv2.rs: its state and its register arrays.
-- An access outside an array panics in the source: `none`.
pub mod Registers
pub mod Trigger
pub mod Inject
pub mod Mmio
pub mod Validity
pub mod Flags
pub mod Delivery
pub mod Raised
pub mod Banking
pub mod NoLoss
pub mod Writes
pub mod Panic
use mini_visor_pi.Prelude.{
  ℕ, ◌+◌, ◌/◌, ◌%◌, ◌^◌, Bool, true, false, List, [], Option, none, some, bit_and, bit_or, length,
  get_elem?, set, replicate, zero, suc, min, ltb, ◌==◌, if◌then◌else◌, not,
}
use mini_visor_pi.Prelude.Bits.{shr, complement}
use mini_visor_pi.Prelude.Panics.{◌>>=◌}

-- The SGI/PPI (INTID 0-31) half of the arrays, one copy for each CPU interface.
pub record BankedRegisters : Type 0 where
  pub group : ℕ
  pub enable : ℕ
  pub pending : ℕ
  pub active : ℕ
  pub priority : List ℕ
  pub configuration : List ℕ

pub record GicDistributorMmio : Type 0 where
  pub ctlr : ℕ
  pub group : List ℕ
  pub enable : List ℕ
  pub pending : List ℕ
  pub active : List ℕ
  pub priority : List ℕ
  pub configuration : List ℕ
  pub target : List ℕ
  pub banked : List BankedRegisters
  pub own_target : ℕ
  pub to_inject_interrupt : List (ℕ × ℕ)

abbrev pub max_cpu_interfaces : ℕ
max_cpu_interfaces = 8

abbrev pub banked_int_id_count : ℕ
banked_int_id_count = 32

abbrev pub new_banked : BankedRegisters
new_banked = record {
  group = 0;
  enable = 0;
  pending = 0;
  active = 0;
  priority = replicate (banked_int_id_count / 4) 0;
  configuration = replicate (banked_int_id_count / 16) 0;
}

unfoldable pub new : ℕ → GicDistributorMmio
new own_target = record {
  ctlr = 0;
  group = replicate 32 0;
  enable = replicate 32 0;
  pending = replicate 32 0;
  active = replicate 32 0;
  priority = replicate 255 0;
  configuration = replicate 64 0;
  target = replicate 255 0;
  banked = replicate max_cpu_interfaces new_banked;
  own_target = own_target;
  to_inject_interrupt = [];
}

-- `x.trailing_zeros()` of a word of `w` bits.
unfoldable pub trailing_zeros : ℕ → ℕ → ℕ
trailing_zeros zero x = 0
trailing_zeros (suc w) x =
    let rest = suc (trailing_zeros w (x / 2)) in if x % 2 == 1 then 0 else rest

unfoldable pub target_to_cpu_index : ℕ → ℕ
unfolding trailing_zeros
target_to_cpu_index target = min (trailing_zeros 8 target) 7

-- The arrays with one bit for each INTID: group_register, enable_register, pending_register and
-- active_register.
pub data BitArray : Type 0 where
  group_bits enable_bits pending_bits active_bits : BitArray

-- The arrays with several bits for each INTID: priority_register and configuration_register.
pub data WordArray : Type 0 where
  priority_words configuration_words : WordArray

abbrev pub banked_bits : BitArray → BankedRegisters → ℕ
banked_bits group_bits b = b.group
banked_bits enable_bits b = b.enable
banked_bits pending_bits b = b.pending
banked_bits active_bits b = b.active

abbrev pub set_banked_bits : BitArray → BankedRegisters → ℕ → BankedRegisters
set_banked_bits group_bits b v = record b { group = v }
set_banked_bits enable_bits b v = record b { enable = v }
set_banked_bits pending_bits b v = record b { pending = v }
set_banked_bits active_bits b v = record b { active = v }

abbrev pub shared_bits : BitArray → GicDistributorMmio → List ℕ
shared_bits group_bits d = d.group
shared_bits enable_bits d = d.enable
shared_bits pending_bits d = d.pending
shared_bits active_bits d = d.active

abbrev pub set_shared_bits : BitArray → GicDistributorMmio → List ℕ → GicDistributorMmio
set_shared_bits group_bits d l = record d { group = l }
set_shared_bits enable_bits d l = record d { enable = l }
set_shared_bits pending_bits d l = record d { pending = l }
set_shared_bits active_bits d l = record d { active = l }

abbrev pub banked_words : WordArray → BankedRegisters → List ℕ
banked_words priority_words b = b.priority
banked_words configuration_words b = b.configuration

abbrev pub set_banked_words : WordArray → BankedRegisters → List ℕ → BankedRegisters
set_banked_words priority_words b l = record b { priority = l }
set_banked_words configuration_words b l = record b { configuration = l }

abbrev pub shared_words : WordArray → GicDistributorMmio → List ℕ
shared_words priority_words d = d.priority
shared_words configuration_words d = d.configuration

abbrev pub set_shared_words : WordArray → GicDistributorMmio → List ℕ → GicDistributorMmio
set_shared_words priority_words d l = record d { priority = l }
set_shared_words configuration_words d l = record d { configuration = l }

abbrev pub banked_word_count : WordArray → ℕ
banked_word_count priority_words = banked_int_id_count / 4
banked_word_count configuration_words = banked_int_id_count / 16

-- `array[i] = v`.
abbrev pub set_at {ℓ} : {A : Type ℓ} → List A → ℕ → A → Option (List A)
set_at xs i v = if ltb i (length xs) then some (set xs i v) else none
