-- ===== src/ListRegisters.antt =====
-- The List Registers of one pCPU (src/drivers/gicv2.rs, the GICH functions) and the injection of a
-- virtual interrupt into them (src/vgic.rs, add_virtual_interrupt).
pub mod Delivery
pub mod Distinct
pub mod Waiting
use mini_visor_pi.Prelude.{
  ℕ, ◌+◌, ◌-◌, ◌*◌, ◌^◌, Bool, true, false, not, ◌&&◌, List, none, some, bit_and, bit_or, min,
  get_or, set, ◌==◌, if◌then◌else◌,
}
use mini_visor_pi.Prelude.Search.{first_index}
use mini_visor_pi.VgicLr.{gich_lr_virtual_id, gich_lr_state_pending}

-- The registers of the GIC hypervisor interface that the code reads and writes, and the diagnostic
-- counter. `list_regs` is what get_gich_vtr_list_regs returns, `eisr` what get_gich_eisr returns.
pub record Gich : Type 0 where
  pub list_regs : ℕ
  pub eisr : ℕ
  pub lrs : List ℕ
  pub lr_overflow_count : ℕ

abbrev pub gich_lr_state : ℕ
gich_lr_state = 3 * 2 ^ 28

abbrev pub number_of_supported_lrs : ℕ
number_of_supported_lrs = 4

abbrev pub supported_lrn : Gich → ℕ
supported_lrn g = min g.list_regs number_of_supported_lrs

abbrev pub get_gich_lr : Gich → ℕ → ℕ
get_gich_lr g i = get_or g.lrs i 0

abbrev pub set_gich_lr : Gich → ℕ → ℕ → Gich
set_gich_lr g i v = record g { lrs = set g.lrs i v }

unfoldable pub is_inactive : ℕ → Bool
is_inactive lr = bit_and lr gich_lr_state == 0

unfoldable pub virtual_id : ℕ → ℕ
virtual_id lr = bit_and lr gich_lr_virtual_id

-- The test of the first pass: the register holds the entry's INTID.
unfoldable pub holds : Gich → ℕ → ℕ → Bool
holds g entry i =
    not (is_inactive (get_gich_lr g i)) && (virtual_id (get_gich_lr g i) == virtual_id entry)

-- The test of the second pass: the register is free.
unfoldable pub is_free : Gich → ℕ → Bool
is_free g i = is_inactive (get_gich_lr g i)

unfoldable pub add_virtual_interrupt : Gich → ℕ → Bool × Gich
add_virtual_interrupt g entry = elim (first_index (holds g entry) (supported_lrn g)) [
  | some i ↦ (true, set_gich_lr g i (bit_or (get_gich_lr g i) gich_lr_state_pending))
  | none ↦ elim (first_index (is_free g) (supported_lrn g)) [
    | some i ↦ (true, set_gich_lr g i entry)
    | none ↦ (false, record g { lr_overflow_count = g.lr_overflow_count + 1 })
  ]
]
