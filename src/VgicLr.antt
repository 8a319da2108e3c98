-- ===== src/VgicLr.antt =====
-- src/vgic_lr.rs: how an entry of a GICv2 List Register (GICH_LR) is packed.
pub mod Fields
use mini_visor_pi.Prelude.{ℕ, ◌*◌, ◌-◌, ◌^◌, Option, none, some, bit_and, bit_or}
use mini_visor_pi.Prelude.Bits.{shr, shl}

abbrev pub gich_lr_virtual_id : ℕ
gich_lr_virtual_id = 2 ^ 10 - 1

abbrev pub gich_lr_physical_id : ℕ
gich_lr_physical_id = (2 ^ 10 - 1) * 2 ^ 10

abbrev pub gich_lr_eoi : ℕ
gich_lr_eoi = 2 ^ 19

abbrev pub gich_lr_state_pending : ℕ
gich_lr_state_pending = 2 ^ 28

abbrev pub gich_lr_hw : ℕ
gich_lr_hw = 2 ^ 31

unfoldable pub create_list_register_entry : ℕ → ℕ → ℕ → Option ℕ → ℕ
create_list_register_entry int_id group priority physical_int_id =
    let entry =
      bit_or
        (bit_or (bit_or gich_lr_state_pending (shl 32 group 30))
          (shl 32 (bit_and (shr priority 3) 0x1F) 23))
        (bit_and int_id gich_lr_virtual_id) in
    elim physical_int_id [
      | some p_int_id ↦
          bit_or entry (bit_or gich_lr_hw (bit_and (shl 32 p_int_id 10) gich_lr_physical_id))
      | none ↦ bit_or entry gich_lr_eoi
    ]
