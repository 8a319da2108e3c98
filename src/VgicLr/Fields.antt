-- ===== src/VgicLr/Fields.antt =====
-- What stands in each field of an entry that src/vgic_lr.rs packs.
use mini_visor_pi.Prelude.{
  ℕ, ◌+◌, ◌*◌, ◌-◌, ◌/◌, ◌%◌, ◌^◌, ◌<◌, ◌≡◌, ap, ◌∙◌, Option, none, some, bit_and, bit_or, arith,
}
use mini_visor_pi.Prelude.Bits.{
  shr, shl, bit_or_parts, bit_or_comm, bit_or_assoc, bit_and_mask, bit_and_shifted,
}
use mini_visor_pi.VgicLr.{create_list_register_entry, gich_lr_physical_id, gich_lr_state_pending}

physical_field : (p : ℕ) → bit_and (shl 32 p 10) gich_lr_physical_id ≡ p % 1024 * 1024
physical_field p =
    bit_and_shifted 10 (shl 32 p 10) (2 ^ 10 - 1)
    ∙ ap (λ (t : ℕ). t * 1024) (bit_and_mask 10 (shr (shl 32 p 10) 10))
    ∙ omega arith

-- The part above the physical id: group, state and priority.
upper :
    (g pr : ℕ)
    → g < 2
    → pr < 32
    → bit_or (bit_or gich_lr_state_pending (g * 2 ^ 30)) (pr * 2 ^ 23)
      ≡ (pr + 32 + 128 * g) * 2 ^ 23
upper g pr hg hp = omega (
  arith,
  bit_or_comm (2 ^ 28) (g * 2 ^ 30),
  bit_or_parts 30 g (2 ^ 28) (omega arith),
  ap (λ t. bit_or t (pr * 2 ^ 23)) whole,
  bit_or_parts 28 (1 + 4 * g) (pr * 2 ^ 23) (omega arith),
)
  where
    whole : bit_or (2 ^ 28) (g * 2 ^ 30) ≡ (1 + 4 * g) * 2 ^ 28
    whole =
        omega (arith, bit_or_comm (2 ^ 28) (g * 2 ^ 30), bit_or_parts 30 g (2 ^ 28) (omega arith))

priority_field : (priority : ℕ) → bit_and (shr priority 3) 0x1F ≡ priority / 8 % 32
priority_field priority = bit_and_mask 5 (shr priority 3)

fit : (g k : ℕ) → g * 2 ^ k < 2 ^ 32 → shl 32 g k ≡ g * 2 ^ k
fit g k h = omega arith

module _ (int_id g priority : ℕ) (hg : g < 2) where
  abbrev top : ℕ
  top = (priority / 8 % 32 + 32 + 128 * g) * 2 ^ 23

  head :
      bit_or
        (bit_or gich_lr_state_pending (shl 32 g 30))
        (shl 32 (bit_and (shr priority 3) 0x1F) 23)
      ≡ top
  head =
      rw (priority_field priority, fit g 30 (omega arith), fit (priority / 8 % 32) 23 (omega arith))
        (upper g (priority / 8 % 32) hg (omega arith))

  -- An entry as the sum of its fields.
  pub software_entry :
      create_list_register_entry int_id g priority none ≡ top + 2 ^ 19 + int_id % 1024
  unfolding create_list_register_entry
  software_entry =
      rw (head, bit_and_mask 10 int_id, bit_or_assoc, bit_or_comm (int_id % 1024) (2 ^ 19))
        (omega (
          arith,
          bit_or_parts 19 1 (int_id % 1024) (omega arith),
          ap (bit_or top) (bit_or_parts 19 1 (int_id % 1024) (omega arith)),
          bit_or_parts 23 (priority / 8 % 32 + 32 + 128 * g) (2 ^ 19 + int_id % 1024) (omega arith),
        ))

  pub hardware_entry :
      (p : ℕ)
      → create_list_register_entry int_id g priority (some p)
        ≡ 2 ^ 31 + top + p % 1024 * 1024 + int_id % 1024
  unfolding create_list_register_entry
  hardware_entry p =
      rw (head, bit_and_mask 10 int_id, physical_field p)
        (bit_or_comm (bit_or top id) (bit_or (2 ^ 31) ph)
          ∙ bit_or_assoc (2 ^ 31) ph (bit_or top id)
          ∙ ap (bit_or (2 ^ 31)) below
          ∙ bit_or_parts 31 1 (top + (ph + id)) (omega arith)
          ∙ omega arith)
    where
      id : ℕ
      id = int_id % 1024

      ph : ℕ
      ph = p % 1024 * 1024

      low : bit_or id ph ≡ ph + id
      low = bit_or_comm id ph ∙ bit_or_parts 10 (p % 1024) id (omega arith)

      below : bit_or ph (bit_or top id) ≡ top + (ph + id)
      below =
          bit_or_comm ph (bit_or top id)
          ∙ bit_or_assoc top id ph
          ∙ ap (bit_or top) low
          ∙ bit_or_parts 23 (priority / 8 % 32 + 32 + 128 * g) (ph + id) (omega arith)

abbrev pub lr_state : ℕ → ℕ
lr_state entry = entry / 2 ^ 28 % 4

-- How an entry is tied to a physical interrupt, or to none.
abbrev pub Backed : ℕ → Option ℕ → Type 0
Backed e none = (e / 2 ^ 19 % 2 ≡ 1) × (e / 2 ^ 31 ≡ 0)
Backed e (some p) = (e / 2 ^ 31 ≡ 1) × (e / 2 ^ 10 % 1024 ≡ p % 1024)

-- An entry made for a group below 2 carries the virtual id modulo 1024, the pending state, the top
-- five bits of an 8-bit priority and the group; with no physical id it asks for a maintenance
-- interrupt (EOI) and has no HW bit, and with one it has the HW bit and the physical id modulo 1024.
pub create_list_register_entry_fields :
    (int_id group priority : ℕ) (physical : Option ℕ)
    → group < 2
    → let e = create_list_register_entry int_id group priority physical in
      (e < 2 ^ 32)
      × (e % 1024 ≡ int_id % 1024)
      × (lr_state e ≡ 1)
      × (e / 2 ^ 23 % 32 ≡ priority / 8 % 32)
      × (e / 2 ^ 30 % 2 ≡ group)
      × Backed e physical
create_list_register_entry_fields int_id group priority none hg =
    rw (software_entry int_id group priority hg) (omega arith)
create_list_register_entry_fields int_id group priority (some p) hg =
    rw (hardware_entry int_id group priority hg p) (omega arith)
