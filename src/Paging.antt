-- ===== src/Paging.antt =====
-- src/paging.rs: the descriptors of a Stage 2 translation table, 64-bit words with their fields.
use mini_visor_pi.Prelude.{
  ℕ, zero, suc, ◌+◌, ◌-◌, ◌*◌, ◌^◌, Bool, true, false, Option, none, some, ltb, ◌==◌, if◌then◌else◌,
  bit_and, bit_or,
}
use mini_visor_pi.Prelude.Bits.{complement}
pub mod Map
pub mod Setup
pub mod Descriptors
pub mod Pages
pub mod Complete
pub mod Reached
pub mod Progress
pub mod Ranges

pub data Shareability : Type 0 where
  non_shareable outer_shareable inner_shareable : Shareability

abbrev pub shareability_bits : Shareability → ℕ
shareability_bits non_shareable = 0b00
shareability_bits outer_shareable = 0b10
shareability_bits inner_shareable = 0b11

abbrev pub page_shift : ℕ
page_shift = 12

abbrev pub page_size : ℕ
page_size = 4096

-- ((1 << 50) - 1) & !(PAGE_SIZE - 1).
abbrev pub output_address_mask : ℕ
output_address_mask = (2 ^ 38 - 1) * 2 ^ 12

abbrev pub table_address_mask : ℕ
table_address_mask = (2 ^ 38 - 1) * 2 ^ 12

abbrev pub af : ℕ
af = 2 ^ 10

abbrev pub sh : ℕ
sh = 0b11 * 2 ^ 8

abbrev pub s2ap : ℕ
s2ap = 0b11 * 2 ^ 6

abbrev pub attr_index : ℕ
attr_index = 0b1111 * 2 ^ 2

abbrev pub attr_write_back : ℕ
attr_write_back = 0b1111 * 2 ^ 2

-- A word without the digits of a mask.
abbrev pub without : ℕ → ℕ → ℕ
without d mask = bit_and d (complement 64 mask)

unfoldable pub new : ℕ
new = 0

unfoldable pub validate_as_page_descriptor : ℕ → ℕ
validate_as_page_descriptor d = bit_or d 0b11

unfoldable pub validate_as_table_descriptor : ℕ → ℕ
validate_as_table_descriptor d = bit_or d 0b11

unfoldable pub validate_as_block_descriptor : ℕ → ℕ
validate_as_block_descriptor d = bit_or d 0b01

unfoldable pub is_table_descriptor : ℕ → Bool
is_table_descriptor d = bit_and d 0b11 == 0b11

unfoldable pub get_next_level_table_address : ℕ → ℕ
get_next_level_table_address d = bit_and d table_address_mask

unfoldable pub set_output_address : ℕ → ℕ → ℕ
set_output_address output_address d =
    bit_or (bit_or (without d output_address_mask) output_address) af

unfoldable pub set_shareability : Shareability → ℕ → ℕ
set_shareability shareability d = bit_or (without d sh) (shareability_bits shareability * 2 ^ 8)

unfoldable pub set_permission : ℕ → ℕ → ℕ
set_permission permission d = bit_or (without d s2ap) (permission * 2 ^ 6)

unfoldable pub set_memory_attribute_write_back : ℕ → ℕ
set_memory_attribute_write_back d = bit_or (without d attr_index) attr_write_back

unfoldable pub set_memory_attribute_device : ℕ → ℕ
set_memory_attribute_device d = without d attr_index

-- The parts of the descriptors of a page and of a block that are the same.
unfoldable pub leaf : ℕ → ℕ → Bool → ℕ
leaf physical_address permission is_device =
    let d = set_permission permission (set_output_address physical_address new) in
    let attributed =
      if is_device then set_memory_attribute_device d else set_memory_attribute_write_back d in
    set_shareability inner_shareable attributed

unfoldable pub page_descriptor : ℕ → ℕ → Bool → ℕ
page_descriptor physical_address permission is_device =
    validate_as_page_descriptor (leaf physical_address permission is_device)

unfoldable pub block_descriptor : ℕ → ℕ → Bool → ℕ
block_descriptor physical_address permission is_device =
    validate_as_block_descriptor (leaf physical_address permission is_device)

unfoldable pub table_descriptor : ℕ → ℕ
table_descriptor table_address = validate_as_table_descriptor (set_output_address table_address new)

-- `none`: 43 - (3 - first_level) * 9 is below 0, which panics.
unfoldable pub number_of_concatenated_page_tables : ℕ → ℕ → Option ℕ
number_of_concatenated_page_tables t0sz first_level =
    if ltb 43 ((3 - first_level) * 9)
    then none
    else if ltb (43 - (3 - first_level) * 9) t0sz
    then some 1
    else some (2 ^ (43 - (3 - first_level) * 9 - t0sz))
