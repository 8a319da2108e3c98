-- ===== src/GicDistributor/Registers.antt =====
-- src/mmio/gicv2.rs, the `*_register` helpers, `get_*` and `change_*_status`.
use mini_visor_pi.Prelude.{
  ℕ, ◌*◌, ◌/◌, ◌%◌, ◌^◌, Bool, Option, some, bit_and, bit_or, get_elem?, not, ltb, ◌==◌,
  if◌then◌else◌,
}
use mini_visor_pi.Prelude.Bits.{shr, complement}
use mini_visor_pi.Prelude.Panics.{◌>>=◌}
use mini_visor_pi.GicDistributor.{
  GicDistributorMmio, BitArray, WordArray, group_bits, enable_bits, pending_bits, active_bits,
  priority_words, banked_bits, set_banked_bits, shared_bits, set_shared_bits, banked_words,
  set_banked_words, shared_words, set_shared_words, banked_word_count, set_at,
}

-- *self.group_register(cpu, index), and its like.
unfoldable pub bit_register : BitArray → GicDistributorMmio → ℕ → ℕ → Option ℕ
bit_register a d cpu index =
    if index == 0
    then (do bank ← get_elem? d.banked cpu; some (banked_bits a bank))
    else get_elem? (shared_bits a d) index

-- *self.group_register(cpu, index) = value, and its like.
unfoldable pub set_bit_register :
    BitArray → GicDistributorMmio → ℕ → ℕ → ℕ → Option GicDistributorMmio
set_bit_register a d cpu index value =
    if index == 0
    then (do
      bank ← get_elem? d.banked cpu
      banked ← set_at d.banked cpu (set_banked_bits a bank value)
      some (record d { banked = banked }))
    else (do shared ← set_at (shared_bits a d) index value; some (set_shared_bits a d shared))

unfoldable pub word_register : WordArray → GicDistributorMmio → ℕ → ℕ → Option ℕ
word_register a d cpu index =
    if ltb index (banked_word_count a)
    then (do bank ← get_elem? d.banked cpu; get_elem? (banked_words a bank) index)
    else get_elem? (shared_words a d) index

unfoldable pub set_word_register :
    WordArray → GicDistributorMmio → ℕ → ℕ → ℕ → Option GicDistributorMmio
set_word_register a d cpu index value =
    if ltb index (banked_word_count a)
    then (do
      bank ← get_elem? d.banked cpu
      words ← set_at (banked_words a bank) index value
      banked ← set_at d.banked cpu (set_banked_words a bank words)
      some (record d { banked = banked }))
    else (do shared ← set_at (shared_words a d) index value; some (set_shared_words a d shared))

-- (register >> offset) & 1 for the INTID's register and place.
unfoldable pub get_bit : BitArray → GicDistributorMmio → ℕ → ℕ → Option ℕ
get_bit a d cpu int_id = do
  register ← bit_register a d cpu (int_id / 32)
  some (bit_and (shr register (int_id % 32)) 1)

unfoldable pub get_group : GicDistributorMmio → ℕ → ℕ → Option ℕ
unfolding get_bit
get_group d cpu int_id = get_bit group_bits d cpu int_id

unfoldable pub get_enable : GicDistributorMmio → ℕ → ℕ → Option Bool
unfolding get_bit
get_enable d cpu int_id = do b ← get_bit enable_bits d cpu int_id; some (not (b == 0))

unfoldable pub get_pending : GicDistributorMmio → ℕ → ℕ → Option Bool
unfolding get_bit
get_pending d cpu int_id = do b ← get_bit pending_bits d cpu int_id; some (not (b == 0))

unfoldable pub get_priority : GicDistributorMmio → ℕ → ℕ → Option ℕ
get_priority d cpu int_id = do
  register ← word_register priority_words d cpu (int_id / 4)
  some (bit_and (shr register (int_id % 4 * 8)) 0xFF)

-- *register |= 1 << offset, or *register &= !(1 << offset).
unfoldable pub change_status :
    BitArray → GicDistributorMmio → ℕ → ℕ → Bool → Option GicDistributorMmio
change_status a d cpu int_id on = do
  register ← bit_register a d cpu (int_id / 32)
  set_bit_register a d cpu (int_id / 32) (
      if on
      then bit_or register (2 ^ (int_id % 32))
      else bit_and register (complement 32 (2 ^ (int_id % 32))))

unfoldable pub change_pending_status_of :
    GicDistributorMmio → ℕ → ℕ → Bool → Option GicDistributorMmio
unfolding change_status
change_pending_status_of d cpu int_id is_pending =
    change_status pending_bits d cpu int_id is_pending

-- change_active_status, for the pCPU `cpu` that runs it.
unfoldable pub change_active_status : GicDistributorMmio → ℕ → ℕ → Bool → Option GicDistributorMmio
unfolding change_status
change_active_status d cpu int_id is_active = change_status active_bits d cpu int_id is_active
