-- ===== src/GicDistributor/Flags.antt =====
-- The bit that each pCPU sees for an INTID in the arrays of src/mmio/gicv2.rs, and what
-- change_pending_status_of and change_active_status do to it.
use mini_visor_pi.Prelude.{
  ℕ, ◌*◌, ◌/◌, ◌%◌, ◌^◌, ◌≤◌, ◌<◌, ◌≡◌, ◌≢◌, refl, ap, ◌∙◌, sym, ◌⊎◌, Bool, true, false, none, some,
  List, arith, inl, inr, ◌==◌, ==-false, if◌then◌else◌, bit_and, bit_or, not, ℕ_discrete,
}
use mini_visor_pi.Prelude.Bits.{bit, shr, complement, bit-set, bit-clear, bit_and-shr-one, bit-le}
use mini_visor_pi.GicDistributor.{
  GicDistributorMmio, BitArray, group_bits, enable_bits, pending_bits, active_bits,
}
use mini_visor_pi.GicDistributor.Registers.{
  get_bit, change_status, get_group, get_enable, get_pending, get_priority,
  change_pending_status_of, change_active_status,
}
use mini_visor_pi.GicDistributor.Validity.{
  IsValid, bits_at, put_bits, bit_register-some, set_bit_register-some, put_bits-IsValid,
  bits_at-put_bits, bits_at-put_other, priority_register-some, priority_register-none,
}
use mini_visor_pi.GicDistributor.Validity.Pending.{bits_at-put_pending}

-- The bit of `int_id` in the array `a`, as the pCPU with index `cpu` sees it.
unfoldable pub flag : BitArray → GicDistributorMmio → ℕ → ℕ → ℕ
flag a d cpu int_id = bit (bits_at a d cpu (int_id / 32)) (int_id % 32)

pub flag-le : (a : BitArray) (d : GicDistributorMmio) (cpu int_id : ℕ) → flag a d cpu int_id ≤ 1
unfolding flag
flag-le a d cpu int_id = bit-le (bits_at a d cpu (int_id / 32)) (int_id % 32)

abbrev changed_word : ℕ → ℕ → Bool → ℕ
changed_word r place on = if on then bit_or r (2 ^ place) else bit_and r (complement 32 (2 ^ place))

unfoldable pub set_flag : BitArray → GicDistributorMmio → ℕ → ℕ → Bool → GicDistributorMmio
set_flag a d cpu int_id on =
    put_bits a d cpu (int_id / 32) (changed_word (bits_at a d cpu (int_id / 32)) (int_id % 32) on)

pub set_flag-IsValid :
    (a : BitArray) (d : GicDistributorMmio) (cpu int_id : ℕ) (on : Bool)
    → IsValid d
    → IsValid (set_flag a d cpu int_id on)
unfolding set_flag
set_flag-IsValid a d cpu int_id on v = put_bits-IsValid a d cpu (int_id / 32) _ v

bit-changed_word :
    (r place i : ℕ) (on : Bool)
    → place < 32
    → i < 32
    → bit (changed_word r place on) i ≡ (if place == i then (if on then 1 else 0) else bit r i)
bit-changed_word r place i true hp hi = bit-set r place i
bit-changed_word r place i false hp hi = bit-clear 32 r place i hp hi

-- Another word of the SPI half does not depend on the pCPU.
bits_at-shared :
    (a : BitArray) (d : GicDistributorMmio) (cpu cpu' index : ℕ)
    → (index ≢ 0) ⊎ (cpu ≡ cpu')
    → bits_at a d cpu index ≡ bits_at a d cpu' index
unfolding bits_at
bits_at-shared a d cpu cpu' index (inl ne) = ground arith
bits_at-shared a d cpu cpu' index (inr e) = ap (λ c. bits_at a d c index) e

-- An SPI has one bit for all pCPUs.
pub flag-shared :
    (a : BitArray) (d : GicDistributorMmio) (cpu cpu' int_id : ℕ)
    → 32 ≤ int_id
    → flag a d cpu int_id ≡ flag a d cpu' int_id
unfolding flag
flag-shared a d cpu cpu' int_id h =
    ap (λ r. bit r (int_id % 32)) (bits_at-shared a d cpu cpu' (int_id / 32) (inl (omega arith)))

-- The queue has no part in the bits.
pub flag-with_queue :
    (a : BitArray) (d : GicDistributorMmio) (q : List (ℕ × ℕ)) (cpu int_id : ℕ)
    → flag a (record d { to_inject_interrupt = q }) cpu int_id ≡ flag a d cpu int_id
unfolding flag bits_at
flag-with_queue group_bits d q cpu int_id = refl
flag-with_queue enable_bits d q cpu int_id = refl
flag-with_queue pending_bits d q cpu int_id = refl
flag-with_queue active_bits d q cpu int_id = refl

module _ (a : BitArray) (d : GicDistributorMmio) (cpu int_id : ℕ) (v : IsValid d) (hc : cpu < 8)
    (hi : int_id < 1024) where
  pub get_bit-some : get_bit a d cpu int_id ≡ some (flag a d cpu int_id)
  unfolding get_bit flag
  get_bit-some =
      rw (bit_register-some a d cpu (int_id / 32) v hc (omega arith))
        (ap some (bit_and-shr-one (bits_at a d cpu (int_id / 32)) (int_id % 32)))

  pub change_status-some :
      (on : Bool) → change_status a d cpu int_id on ≡ some (set_flag a d cpu int_id on)
  unfolding change_status set_flag
  change_status-some on =
      rw (bit_register-some a d cpu (int_id / 32) v hc (omega arith))
        (set_bit_register-some a d cpu (int_id / 32) v hc (omega arith) _)

  pub flag-set_flag :
      (on : Bool) → flag a (set_flag a d cpu int_id on) cpu int_id ≡ (if on then 1 else 0)
  unfolding flag set_flag
  flag-set_flag on =
      ap (λ r. bit r (int_id % 32)) (bits_at-put_bits a d cpu (int_id / 32) _ v hc (omega arith))
      ∙ bit-changed_word (bits_at a d cpu (int_id / 32)) (int_id % 32) (int_id % 32) on
          (omega arith) (omega arith)
      ∙ ground arith

  -- A different bit of the register, for a pCPU that shares it.
  flag-same_register :
      (on : Bool) (cpu' id' : ℕ)
      → int_id / 32 ≡ id' / 32
      → int_id ≢ id'
      → (int_id / 32 ≢ 0) ⊎ (cpu ≡ cpu')
      → flag a (set_flag a d cpu int_id on) cpu' id' ≡ flag a d cpu' id'
  unfolding flag set_flag
  flag-same_register on cpu' id' e ne share =
      ap (λ i. bit (bits_at a after cpu' i) (id' % 32)) (sym e)
      ∙ ap (λ r. bit r (id' % 32))
          (sym (bits_at-shared a after cpu cpu' (int_id / 32) share)
            ∙ bits_at-put_bits a d cpu (int_id / 32) _ v hc (omega arith))
      ∙ bit-changed_word (bits_at a d cpu (int_id / 32)) (int_id % 32) (id' % 32) on (omega arith)
          (omega arith)
      ∙ ap
          (λ t. if t then (if on then 1 else 0) else bit (bits_at a d cpu (int_id / 32)) (id' % 32))
          (==-false (int_id % 32) (id' % 32) (λ p. ne (omega arith)))
      ∙ ap (λ r. bit r (id' % 32)) (bits_at-shared a d cpu cpu' (int_id / 32) share)
      ∙ ap (λ i. bit (bits_at a d cpu' i) (id' % 32)) e
    where
      after : GicDistributorMmio
      after = set_flag a d cpu int_id on

  -- Another INTID, or a banked INTID of another pCPU, keeps its bit.
  pub flag-set_flag_other :
      (on : Bool) (cpu' id' : ℕ)
      → (int_id ≢ id') ⊎ (int_id < 32) × (cpu ≢ cpu')
      → flag a (set_flag a d cpu int_id on) cpu' id' ≡ flag a d cpu' id'
  unfolding flag set_flag
  flag-set_flag_other on cpu' id' other = elim (ℕ_discrete (int_id / 32) (id' / 32)) [
    | no ne ↦
        ap (λ r. bit r (id' % 32))
          (bits_at-put_other a d cpu cpu' (int_id / 32) (id' / 32) _ (inl ne))
    | yes e ↦ elim (ℕ_discrete cpu cpu') [
      | yes c ↦
          flag-same_register on cpu' id' e (elim other [ inl ne ↦ ne | inr b ↦ absurd (b.1 c) ])
            (inr c)
      | no c ↦ elim (ℕ_discrete (int_id / 32) 0) [
        | yes z ↦
            ap (λ r. bit r (id' % 32))
              (bits_at-put_other a d cpu cpu' (int_id / 32) (id' / 32) _ (inr (z, c)))
        | no nz ↦
            flag-same_register on cpu' id' e
              (elim other [ inl ne ↦ ne | inr b ↦ absurd (nz (omega arith)) ]) (inl nz)
      ]
    ]
  ]

module _ (d : GicDistributorMmio) (cpu int_id : ℕ) (v : IsValid d) (hc : cpu < 8)
    (hi : int_id < 1024) where
  pub get_group-some : get_group d cpu int_id ≡ some (flag group_bits d cpu int_id)
  unfolding get_group
  get_group-some = get_bit-some group_bits d cpu int_id v hc hi

  pub get_enable-some : get_enable d cpu int_id ≡ some (not (flag enable_bits d cpu int_id == 0))
  unfolding get_enable
  get_enable-some = rw (get_bit-some enable_bits d cpu int_id v hc hi)

  pub get_pending-some : get_pending d cpu int_id ≡ some (not (flag pending_bits d cpu int_id == 0))
  unfolding get_pending
  get_pending-some = rw (get_bit-some pending_bits d cpu int_id v hc hi)

  pub change_pending_status_of-some :
      (on : Bool)
      → change_pending_status_of d cpu int_id on ≡ some (set_flag pending_bits d cpu int_id on)
  unfolding change_pending_status_of
  change_pending_status_of-some on = change_status-some pending_bits d cpu int_id v hc hi on

  pub change_active_status-some :
      (on : Bool)
      → change_active_status d cpu int_id on ≡ some (set_flag active_bits d cpu int_id on)
  unfolding change_active_status
  change_active_status-some on = change_status-some active_bits d cpu int_id v hc hi on

  pub get_priority-some : int_id < 1020 → (r : ℕ) × (get_priority d cpu int_id ≡ some r)
  unfolding get_priority
  get_priority-some small =
      let (r, e) = priority_register-some d cpu (int_id / 4) v hc (omega arith) in
      (bit_and (shr r (int_id % 4 * 8)) 0xFF, rw e)

  -- The priority array ends with INTID 1019.
  pub get_priority-none : 1020 ≤ int_id → get_priority d cpu int_id ≡ none
  unfolding get_priority
  get_priority-none large = rw (priority_register-none d cpu (int_id / 4) v hc (omega arith))

-- The other arrays do not see a change of a pending bit.
pub flag-set_pending :
    (a : BitArray) (d : GicDistributorMmio) (cpu int_id : ℕ) (on : Bool) (cpu' id' : ℕ)
    → a ≢ pending_bits
    → flag a (set_flag pending_bits d cpu int_id on) cpu' id' ≡ flag a d cpu' id'
unfolding flag set_flag
flag-set_pending a d cpu int_id on cpu' id' ne =
    ap (λ r. bit r (id' % 32)) (bits_at-put_pending a d cpu cpu' (int_id / 32) (id' / 32) _ ne)
