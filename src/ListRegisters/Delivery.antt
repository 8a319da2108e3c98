-- ===== src/ListRegisters/Delivery.antt =====
-- What an injection does to the List Registers.
use mini_visor_pi.Prelude.{
  ℕ, ◌+◌, ◌%◌, ◌^◌, ◌≤◌, ◌<◌, ◌≡◌, ◌≢◌, refl, ap, ◌∙◌, sym, Bool, true, false, Option, none, some,
  bit_or, arith, length, get_or-set_self, get_or-set_ne, ==-false, length-set,
}
use mini_visor_pi.Prelude.Bits.{
  bit, bit-zero, bit-bit_and, bit-set, bit_and_mask, mod-bit_or_above, shr-mod_two,
}
use mini_visor_pi.Prelude.Search.{first_index, Found, found, missing, first_index-Found}
use mini_visor_pi.VgicLr.{gich_lr_state_pending}
use mini_visor_pi.ListRegisters.{
  Gich, gich_lr_state, supported_lrn, get_gich_lr, set_gich_lr, is_inactive, virtual_id, holds,
  is_free, add_virtual_interrupt,
}

-- How an injection of `entry` ends: merged into the register that holds its INTID, put into the
-- first free register, or refused.
pub data Injection (g : Gich) (entry : ℕ) : Bool × Gich → Type 0 where
  merged :
      (i : ℕ)
      → i < supported_lrn g
      → holds g entry i ≡ true
      → Injection g entry (true, set_gich_lr g i (bit_or (get_gich_lr g i) gich_lr_state_pending))
  claimed :
      (i : ℕ)
      → i < supported_lrn g
      → is_free g i ≡ true
      → ((j : ℕ) → j < supported_lrn g → holds g entry j ≡ false)
      → Injection g entry (true, set_gich_lr g i entry)
  refused :
      ((j : ℕ) → j < supported_lrn g → holds g entry j ≡ false)
      → ((j : ℕ) → j < supported_lrn g → is_free g j ≡ false)
      → Injection g entry (false, record g { lr_overflow_count = g.lr_overflow_count + 1 })

second_pass :
    (g : Gich) (entry : ℕ)
    → ((j : ℕ) → j < supported_lrn g → holds g entry j ≡ false)
    → (r : Option ℕ) → Found (is_free g) 0 (supported_lrn g) r
    → Injection g entry (elim r [
      | some i ↦ (true, set_gich_lr g i entry)
      | none ↦ (false, record g { lr_overflow_count = g.lr_overflow_count + 1 })
    ])
second_pass g entry other (some i) (found _ _ lt free _) = claimed i lt free other
second_pass g entry other none (missing all) = refused other (λ j lt. all j (omega arith) lt)

first_pass :
    (g : Gich) (entry : ℕ) (r : Option ℕ)
    → Found (holds g entry) 0 (supported_lrn g) r
    → Injection g entry (elim r [
      | some i ↦ (true, set_gich_lr g i (bit_or (get_gich_lr g i) gich_lr_state_pending))
      | none ↦ elim (first_index (is_free g) (supported_lrn g)) [
        | some i ↦ (true, set_gich_lr g i entry)
        | none ↦ (false, record g { lr_overflow_count = g.lr_overflow_count + 1 })
      ]
    ])
first_pass g entry (some i) (found _ _ lt held _) = merged i lt held
first_pass g entry none (missing all) =
    second_pass g entry (λ j lt. all j (omega arith) lt) _
      (first_index-Found (is_free g) (supported_lrn g))

pub add_virtual_interrupt-Injection :
    (g : Gich) (entry : ℕ) → Injection g entry (add_virtual_interrupt g entry)
unfolding add_virtual_interrupt
add_virtual_interrupt-Injection g entry =
    first_pass g entry _ (first_index-Found (holds g entry) (supported_lrn g))

virtual_id-mod : (lr : ℕ) → virtual_id lr ≡ lr % 2 ^ 10
unfolding virtual_id
virtual_id-mod lr = bit_and_mask 10 lr

-- Setting the pending state keeps the INTID.
pub virtual_id-pend : (lr : ℕ) → virtual_id (bit_or lr gich_lr_state_pending) ≡ virtual_id lr
virtual_id-pend lr =
    virtual_id-mod (bit_or lr (2 ^ 28)) ∙ mod-bit_or_above 10 lr (2 ^ 18) ∙ sym (virtual_id-mod lr)

-- The register is in a pending state.
abbrev pub IsPending : ℕ → Type 0
IsPending lr = bit lr 28 ≡ 1

pub pend-IsPending : (lr : ℕ) → IsPending (bit_or lr gich_lr_state_pending)
pend-IsPending lr = bit-set lr 28 28

-- A pending register is not free.
pub is_inactive-IsPending : (lr : ℕ) → IsPending lr → is_inactive lr ≡ false
unfolding is_inactive
is_inactive-IsPending lr p = ==-false _ 0 (λ e. absurd (
    omega (
      arith,
      bit-bit_and lr gich_lr_state 28,
      sym (shr-mod_two gich_lr_state 28),
      ap (λ t. bit t 28) e,
      bit-zero 28,
    )))

-- What a delivery finds in the register that it writes, and puts there: the INTID of the entry, which
-- gets the pending state, or a register that is not in use, which gets the entry, and then no other
-- register has the INTID.
pub data Slot (g : Gich) (entry slot after : ℕ) : Type 0 where
  merges :
      is_inactive (get_gich_lr g slot) ≡ false
      → virtual_id (get_gich_lr g slot) ≡ virtual_id entry
      → after ≡ bit_or (get_gich_lr g slot) gich_lr_state_pending
      → Slot g entry slot after
  claims :
      is_inactive (get_gich_lr g slot) ≡ true
      → after ≡ entry
      → ((j : ℕ)
          → j < supported_lrn g
          → is_inactive (get_gich_lr g j) ≡ false
          → virtual_id (get_gich_lr g j) ≢ virtual_id entry)
      → Slot g entry slot after

-- One register of `after` is pending with the INTID of `entry`, and was free or had that INTID before;
-- the other registers, their number and the counter are as before.
pub record Delivered (g : Gich) (entry : ℕ) (after : Gich) : Type 0 where
  pub slot : ℕ
  pub in_range : slot < supported_lrn g
  pub found_in : Slot g entry slot (get_gich_lr after slot)
  pub pending : IsPending (get_gich_lr after slot)
  pub same_id : virtual_id (get_gich_lr after slot) ≡ virtual_id entry
  pub others : (j : ℕ) → slot ≢ j → get_gich_lr after j ≡ get_gich_lr g j
  pub same_count : after.lr_overflow_count ≡ g.lr_overflow_count
  pub same_length : length after.lrs ≡ length g.lrs
  pub same_regs : after.list_regs ≡ g.list_regs

-- Every register is in use, by another INTID.
abbrev pub IsOccupied : Gich → ℕ → Type 0
IsOccupied g entry =
    (j : ℕ)
    → j < supported_lrn g
    → (is_inactive (get_gich_lr g j) ≡ false) × (virtual_id (get_gich_lr g j) ≢ virtual_id entry)

abbrev pub Outcome : Gich → ℕ → Bool × Gich → Type 0
Outcome g entry (true, after) = Delivered g entry after
Outcome g entry (false, after) =
    (after ≡ record g { lr_overflow_count = g.lr_overflow_count + 1 }) × IsOccupied g entry

occupied :
    (g : Gich) (entry j : ℕ)
    → holds g entry j ≡ false
    → is_free g j ≡ false
    → (is_inactive (get_gich_lr g j) ≡ false) × (virtual_id (get_gich_lr g j) ≢ virtual_id entry)
unfolding holds is_free
occupied g entry j h f = ground arith

held_id :
    (g : Gich) (entry i : ℕ)
    → holds g entry i ≡ true
    → virtual_id (get_gich_lr g i) ≡ virtual_id entry
unfolding holds
held_id g entry i h = ground arith

held_in_use :
    (g : Gich) (entry i : ℕ) → holds g entry i ≡ true → is_inactive (get_gich_lr g i) ≡ false
unfolding holds
held_in_use g entry i h = ground arith

other_id :
    (g : Gich) (entry j : ℕ)
    → holds g entry j ≡ false
    → is_inactive (get_gich_lr g j) ≡ false
    → virtual_id (get_gich_lr g j) ≢ virtual_id entry
unfolding holds
other_id g entry j h u = ground arith

free_slot : (g : Gich) (i : ℕ) → is_free g i ≡ true → is_inactive (get_gich_lr g i) ≡ true
unfolding is_free
free_slot g i h = h

module _ (g : Gich) (entry : ℕ) (room : supported_lrn g ≤ length g.lrs) where
  set_gich_lr-Delivered :
      (i v : ℕ)
      → i < supported_lrn g
      → IsPending v
      → virtual_id v ≡ virtual_id entry
      → Slot g entry i v
      → Delivered g entry (set_gich_lr g i v)
  set_gich_lr-Delivered i v lt p e how =
      let self = get_or-set_self g.lrs i v 0 (omega arith) in
      record {
        slot = i;
        in_range = lt;
        found_in = let same = sym self in rw (← same) how;
        pending = ap (λ t. bit t 28) self ∙ p;
        same_id = ap virtual_id self ∙ e;
        others = λ j ne. get_or-set_ne g.lrs i j v 0 ne;
        same_count = refl;
        same_length = length-set g.lrs i v;
        same_regs = refl;
      }

  Outcome-of : {r : Bool × Gich} → IsPending entry → Injection g entry r → Outcome g entry r
  Outcome-of p (merged i lt held) =
      set_gich_lr-Delivered i _ lt (pend-IsPending (get_gich_lr g i))
        (virtual_id-pend (get_gich_lr g i) ∙ held_id g entry i held)
        (merges (held_in_use g entry i held) (held_id g entry i held) refl)
  Outcome-of p (claimed i lt free other) =
      set_gich_lr-Delivered i entry lt p refl
        (claims (free_slot g i free) refl (λ j hj u. other_id g entry j (other j hj) u))
  Outcome-of p (refused other full) = (refl, λ j lt. occupied g entry j (other j lt) (full j lt))

  -- With room for the supported registers and an entry in the pending state: on `true` one supported
  -- register is pending with the entry's INTID and nothing else changed; it was in use with that INTID
  -- before and keeps its other digits, or it was not in use, holds the entry, and no register in use
  -- had the INTID. On `false` every supported register is in use by another INTID, and only the
  -- overflow counter went up. So a full set of other INTIDs is always refused and never overwritten.
  pub add_virtual_interrupt-Outcome :
      IsPending entry → Outcome g entry (add_virtual_interrupt g entry)
  add_virtual_interrupt-Outcome p = Outcome-of p (add_virtual_interrupt-Injection g entry)
