-- ===== src/ListRegisters/Distinct.antt =====
-- No INTID ever stands in two List Registers that are in use.
use mini_visor_pi.Prelude.{
  ℕ, ◌≤◌, ◌<◌, ◌≡◌, ap, ◌∙◌, sym, Bool, true, false, length, arith, get_or-set_self, get_or-set_ne,
  ==-true, ◌≢◌, ℕ_discrete,
}
use mini_visor_pi.ListRegisters.{
  Gich, supported_lrn, get_gich_lr, set_gich_lr, is_inactive, virtual_id, holds,
  add_virtual_interrupt,
}
use mini_visor_pi.ListRegisters.Delivery.{
  Injection, merged, claimed, refused, add_virtual_interrupt-Injection, virtual_id-pend,
}

abbrev pub InUse : Gich → ℕ → Type 0
InUse g i = is_inactive (get_gich_lr g i) ≡ false

abbrev pub IsDistinct : Gich → Type 0
IsDistinct g =
    (i j : ℕ)
    → i < supported_lrn g
    → j < supported_lrn g
    → InUse g i
    → InUse g j
    → virtual_id (get_gich_lr g i) ≡ virtual_id (get_gich_lr g j)
    → i ≡ j

-- Writing one register keeps the rule if no other register in use holds the new INTID.
write-IsDistinct :
    (g : Gich) (k v : ℕ)
    → k < length g.lrs
    → ((j : ℕ)
        → j < supported_lrn g
        → InUse g j
        → virtual_id (get_gich_lr g j) ≡ virtual_id v
        → k ≡ j)
    → IsDistinct g
    → IsDistinct (set_gich_lr g k v)
write-IsDistinct g k v room alone d i j li lj ui uj e = elim (ℕ_discrete k i) [
  | yes ki ↦ elim (ℕ_discrete k j) [
    | yes kj ↦ sym ki ∙ kj
    | no kj ↦
        sym ki
        ∙ alone j lj (kept j kj uj) (
            ap virtual_id (sym (other j kj))
            ∙ sym e
            ∙ ap (λ t. virtual_id (get_gich_lr after t)) (sym ki)
            ∙ ap virtual_id self)
  ]
  | no ki ↦ elim (ℕ_discrete k j) [
    | yes kj ↦
        sym (
          alone i li (kept i ki ui) (
            ap virtual_id (sym (other i ki))
            ∙ e
            ∙ ap (λ t. virtual_id (get_gich_lr after t)) (sym kj)
            ∙ ap virtual_id self))
        ∙ kj
    | no kj ↦
        d i j li lj (kept i ki ui) (kept j kj uj)
          (ap virtual_id (sym (other i ki)) ∙ e ∙ ap virtual_id (other j kj))
  ]
]
  where
    after : Gich
    after = set_gich_lr g k v

    self : get_gich_lr after k ≡ v
    self = get_or-set_self g.lrs k v 0 room

    other : (j : ℕ) → k ≢ j → get_gich_lr after j ≡ get_gich_lr g j
    other j ne = get_or-set_ne g.lrs k j v 0 ne

    kept : (j : ℕ) → k ≢ j → InUse after j → InUse g j
    kept j ne u = ap is_inactive (sym (other j ne)) ∙ u

held :
    (g : Gich) (entry i : ℕ)
    → holds g entry i ≡ true
    → (InUse g i) × (virtual_id (get_gich_lr g i) ≡ virtual_id entry)
unfolding holds
held g entry i h = ground arith

not_held :
    (g : Gich) (entry i : ℕ)
    → holds g entry i ≡ false
    → InUse g i
    → virtual_id (get_gich_lr g i) ≢ virtual_id entry
unfolding holds
not_held g entry i h u e = ground (arith, ==-true _ _ e)

module _ (g : Gich) (entry : ℕ) (room : supported_lrn g ≤ length g.lrs) (d : IsDistinct g) where
  IsDistinct-of : {r : Bool × Gich} → Injection g entry r → IsDistinct r.1
  IsDistinct-of (merged i lt h) =
      write-IsDistinct g i _ (omega arith)
        (λ j lj u e.
          d i j lt lj (held g entry i h).0 u (sym (e ∙ virtual_id-pend (get_gich_lr g i))))
        d
  IsDistinct-of (claimed i lt free other) =
      write-IsDistinct g i entry (omega arith)
        (λ j lj u e. absurd (not_held g entry j (other j lj) u e)) d
  IsDistinct-of (refused other full) = d

  -- When the List Registers that the hypervisor uses are there and no INTID is in two that are in use,
  -- the same holds after an injection.
  pub add_virtual_interrupt-IsDistinct : IsDistinct (add_virtual_interrupt g entry).1
  add_virtual_interrupt-IsDistinct = IsDistinct-of (add_virtual_interrupt-Injection g entry)
