-- ===== src/ListRegisters/Waiting.antt =====
-- An interrupt that was injected stays pending through later injections.
use mini_visor_pi.Prelude.{
  ℕ, ◌≤◌, ◌<◌, ◌≡◌, ap, ◌∙◌, sym, Bool, true, false, length, length-set, arith, ℕ_discrete,
  get_or-set_self, get_or-set_ne, bit_or,
}
use mini_visor_pi.Prelude.Bits.{bit}
use mini_visor_pi.VgicLr.{gich_lr_state_pending}
use mini_visor_pi.ListRegisters.{
  Gich, supported_lrn, get_gich_lr, set_gich_lr, virtual_id, is_free, add_virtual_interrupt,
}
use mini_visor_pi.ListRegisters.Delivery.{
  Injection, merged, claimed, refused, IsPending, virtual_id-pend, pend-IsPending,
  is_inactive-IsPending, add_virtual_interrupt-Injection, Outcome, add_virtual_interrupt-Outcome,
}

-- Some register in use by the hypervisor holds the INTID, pending.
pub record Waiting (g : Gich) (id : ℕ) : Type 0 where
  pub slot : ℕ
  pub in_range : slot < supported_lrn g
  pub pending : IsPending (get_gich_lr g slot)
  pub has_id : virtual_id (get_gich_lr g slot) ≡ id

-- The registers that the hypervisor uses are there.
abbrev pub HasRoom : Gich → Type 0
HasRoom g = supported_lrn g ≤ length g.lrs

write-Waiting :
    (g : Gich) (id k v : ℕ)
    → HasRoom g
    → k < supported_lrn g
    → (IsPending (get_gich_lr g k) → IsPending v × (virtual_id v ≡ virtual_id (get_gich_lr g k)))
    → Waiting g id
    → Waiting (set_gich_lr g k v) id
write-Waiting g id k v room hk keeps w = elim (ℕ_discrete k w.slot) [
  | yes e ↦
      let was : IsPending (get_gich_lr g k) = ap (λ s. bit (get_gich_lr g s) 28) e ∙ w.pending in
      let self = get_or-set_self g.lrs k v 0 (omega arith) in
      record {
        slot = k;
        in_range = hk;
        pending = ap (λ t. bit t 28) self ∙ (keeps was).0;
        has_id =
            ap virtual_id self
            ∙ (keeps was).1
            ∙ ap (λ s. virtual_id (get_gich_lr g s)) e
            ∙ w.has_id;
      }
  | no ne ↦
      let same = get_or-set_ne g.lrs k w.slot v 0 ne in
      record {
        slot = w.slot;
        in_range = w.in_range;
        pending = ap (λ t. bit t 28) same ∙ w.pending;
        has_id = ap virtual_id same ∙ w.has_id;
      }
]

free_not-IsPending : (g : Gich) (k : ℕ) → is_free g k ≡ true → ¬ IsPending (get_gich_lr g k)
unfolding is_free
free_not-IsPending g k free p =
    let e : true ≡ false = sym free ∙ is_inactive-IsPending (get_gich_lr g k) p in cc

module _ (g : Gich) (entry id : ℕ) (room : HasRoom g) (w : Waiting g id) where
  Waiting-of : {r : Bool × Gich} → Injection g entry r → Waiting r.1 id
  Waiting-of (merged i lt held) =
      write-Waiting g id i _ room lt
        (λ p. (pend-IsPending (get_gich_lr g i), virtual_id-pend (get_gich_lr g i))) w
  Waiting-of (claimed i lt free other) =
      write-Waiting g id i entry room lt (λ p. absurd (free_not-IsPending g i free p)) w
  Waiting-of (refused other full) = record {
    slot = w.slot;
    in_range = w.in_range;
    pending = w.pending;
    has_id = w.has_id;
  }

  -- When the List Registers that the hypervisor uses are there, an INTID that waits pending in one of
  -- them still does after any injection.
  pub add_virtual_interrupt-Waiting : Waiting (add_virtual_interrupt g entry).1 id
  add_virtual_interrupt-Waiting = Waiting-of (add_virtual_interrupt-Injection g entry)

room_of : (g : Gich) (entry : ℕ) {r : Bool × Gich} → HasRoom g → Injection g entry r → HasRoom r.1
room_of g entry room (merged i lt held) =
    omega (arith, length-set g.lrs i (bit_or (get_gich_lr g i) gich_lr_state_pending))
room_of g entry room (claimed i lt free other) = omega (arith, length-set g.lrs i entry)
room_of g entry room (refused other full) = room

pub add_virtual_interrupt-HasRoom :
    (g : Gich) (entry : ℕ) → HasRoom g → HasRoom (add_virtual_interrupt g entry).1
add_virtual_interrupt-HasRoom g entry room =
    room_of g entry room (add_virtual_interrupt-Injection g entry)

delivered-Waiting :
    (g : Gich) (entry : ℕ) (r : Bool × Gich)
    → r.0 ≡ true
    → Outcome g entry r
    → Waiting r.1 (virtual_id entry)
delivered-Waiting g entry (true, after) e o = record {
  slot = o.slot;
  in_range = omega (arith, o.in_range, o.same_regs);
  pending = o.pending;
  has_id = o.same_id;
}
delivered-Waiting g entry (false, after) e o = cc

pub injected-Waiting :
    (g : Gich) (entry : ℕ)
    → HasRoom g
    → IsPending entry
    → (add_virtual_interrupt g entry).0 ≡ true
    → Waiting (add_virtual_interrupt g entry).1 (virtual_id entry)
injected-Waiting g entry room p e =
    delivered-Waiting g entry _ e (add_virtual_interrupt-Outcome g entry room p)
