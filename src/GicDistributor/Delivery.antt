-- ===== src/GicDistributor/Delivery.antt =====
-- What trigger_interrupt_to of src/mmio/gicv2.rs does to the Distributor, the queue and the SGIs.
use mini_visor_pi.Prelude.{
  ℕ, zero, suc, ◌+◌, ◌^◌, ◌≤◌, ◌<◌, ◌≡◌, ◌≢◌, refl, ap, ◌∙◌, sym, ◌⊎◌, Bool, true, false, not,
  Option, some, arith, inl, inr, ◌==◌, Bool-cases, bit_and, ℕ_discrete, ==_iff, ==→≢,
}
use mini_visor_pi.VgicLr.{create_list_register_entry}
use mini_visor_pi.GicDistributor.{
  GicDistributorMmio, group_bits, enable_bits, pending_bits, target_to_cpu_index,
}
use mini_visor_pi.GicDistributor.Registers.{get_enable, change_pending_status_of}
use mini_visor_pi.GicDistributor.Trigger.{
  Platform, distributor_enabled, route, trigger_target, trigger_loop, trigger_interrupt_to,
}
use mini_visor_pi.GicDistributor.Validity.{IsValid, target_to_cpu_index-lt}
use mini_visor_pi.GicDistributor.Raised.{
  Queued, Raised, Raised-none, Raised-trans, Raised-set_flag, Raised-route,
}
use mini_visor_pi.GicDistributor.Flags.{
  flag, set_flag, set_flag-IsValid, change_pending_status_of-some, get_enable-some, get_group-some,
  get_priority-some,
}

abbrev raised : Platform → ℕ → ℕ → Platform
raised p target int_id = record p {
  dist = set_flag pending_bits p.dist (target_to_cpu_index target) int_id true;
}

module _ (current_target int_id target : ℕ) (physical : Option ℕ) (p : Platform) (b : Bool)
    (v : IsValid p.dist) where
  -- A targeted round raises the pending bit, and routes an entry if the interrupt is enabled.
  trigger_target_cases :
      int_id < 1020
      → (trigger_target current_target int_id physical target (p, b)
          ≡ some (raised p target int_id, b))
        ⊎ (group priority : ℕ) × (trigger_target current_target int_id physical target (p, b)
            ≡ some (
                route current_target target
                  (create_list_register_entry int_id group priority physical)
                  (raised p target int_id, b)))
  unfolding trigger_target
  trigger_target_cases hi = elim (Bool-cases (distributor_enabled d)) [
    | inr off ↦ inl (rw (changed, off))
    | inl on ↦ elim (Bool-cases (flag enable_bits d cpu int_id == 0)) [
      | inl masked ↦ inl (rw (changed, on, enabled, masked))
      | inr open' ↦
          let (priority, e) = get_priority-some d cpu int_id vd hc (omega arith) hi in
          inr (
            flag group_bits d cpu int_id,
            priority,
            rw (changed, on, enabled, open', get_group-some d cpu int_id vd hc (omega arith), e),
          )
    ]
  ]
    where
      cpu : ℕ
      cpu = target_to_cpu_index target

      hc : cpu < 8
      hc = target_to_cpu_index-lt target

      d : GicDistributorMmio
      d = set_flag pending_bits p.dist cpu int_id true

      vd : IsValid d
      vd = set_flag-IsValid pending_bits p.dist cpu int_id true v

      changed : change_pending_status_of p.dist cpu int_id true ≡ some d
      changed = change_pending_status_of-some p.dist cpu int_id v hc (omega arith) true

      enabled : get_enable d cpu int_id ≡ some (not (flag enable_bits d cpu int_id == 0))
      enabled = get_enable-some d cpu int_id vd hc (omega arith)

-- The index of the pCPU with the single target bit `n`.
pub target_to_cpu_index-two_pow : (n : ℕ) → n < 8 → target_to_cpu_index (2 ^ n) ≡ n
unfolding target_to_cpu_index
target_to_cpu_index-two_pow zero h = refl
target_to_cpu_index-two_pow (suc zero) h = refl
target_to_cpu_index-two_pow (suc (suc zero)) h = refl
target_to_cpu_index-two_pow (suc (suc (suc zero))) h = refl
target_to_cpu_index-two_pow (suc (suc (suc (suc zero)))) h = refl
target_to_cpu_index-two_pow (suc (suc (suc (suc (suc zero))))) h = refl
target_to_cpu_index-two_pow (suc (suc (suc (suc (suc (suc zero)))))) h = refl
target_to_cpu_index-two_pow (suc (suc (suc (suc (suc (suc (suc zero))))))) h = refl
target_to_cpu_index-two_pow (suc (suc (suc (suc (suc (suc (suc (suc n)))))))) h =
    absurd (omega arith)

module _ (current_target int_id : ℕ) (physical : Option ℕ) (targets : ℕ) (hi : int_id < 1020) where
  abbrev Queues : ℕ × ℕ → Type 0
  Queues = Queued current_target int_id physical targets

  trigger_target-Raised :
      (c : ℕ) (p : Platform) (b : Bool)
      → c < 8
      → bit_and targets (2 ^ c) ≢ 0
      → IsValid p.dist
      → (r : Platform × Bool) × (trigger_target current_target int_id physical (2 ^ c) (p, b)
          ≡ some r)
        × Raised int_id Queues (λ c'. c ≡ c') p b r.0 r.1
  trigger_target-Raised c p b hc chosen v =
      elim (trigger_target_cases current_target int_id (2 ^ c) physical p b v hi) [
        | inl masked ↦ ((raised p (2 ^ c) int_id, b), masked, first)
        | inr (group, priority, routed) ↦
            let e = create_list_register_entry int_id group priority physical in
            (
              route current_target (2 ^ c) e (raised p (2 ^ c) int_id, b),
              routed,
              Raised-trans int_id Queues _ (λ c'. ⊥) _ p (raised p (2 ^ c) int_id) _ b b _
                  (λ c' hc' h. inl h)
                  (λ c' hc' h. elim h [ inl one ↦ one | inr other ↦ absurd other ]) first
                  (Raised-route int_id Queues current_target (raised p (2 ^ c) int_id) b (2 ^ c) e
                    first.valid
                    (λ ne. record {
                      elsewhere = ne;
                      cpu = c;
                      cpu_small = hc;
                      in_mask = chosen;
                      target = refl;
                      group = group;
                      priority = priority;
                      list_entry = refl;
                    })),
            )
      ]
    where
      first : Raised int_id Queues (λ c'. c ≡ c') p b (raised p (2 ^ c) int_id) b
      first =
          let e = target_to_cpu_index-two_pow c hc in
          rw e (Raised-set_flag int_id Queues p b c v hc (omega arith))

  -- The pCPUs of the mask from place `bit` on.
  abbrev Chosen : ℕ → ℕ → Type 0
  Chosen bit c = (bit ≤ c) × (bit_and targets (2 ^ c) ≢ 0)

  trigger_loop-Raised :
      (n bit : ℕ) (p : Platform) (b : Bool)
      → bit + n ≡ 8
      → IsValid p.dist
      → (r : Platform × Bool) × (trigger_loop n bit current_target int_id physical targets (p, b)
          ≡ some r)
        × Raised int_id Queues (Chosen bit) p b r.0 r.1
  unfolding trigger_loop
  trigger_loop-Raised zero bit p b e v =
      ((p, b), refl, Raised-none int_id Queues _ p b v (λ c hc h. absurd (omega arith)))
  trigger_loop-Raised (suc n) bit p b e v = elim (Bool-cases (bit_and targets (2 ^ bit) == 0)) [
    | inl skip ↦
        let (r, run, rel) = trigger_loop-Raised n (bit + 1) p b (omega arith) v in
        (
          r,
          rw skip run,
          Raised-trans int_id Queues (λ c. ⊥) _ _ p p r.0 b b r.1 (later skip)
              (λ c hc h. elim h [
                | inl none_hit ↦ absurd none_hit
                | inr (lo, on) ↦ (omega arith, on)
              ])
              (Raised-none int_id Queues _ p b v (λ c hc h. h)) rel,
        )
    | inr take ↦
        let on = ==→≢ _ _ take in
        let (q, step, one) = trigger_target-Raised bit p b (omega arith) on v in
        let (r, run, rel) = trigger_loop-Raised n (bit + 1) q.0 q.1 (omega arith) one.valid in
        (
          r,
          rw (take, step) run,
          Raised-trans int_id Queues _ _ _ p q.0 r.0 b q.1 r.1 here
              (λ c hc h. elim h [
                | inl e' ↦ (omega arith, λ z. on (ap (λ t. bit_and targets (2 ^ t)) e' ∙ z))
                | inr (lo, on') ↦ (omega arith, on')
              ])
              one rel,
        )
  ]
    where
      later :
          bit_and targets (2 ^ bit) == 0 ≡ true
          → (c : ℕ) → c < 8
          → Chosen bit c
          → ⊥ ⊎ Chosen (bit + 1) c
      later skip c hc (lo, on) = elim (ℕ_discrete bit c) [
        | yes same ↦
            absurd (on (ap (λ t. bit_and targets (2 ^ t)) (sym same) ∙ (==_iff _ _).0 skip))
        | no ne ↦ inr (omega arith, on)
      ]

      here : (c : ℕ) → c < 8 → Chosen bit c → (bit ≡ c) ⊎ Chosen (bit + 1) c
      here c hc (lo, on) = elim (ℕ_discrete bit c) [
        | yes same ↦ inl same
        | no ne ↦ inr (omega arith, on)
      ]

  -- In a well-formed Distributor and for an INTID below 1020 no array index is out of range: the call
  -- returns, and afterwards the INTID is pending for every pCPU of the mask. For a pCPU outside the
  -- mask its pending bit is as before if it is banked (INTID below 32); one that all pCPUs share is as
  -- before if the mask has none of the eight. No other pending bit and no other setting changed. Each
  -- entry that was queued has the target bit of another pCPU of the mask and is a List Register entry
  -- for the INTID with its physical INTID, and went with one SGI to that pCPU, in order.
  pub trigger_interrupt_to-Raised :
      (p : Platform)
      → IsValid p.dist
      → (r : Platform × Bool) × (trigger_interrupt_to current_target int_id physical targets p
          ≡ some r)
        × Raised int_id Queues (λ c. bit_and targets (2 ^ c) ≢ 0) p false r.0 r.1
  unfolding trigger_interrupt_to
  trigger_interrupt_to-Raised p v =
      let (r, run, rel) = trigger_loop-Raised 8 0 p false (omega arith) v in
      (
        r,
        run,
        Raised-trans int_id Queues _ (λ c. ⊥) _ p r.0 r.0 false r.1 r.1
            (λ c hc h. inl (omega arith, h))
            (λ c hc h. elim h [ inl chosen ↦ chosen.1 | inr none_hit ↦ absurd none_hit ]) rel
            (Raised-none int_id Queues _ r.0 r.1 rel.valid (λ c hc h. h)),
      )
