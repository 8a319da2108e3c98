-- ===== src/GicDistributor/Panic.antt =====
-- The INTIDs 1020 to 1023 have bits in the arrays of src/mmio/gicv2.rs, and no priority: an enabled one
-- that is triggered indexes the priority array out of range.
use mini_visor_pi.Prelude.{
  ℕ, zero, suc, ◌+◌, ◌/◌, ◌^◌, ◌≤◌, ◌<◌, ◌≡◌, ◌≢◌, ap, ◌∙◌, sym, Bool, true, false, not, Option,
  none, arith, inl, inr, ◌==◌, ==_iff, Bool-cases, bit_and, ℕ_discrete,
}
use mini_visor_pi.GicDistributor.{
  GicDistributorMmio, enable_bits, pending_bits, target_to_cpu_index,
}
use mini_visor_pi.GicDistributor.Trigger.{
  Platform, distributor_enabled, trigger_target, trigger_loop, trigger_interrupt_to,
}
use mini_visor_pi.GicDistributor.Validity.{IsValid, target_to_cpu_index-lt}
use mini_visor_pi.GicDistributor.Validity.Pending.{put_pending-SameRest}
use mini_visor_pi.GicDistributor.Flags.{
  flag, set_flag, set_flag-IsValid, change_pending_status_of-some, get_enable-some, get_group-some,
  get_priority-none, flag-set_pending, flag-shared,
}

distributor_enabled-set_flag :
    (d : GicDistributorMmio) (cpu int_id : ℕ)
    → distributor_enabled (set_flag pending_bits d cpu int_id true) ≡ distributor_enabled d
unfolding distributor_enabled set_flag
distributor_enabled-set_flag d cpu int_id =
    ap (λ t. not (bit_and t 3 == 0)) (put_pending-SameRest d cpu (int_id / 32) _).0.same_ctlr

module _ (current_target int_id : ℕ) (physical : Option ℕ) (lo : 1020 ≤ int_id) (hi : int_id < 1024)
    (p : Platform) (v : IsValid p.dist) (on : distributor_enabled p.dist ≡ true)
    (open' : flag enable_bits p.dist 0 int_id ≡ 1) where
  trigger_target-panics :
      (target : ℕ) (b : Bool) → trigger_target current_target int_id physical target (p, b) ≡ none
  unfolding trigger_target
  trigger_target-panics target b = rw (
    change_pending_status_of-some p.dist cpu int_id v hc hi true,
    distributor_enabled-set_flag p.dist cpu int_id ∙ on,
    get_enable-some d cpu int_id vd hc hi,
    stays,
    get_group-some d cpu int_id vd hc hi,
    get_priority-none d cpu int_id vd hc hi lo,
  )
    where
      cpu : ℕ
      cpu = target_to_cpu_index target

      hc : cpu < 8
      hc = target_to_cpu_index-lt target

      d : GicDistributorMmio
      d = set_flag pending_bits p.dist cpu int_id true

      vd : IsValid d
      vd = set_flag-IsValid pending_bits p.dist cpu int_id true v

      stays : flag enable_bits d cpu int_id ≡ 1
      stays =
          flag-set_pending enable_bits p.dist cpu int_id true cpu int_id (λ e. cc)
          ∙ flag-shared enable_bits p.dist cpu 0 int_id (omega arith)
          ∙ open'

  trigger_loop-panics :
      (n bit targets c : ℕ) (b : Bool)
      → bit ≤ c
      → c < bit + n
      → bit_and targets (2 ^ c) ≢ 0
      → trigger_loop n bit current_target int_id physical targets (p, b) ≡ none
  unfolding trigger_loop
  trigger_loop-panics zero bit targets c b lo' hi' on' = absurd (omega arith)
  trigger_loop-panics (suc n) bit targets c b lo' hi' on' =
      elim (Bool-cases (bit_and targets (2 ^ bit) == 0)) [
        | inr take ↦ rw (take, trigger_target-panics (2 ^ bit) b)
        | inl skip ↦ elim (ℕ_discrete bit c) [
          | yes same ↦
              absurd (on' (ap (λ t. bit_and targets (2 ^ t)) (sym same) ∙ (==_iff _ _).0 skip))
          | no ne ↦
              rw skip (trigger_loop-panics n (bit + 1) targets c b (omega arith) (omega arith) on')
        ]
      ]

  -- In a well-formed Distributor that is enabled, triggering an enabled INTID from 1020 to 1023 for a
  -- mask with any of the eight pCPUs panics.
  pub trigger_interrupt_to-panics :
      (targets c : ℕ)
      → c < 8
      → bit_and targets (2 ^ c) ≢ 0
      → trigger_interrupt_to current_target int_id physical targets p ≡ none
  unfolding trigger_interrupt_to
  trigger_interrupt_to-panics targets c hc chosen =
      trigger_loop-panics 8 0 targets c false (omega arith) (omega arith) chosen
