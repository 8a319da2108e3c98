-- ===== src/GicDistributor/Trigger.antt =====
-- src/mmio/gicv2.rs, trigger_interrupt, trigger_interrupt_to, retrigger, inject_interrupt_handler and
-- inject_pending_for_current_cpu. `current_target` is what get_current_cpu_target returns on the pCPU
-- that runs the code.
use mini_visor_pi.Prelude.{
  ℕ, zero, suc, ◌+◌, ◌^◌, Bool, true, false, not, ◌||◌, Option, none, some, List, [], ◌∷◌, ◌++◌,
  bit_and, ltb, ◌==◌, if◌then◌else◌,
}
use mini_visor_pi.Prelude.Panics.{◌>>=◌}
use mini_visor_pi.VgicLr.{create_list_register_entry}
use mini_visor_pi.ListRegisters.{Gich, add_virtual_interrupt}
use mini_visor_pi.GicDistributor.{GicDistributorMmio, target_to_cpu_index, banked_int_id_count}
use mini_visor_pi.GicDistributor.Registers.{
  change_pending_status_of, get_enable, get_group, get_priority,
}

-- A VM's Distributor, the List Registers of the pCPU that runs the code, and the physical SGIs sent
-- by send_sgi, as (target, SGI id), oldest first.
pub record Platform : Type 0 where
  pub dist : GicDistributorMmio
  pub gich : Gich
  pub sent_sgis : List (ℕ × ℕ)

abbrev pub inject_interrupt_int_id : ℕ
inject_interrupt_int_id = 11

abbrev pub generic_timer_virtual_int_id : ℕ
generic_timer_virtual_int_id = 27

-- (self.ctlr & (GICD_CTLR_ENABLE_GRP0 | GICD_CTLR_ENABLE_GRP1)) != 0.
unfoldable pub distributor_enabled : GicDistributorMmio → Bool
distributor_enabled d = not (bit_and d.ctlr 3 == 0)

-- An enabled interrupt goes to the List Registers of this pCPU, or to the queue and an SGI.
unfoldable pub route : ℕ → ℕ → ℕ → Platform × Bool → Platform × Bool
route current_target target list_entry (p, injected) =
    if target == current_target
    then (let (done, gich) = add_virtual_interrupt p.gich list_entry in
        (record p { gich = gich }, injected || done))
    else (
      record p {
        dist = record p.dist {
          to_inject_interrupt = p.dist.to_inject_interrupt ++ ((target, list_entry) ∷ []);
        };
        sent_sgis = p.sent_sgis ++ ((target, inject_interrupt_int_id) ∷ []);
      },
      true,
    )

-- One round of the loop of trigger_interrupt_to, for a target that is in the mask.
unfoldable pub trigger_target : ℕ → ℕ → Option ℕ → ℕ → Platform × Bool → Option (Platform × Bool)
unfolding route
trigger_target current_target int_id physical_int_id target (p, injected) = do
  let cpu = target_to_cpu_index target
  d ← change_pending_status_of p.dist cpu int_id true
  let p' : Platform = record p { dist = d }
  is_enabled ← (if distributor_enabled d then get_enable d cpu int_id else some false)
  (if is_enabled
      then (do
        group ← get_group d cpu int_id
        priority ← get_priority d cpu int_id
        let list_entry = create_list_register_entry int_id group priority physical_int_id
        some (route current_target target list_entry (p', injected)))
      else some (p', injected))

-- `n` bits of the mask are left, from `bit` on.
unfoldable pub trigger_loop :
    ℕ → ℕ → ℕ → ℕ → Option ℕ → ℕ → Platform × Bool → Option (Platform × Bool)
unfolding trigger_target
trigger_loop zero bit current_target int_id physical_int_id targets s = some s
trigger_loop (suc n) bit current_target int_id physical_int_id targets s = do
  s' ←
      (if bit_and targets (2 ^ bit) == 0
        then some s
        else trigger_target current_target int_id physical_int_id (2 ^ bit) s)
  trigger_loop n (bit + 1) current_target int_id physical_int_id targets s'

unfoldable pub trigger_interrupt_to : ℕ → ℕ → Option ℕ → ℕ → Platform → Option (Platform × Bool)
unfolding trigger_loop
trigger_interrupt_to current_target int_id physical_int_id targets p =
    trigger_loop 8 0 current_target int_id physical_int_id targets (p, false)

unfoldable pub trigger_interrupt : ℕ → ℕ → Option ℕ → Platform → Option (Platform × Bool)
unfolding trigger_interrupt_to
trigger_interrupt current_target int_id physical_int_id p =
    trigger_interrupt_to current_target int_id physical_int_id p.dist.own_target p

unfoldable pub retrigger : ℕ → ℕ → Platform → Option (Platform × Bool)
unfolding trigger_interrupt_to
retrigger current_target int_id p =
    trigger_interrupt_to current_target int_id none
      (if ltb int_id banked_int_id_count then current_target else p.dist.own_target) p
