-- ===== src/Vgic.antt =====
-- src/vgic.rs, maintenance_interrupt_handler: the guest's end-of-interrupts free List Registers, and
-- the injections that found none are tried again.
pub mod Ended
use mini_visor_pi.Prelude.{
  ℕ, zero, suc, ◌+◌, ◌/◌, false, Option, some, bit_and, ◌==◌, if◌then◌else◌,
}
use mini_visor_pi.Prelude.Panics.{◌>>=◌}
use mini_visor_pi.VgicLr.{gich_lr_virtual_id}
use mini_visor_pi.ListRegisters.{supported_lrn, get_gich_lr, set_gich_lr}
use mini_visor_pi.GicDistributor.{target_to_cpu_index}
use mini_visor_pi.GicDistributor.Registers.{change_pending_status_of, change_active_status}
use mini_visor_pi.GicDistributor.Trigger.{Platform}
use mini_visor_pi.GicDistributor.Inject.{inject_interrupt_handler, inject_pending_for_current_cpu}

-- The body of the loop for a register whose interrupt the guest has ended.
unfoldable pub end_interrupt : ℕ → ℕ → Platform → Option Platform
end_interrupt cpu i p = do
  let int_id = bit_and (get_gich_lr p.gich i) gich_lr_virtual_id
  d ← change_pending_status_of p.dist cpu int_id false
  d' ← change_active_status d cpu int_id false
  some (record p { dist = d'; gich = set_gich_lr p.gich i 0 })

-- `n` registers are left, from `i` on.
unfoldable pub end_interrupts : ℕ → ℕ → ℕ → ℕ → Platform → Option Platform
unfolding end_interrupt
end_interrupts zero i cpu eoi_bits p = some p
end_interrupts (suc n) i cpu eoi_bits p = do
  p' ← (if bit_and eoi_bits 1 == 0 then some p else end_interrupt cpu i p)
  end_interrupts n (i + 1) cpu (eoi_bits / 2) p'

unfoldable pub maintenance_interrupt_handler : ℕ → Platform → Option Platform
unfolding end_interrupts inject_interrupt_handler inject_pending_for_current_cpu
maintenance_interrupt_handler current_target p = do
  p' ← end_interrupts (supported_lrn p.gich) 0 (target_to_cpu_index current_target) p.gich.eisr p
  inject_pending_for_current_cpu current_target (inject_interrupt_handler current_target p')
