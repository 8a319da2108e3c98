-- ===== src/Tests/Gic.antt =====
-- src/vgic_lr.rs, src/vgic.rs and src/mmio/gicv2.rs at concrete inputs.
use mini_visor_pi.Prelude.{
  ℕ, ◌+◌, ◌/◌, ◌%◌, ◌^◌, ◌<◌, ◌≡◌, ◌≢◌, refl, inl, Bool, false, none, some, [], ◌∷◌, arith, bit_and,
  replicate, set,
}
use mini_visor_pi.Prelude.Bits.{bit-two_pow}
use mini_visor_pi.VgicLr.{create_list_register_entry}
use mini_visor_pi.VgicLr.Fields.{create_list_register_entry_fields, lr_state, Backed}
use mini_visor_pi.ListRegisters.{Gich, add_virtual_interrupt, virtual_id}
use mini_visor_pi.ListRegisters.Delivery.{Outcome, add_virtual_interrupt-Outcome}
use mini_visor_pi.ListRegisters.Distinct.{IsDistinct, add_virtual_interrupt-IsDistinct}
use mini_visor_pi.ListRegisters.Waiting.{Waiting, add_virtual_interrupt-Waiting}
use mini_visor_pi.GicDistributor.{enable_bits, new, target_to_cpu_index}
use mini_visor_pi.GicDistributor.Validity.{IsValid, new-IsValid, bank, bits_at}
use mini_visor_pi.GicDistributor.Validity.Pending.{without_pending}
use mini_visor_pi.GicDistributor.Flags.{flag}
use mini_visor_pi.GicDistributor.Trigger.{Platform, trigger_interrupt_to, distributor_enabled}
use mini_visor_pi.GicDistributor.Inject.{inject_interrupt_handler}
use mini_visor_pi.GicDistributor.Mmio.{write}
use mini_visor_pi.GicDistributor.Raised.{Queued, Raised}
use mini_visor_pi.GicDistributor.Delivery.{trigger_interrupt_to-Raised}
use mini_visor_pi.GicDistributor.Panic.{trigger_interrupt_to-panics}
use mini_visor_pi.GicDistributor.Writes.{write-Runs}
use mini_visor_pi.Vgic.{end_interrupts}
use mini_visor_pi.Vgic.Ended.{Ended, end_interrupts-Ended}
use mini_visor_pi.GicDistributor.NoLoss.{NoLoss, inject_interrupt_handler-NoLoss}

create_list_register_entry_fields_example :
    let e = create_list_register_entry 27 1 160 none in
    (e < 2 ^ 32)
    × (e % 1024 ≡ 27 % 1024)
    × (lr_state e ≡ 1)
    × (e / 2 ^ 23 % 32 ≡ 160 / 8 % 32)
    × (e / 2 ^ 30 % 2 ≡ 1)
    × Backed e none
create_list_register_entry_fields_example =
    create_list_register_entry_fields 27 1 160 none (omega arith)

-- Four List Registers, the first of which holds SGI 0, pending.
abbrev one_pending : Gich
one_pending = record {
  list_regs = 4;
  eisr = 0;
  lrs = set (replicate 4 0) 0 (2 ^ 28);
  lr_overflow_count = 0;
}

add_virtual_interrupt-Outcome_example :
    Outcome one_pending (2 ^ 28) (add_virtual_interrupt one_pending (2 ^ 28))
add_virtual_interrupt-Outcome_example =
    add_virtual_interrupt-Outcome one_pending (2 ^ 28) (omega arith) (bit-two_pow 28 28)

-- A single List Register.
abbrev single : Gich
single = record { list_regs = 1; eisr = 0; lrs = 2 ^ 28 ∷ []; lr_overflow_count = 0 }

single-IsDistinct : IsDistinct single
single-IsDistinct i j hi hj ui uj e = omega arith

add_virtual_interrupt-IsDistinct_example : IsDistinct (add_virtual_interrupt single (2 ^ 28 + 5)).1
add_virtual_interrupt-IsDistinct_example =
    add_virtual_interrupt-IsDistinct single (2 ^ 28 + 5) (omega arith) single-IsDistinct

sgi_waits : Waiting one_pending (virtual_id (2 ^ 28))
sgi_waits = record { slot = 0; in_range = omega arith; pending = bit-two_pow 28 28; has_id = refl }

add_virtual_interrupt-Waiting_example :
    Waiting (add_virtual_interrupt one_pending (2 ^ 28 + 5)).1 (virtual_id (2 ^ 28))
add_virtual_interrupt-Waiting_example =
    add_virtual_interrupt-Waiting one_pending (2 ^ 28 + 5) (virtual_id (2 ^ 28)) (omega arith)
      sgi_waits

-- A new Distributor of pCPU 0.
abbrev pub fresh : Platform
fresh = record { dist = new 1; gich = one_pending; sent_sgis = [] }

trigger_interrupt_to-Raised_example :
    (r : Platform × Bool) × (trigger_interrupt_to 1 33 none 3 fresh ≡ some r)
    × Raised 33 (Queued 1 33 none 3) (λ c. bit_and 3 (2 ^ c) ≢ 0) fresh false r.0 r.1
trigger_interrupt_to-Raised_example =
    trigger_interrupt_to-Raised 1 33 none 3 (omega arith) fresh (new-IsValid 1)

-- The Distributor enabled, and INTID 1020.
abbrev special : Platform
special = record {
  dist = record (new 1) { ctlr = 1; enable = set (replicate 32 0) 31 (2 ^ 28) };
  gich = one_pending;
  sent_sgis = [];
}

special-IsValid : IsValid special.dist
unfolding new
special-IsValid = omega arith

special-enabled : flag enable_bits special.dist 0 1020 ≡ 1
unfolding flag bits_at new
special-enabled = bit-two_pow 28 28

trigger_interrupt_to-panics_example : trigger_interrupt_to 1 1020 none 1 special ≡ none
unfolding distributor_enabled new
trigger_interrupt_to-panics_example =
    trigger_interrupt_to-panics 1 1020 none (omega arith) (omega arith) special special-IsValid refl
      special-enabled 1 0 (omega arith) (omega arith)

write-Runs_example :
    (p' : Platform) × (write 1 fresh 0x104 32 6 ≡ some p')
    × IsValid p'.dist
    × ((c : ℕ)
        → target_to_cpu_index 1 ≢ c
        → without_pending (bank p'.dist c) ≡ without_pending (bank fresh.dist c))
write-Runs_example = write-Runs 1 0x104 32 6 fresh (omega arith) (inl (omega arith)) (new-IsValid 1)

-- Two entries are queued, one of them for another pCPU.
abbrev queued : Platform
queued = record {
  dist = record (new 1) { to_inject_interrupt = (1, 2 ^ 28) ∷ (2, 2 ^ 28) ∷ [] };
  gich = one_pending;
  sent_sgis = [];
}

inject_interrupt_handler-NoLoss_example : NoLoss 1 queued (inject_interrupt_handler 1 queued)
inject_interrupt_handler-NoLoss_example =
    inject_interrupt_handler-NoLoss 1 queued (omega arith)
      (bit-two_pow 28 28, (bit-two_pow 28 28, tt))

-- The guest has ended the interrupt of the first List Register.
end_interrupts-Ended_example :
    (r : Platform) × (end_interrupts 4 0 0 1 fresh ≡ some r) × Ended 0 0 4 1 fresh r
end_interrupts-Ended_example =
    end_interrupts-Ended 0 (omega arith) 4 0 1 fresh (omega arith) (new-IsValid 1)
