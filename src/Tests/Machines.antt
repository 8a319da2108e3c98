-- ===== src/Tests/Machines.antt =====
-- src/vm.rs, src/guest_memory.rs and src/exception.rs at concrete inputs.
use mini_visor_pi.Prelude.{
  ℕ, zero, suc, ◌+◌, ◌*◌, ◌%◌, ◌<◌, ◌≡◌, refl, sym, ap, ◌∙◌, ◌≢◌, Bool, true, false, Option, none,
  some, List, [], ◌∷◌, arith, replicate, length,
}
use mini_visor_pi.Prelude.Panics.{some-injective, none_ne_some}
use mini_visor_pi.GuestMemory.{translate_guest_physical_address, Translated, translate-Translated}
use mini_visor_pi.Vm.{El1Context, Vm, Machines, Pcpu, new_context, get_current_vm}
use mini_visor_pi.Vm.Mmio.{MmioHandler, MmioEntry, handle_mmio_read, handle_mmio_write}
use mini_visor_pi.Vm.Dispatched.{Dispatched, read_by, write_by, handle_mmio-Dispatched}
use mini_visor_pi.Vm.Schedule.{
  try_yield_to_next_vcpu, mpidr_to_affinity, candidates, yield_from, find_next_same_affinity_vcpu,
  position, yield_to, advance_elr_el2, enter,
}
use mini_visor_pi.Vm.Context.{
  save_context, restore_context, activate, capture_current, copy_lrs,
  activate_stage2_translation_table,
}
use mini_visor_pi.Vm.Turns.{Unique}
use mini_visor_pi.Vm.OnTurn.{OnTurn}
use mini_visor_pi.Vm.RoundRobin.{Turns, Turns-RoundRobin, try_yield-OnTurn}
use mini_visor_pi.Vm.Resumed.{gone, Resumed, try_yield-Resumed}
use mini_visor_pi.Exception.{Trap, data_abort_handler}
use mini_visor_pi.Exception.Emulated.{Emulated, data_abort_handler-Emulated}

translate-Translated_example :
    Translated 0x40000000 0x80000000 0x10000000 0x40001234
      (translate_guest_physical_address 0x40001234 0x40000000 0x80000000 0x10000000)
translate-Translated_example =
    translate-Translated 0x40001234 0x40000000 0x80000000 0x10000000 (omega arith) (omega arith)

abbrev reset_el1 : El1Context
reset_el1 = record {
  sctlr_el1 = 0;
  ttbr0_el1 = 0;
  ttbr1_el1 = 0;
  tcr_el1 = 0;
  mair_el1 = 0;
  amair_el1 = 0;
  vbar_el1 = 0;
  cpacr_el1 = 0;
  contextidr_el1 = 0;
  esr_el1 = 0;
  far_el1 = 0;
  par_el1 = 0;
  afsr0_el1 = 0;
  afsr1_el1 = 0;
  tpidr_el0 = 0;
  tpidr_el1 = 0;
  sp_el0 = 0;
  sp_el1 = 0;
  elr_el1 = 0;
  spsr_el1 = 0;
  cntkctl_el1 = 0;
  cntv_ctl_el0 = 0;
  cntv_cval_el0 = 0;
}

abbrev pub some_vm : ℕ → Vm
some_vm id = record {
  vm_id = id;
  owner_affinity = 0;
  stage2_table_address = 0x100000 * (id + 1);
  vmid = id;
  ram_virtual_base_address = 0x40000000;
  ram_physical_base_address = 0x80000000;
  ram_size = 0x10000000;
  context = new_context reset_el1;
}

-- Two VMs on pCPU 0.
abbrev pub two_machines : Machines
two_machines = record { vm_list = some_vm 0 ∷ some_vm 1 ∷ []; active_vm = some 0 }

abbrev pub first_pcpu : Pcpu
first_pcpu = record {
  registers = replicate 32 7;
  elr = 0x40080000;
  spsr = 5;
  list_registers = 1 ∷ 2 ∷ 3 ∷ 4 ∷ [];
  el1_registers = reset_el1;
  vttbr = 0x100000;
  tpidr = 0;
  mpidr = 0;
  unsaved = 9 ∷ [];
}

two_machines-Unique : Unique two_machines.vm_list
two_machines-Unique zero zero v w hv hw e = refl
two_machines-Unique zero (suc zero) v w hv hw e =
    let a : 0 ≡ v.vm_id = ap (λ (t : Vm). t.vm_id) (some-injective hv) in
    let b : 1 ≡ w.vm_id = ap (λ (t : Vm). t.vm_id) (some-injective hw) in absurd (omega arith)
two_machines-Unique (suc zero) zero v w hv hw e =
    let a : 1 ≡ v.vm_id = ap (λ (t : Vm). t.vm_id) (some-injective hv) in
    let b : 0 ≡ w.vm_id = ap (λ (t : Vm). t.vm_id) (some-injective hw) in absurd (omega arith)
two_machines-Unique (suc zero) (suc zero) v w hv hw e = refl
two_machines-Unique (suc (suc i)) j v w hv hw e = absurd (none_ne_some hv)
two_machines-Unique zero (suc (suc j)) v w hv hw e = absurd (none_ne_some hw)
two_machines-Unique (suc zero) (suc (suc j)) v w hv hw e = absurd (none_ne_some hw)

abbrev first_queue : List ℕ
first_queue = 0 ∷ 1 ∷ []

first-OnTurn : OnTurn first_queue 0 two_machines first_pcpu
unfolding candidates mpidr_to_affinity get_current_vm
first-OnTurn = record { unique = two_machines-Unique; waiting = refl; running = refl }

Turns-RoundRobin_example :
    (n : ℕ) × (n < 2)
    × ((m' : Machines) (cpu' : Pcpu)
        → Turns two_machines first_pcpu n m' cpu'
        → get_current_vm m' cpu' ≡ some 1)
Turns-RoundRobin_example =
    Turns-RoundRobin first_queue 0 1 two_machines first_pcpu (omega arith) (omega arith)
      (omega arith) first-OnTurn

try_yield-OnTurn_example :
    (m' : Machines) × (cpu' : Pcpu) × (try_yield_to_next_vcpu two_machines first_pcpu
      ≡ some (m', cpu', true))
    × OnTurn first_queue ((0 + 1) % 2) m' cpu'
try_yield-OnTurn_example =
    try_yield-OnTurn first_queue 0 two_machines first_pcpu (omega arith) (omega arith) first-OnTurn
      (omega arith)

-- The states after one yield and after two.
abbrev machines_of : Option (Machines × Pcpu × Bool) → Machines
machines_of none = two_machines
machines_of (some r) = r.0

abbrev pcpu_of : Option (Machines × Pcpu × Bool) → Pcpu
pcpu_of none = first_pcpu
pcpu_of (some r) = r.1

abbrev once : Option (Machines × Pcpu × Bool)
once = try_yield_to_next_vcpu two_machines first_pcpu

abbrev twice : Option (Machines × Pcpu × Bool)
twice = try_yield_to_next_vcpu (machines_of once) (pcpu_of once)

once-runs : once ≡ some (machines_of once, pcpu_of once, true)
unfolding try_yield_to_next_vcpu get_current_vm yield_from find_next_same_affinity_vcpu candidates
    mpidr_to_affinity position yield_to advance_elr_el2 enter save_context restore_context activate
    capture_current copy_lrs activate_stage2_translation_table
once-runs = refl

second_runs : get_current_vm (machines_of once) (pcpu_of once) ≡ some 1
unfolding try_yield_to_next_vcpu get_current_vm yield_from find_next_same_affinity_vcpu candidates
    mpidr_to_affinity position yield_to advance_elr_el2 enter save_context restore_context activate
    capture_current copy_lrs activate_stage2_translation_table
second_runs = refl

twice-runs : twice ≡ some (machines_of twice, pcpu_of twice, true)
unfolding try_yield_to_next_vcpu get_current_vm yield_from find_next_same_affinity_vcpu candidates
    mpidr_to_affinity position yield_to advance_elr_el2 enter save_context restore_context activate
    capture_current copy_lrs activate_stage2_translation_table
twice-runs = refl

first_again : get_current_vm (machines_of twice) (pcpu_of twice) ≡ some 0
unfolding try_yield_to_next_vcpu get_current_vm yield_from find_next_same_affinity_vcpu candidates
    mpidr_to_affinity position yield_to advance_elr_el2 enter save_context restore_context activate
    capture_current copy_lrs activate_stage2_translation_table
first_again = refl

four_registers : length (pcpu_of once).list_registers ≡ 4
unfolding try_yield_to_next_vcpu get_current_vm yield_from find_next_same_affinity_vcpu candidates
    mpidr_to_affinity position yield_to advance_elr_el2 enter save_context restore_context activate
    capture_current copy_lrs activate_stage2_translation_table
four_registers = refl

pub first_running : get_current_vm two_machines first_pcpu ≡ some 0
unfolding get_current_vm
first_running = refl

one_ne_zero : ◌≢◌ {A = Option ℕ} (some 1) (some 0)
one_ne_zero e = let e' : ◌≡◌ {A = ℕ} 1 0 = some-injective e in absurd (omega arith)

try_yield-Resumed_example : Resumed (some_vm 0) first_pcpu (pcpu_of once) (pcpu_of twice)
try_yield-Resumed_example =
    try_yield-Resumed 0 (some_vm 0) two_machines (machines_of once) (machines_of once)
      (machines_of twice) first_pcpu (pcpu_of once) (pcpu_of once) (pcpu_of twice)
      two_machines-Unique refl refl refl four_registers first_running once-runs gone
      (λ e. one_ne_zero (sym second_runs ∙ e)) twice-runs first_again

-- A device that keeps the last value written to it.
abbrev latch : MmioHandler ℕ
latch = record {
  read = λ w offset width. some (w, some (w + offset));
  write = λ w offset width value. some (value, true);
}

abbrev devices : List (MmioEntry ℕ)
devices =
    record { base_address = 0x9000000; length = 0x1000; handler = latch }
    ∷ record { base_address = 0xA000000; length = 0x200; handler = latch }
    ∷ []

handle_mmio-Dispatched_example :
    Dispatched
      (read_by 0xA000010 32 5)
      (some (5, none))
      0xA000010
      devices
      (handle_mmio_read devices 0xA000010 32 5)
    × Dispatched
        (write_by 0xA000010 32 5 9)
        (some (5, false))
        0xA000010
        devices
        (handle_mmio_write devices 0xA000010 32 9 5)
handle_mmio-Dispatched_example =
    handle_mmio-Dispatched devices 0xA000010 32 9 5 (omega arith, (omega arith, tt))

-- A 32-bit load of register 3 from offset 0x10 of the second device.
abbrev load_trap : Trap
load_trap = record { esr_el2 = 0x93830007; hpfar_el2 = 0xA0000; far_el2 = 0x7010 }

data_abort_handler-Emulated_example :
    Emulated devices load_trap 5 first_pcpu (data_abort_handler devices load_trap 5 first_pcpu)
data_abort_handler-Emulated_example =
    data_abort_handler-Emulated devices load_trap 5 first_pcpu refl (omega arith)
