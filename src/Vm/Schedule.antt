-- ===== src/Vm/Schedule.antt =====
-- src/vm.rs: which vCPU runs next on a pCPU, and the switch to it. `none` is a panic.
use mini_visor_pi.Prelude.{
  ℕ, suc, ◌+◌, ◌%◌, ◌^◌, Bool, true, false, not, ◌&&◌, Option, none, some, List, [], ◌∷◌, ltb, leb,
  ◌==◌, if◌then◌else◌, get_elem?, set, length, bit_and,
}
use mini_visor_pi.Prelude.Bits.{complement}
use mini_visor_pi.Prelude.Panics.{◌>>=◌}
use mini_visor_pi.Vm.{Vm, Machines, Pcpu, find_vm, get_current_vm}
use mini_visor_pi.Vm.Context.{save_context, restore_context, activate_stage2_translation_table}

-- src/asm.rs: without the bits U and RES1.
unfoldable pub mpidr_to_affinity : ℕ → ℕ
mpidr_to_affinity mpidr = bit_and mpidr (complement 64 (2 ^ 31 + 2 ^ 30))

-- The places, from `i` on, of the VMs that belong to a pCPU.
unfoldable pub candidates : ℕ → List Vm → ℕ → List ℕ
candidates affinity [] i = []
candidates affinity (vm ∷ vms) i =
    let rest = candidates affinity vms (suc i) in
    if vm.owner_affinity == affinity then i ∷ rest else rest

abbrev pub vm_id_at : List Vm → ℕ → Option ℕ
vm_id_at vms k = elim (get_elem? vms k) [ none ↦ none | some vm ↦ some vm.vm_id ]

abbrev pub has_id : List Vm → ℕ → ℕ → Bool
has_id vms id k = elim (vm_id_at vms k) [ none ↦ false | some other ↦ other == id ]

-- `position`, counted from `i`.
unfoldable pub position : List Vm → ℕ → List ℕ → ℕ → Option ℕ
position vms id [] i = none
position vms id (k ∷ ks) i =
    let rest = position vms id ks (suc i) in if has_id vms id k then some i else rest

unfoldable pub find_next_same_affinity_vcpu : ℕ → ℕ → List Vm → Option ℕ
find_next_same_affinity_vcpu current_vm_id affinity vms =
    let queue = candidates affinity vms 0 in
    if leb (length queue) 1 then none else (do
      place ← position vms current_vm_id queue 0
      get_elem? queue ((place + 1) % length queue))

unfoldable pub find_other_same_affinity_vcpu : ℕ → ℕ → List Vm → Option ℕ
find_other_same_affinity_vcpu retiring_vm_id affinity vms =
    find_vm (λ vm. (vm.owner_affinity == affinity) && not (vm.vm_id == retiring_vm_id)) vms 0

-- The common end of both switches: the vCPU at place `next` takes the pCPU.
unfoldable pub enter : ℕ → Vm → Machines → Pcpu → Machines × Pcpu
enter next vm m cpu =
    let restored = restore_context vm cpu in
    let staged = activate_stage2_translation_table vm.stage2_table_address vm.vmid restored.0 in
    (
      record m { active_vm = some next },
      record staged { elr = restored.1; spsr = restored.2; tpidr = vm.vm_id },
    )

unfoldable pub advance_elr_el2 : Pcpu → Option Pcpu
advance_elr_el2 cpu =
    if ltb (cpu.elr + 4) (2 ^ 64) then some (record cpu { elr = cpu.elr + 4 }) else none

unfoldable pub switch_to_other_vcpu_on_retire :
    ℕ → Machines → Pcpu → Option (Machines × Pcpu × Bool)
switch_to_other_vcpu_on_retire retiring_vm_id m cpu =
    elim (find_other_same_affinity_vcpu retiring_vm_id (mpidr_to_affinity cpu.mpidr) m.vm_list) [
      | none ↦ some (m, cpu, false)
      | some next ↦ do
        vm ← get_elem? m.vm_list next
        let entered = enter next vm m cpu
        some (entered.0, entered.1, true)
    ]

-- Past the WFI or WFE, saved, and the next vCPU in its place.
unfoldable pub yield_to : ℕ → ℕ → Machines → Pcpu → Option (Machines × Pcpu × Bool)
yield_to current next m cpu = do
  past ← advance_elr_el2 cpu
  leaving ← get_elem? m.vm_list current
  let saved = record m {
    vm_list = set m.vm_list current (save_context past past.elr past.spsr leaving);
  }
  vm ← get_elem? saved.vm_list next
  let entered = enter next vm saved past
  some (entered.0, entered.1, true)

unfoldable pub yield_from : ℕ → Machines → Pcpu → Vm → Option (Machines × Pcpu × Bool)
yield_from current m cpu vm =
    elim (find_next_same_affinity_vcpu vm.vm_id (mpidr_to_affinity cpu.mpidr) m.vm_list) [
      | none ↦ some (m, cpu, false)
      | some next ↦ yield_to current next m cpu
    ]

unfoldable pub try_yield_to_next_vcpu : Machines → Pcpu → Option (Machines × Pcpu × Bool)
try_yield_to_next_vcpu m cpu = do
  current ← get_current_vm m cpu
  vm ← get_elem? m.vm_list current
  yield_from current m cpu vm
