-- ===== src/Vm/Boot.antt =====
-- src/vm.rs: a VM joins the list, and a pCPU joins a VM. `none` is a panic.
use mini_visor_pi.Prelude.{
  ℕ, Bool, false, ◌||◌, Option, some, List, [], ◌∷◌, ◌++◌, ◌==◌, if◌then◌else◌,
}
use mini_visor_pi.Prelude.Panics.{◌>>=◌}
use mini_visor_pi.Vm.{Vm, Machines, Pcpu, switch_active_vm, get_current_vm}
use mini_visor_pi.Vm.Context.{activate_stage2_translation_table}

-- `vms.iter().any(|v| v.owner_affinity == owner_affinity)`.
unfoldable pub any_with_affinity : List Vm → ℕ → Bool
any_with_affinity [] affinity = false
any_with_affinity (vm ∷ vms) affinity =
    let rest = any_with_affinity vms affinity in (vm.owner_affinity == affinity) || rest

-- The end of create_vm: the first VM of a pCPU takes it, any other one waits for its turn.
unfoldable pub enlist : Vm → Machines → Pcpu → Option (Machines × Pcpu)
enlist vm m cpu =
    let listed = record m { vm_list = m.vm_list ++ (vm ∷ []) } in
    if any_with_affinity m.vm_list vm.owner_affinity
    then (do current ← get_current_vm listed cpu; some (listed, cpu))
    else some (
      (switch_active_vm vm.vm_id listed).0,
      activate_stage2_translation_table vm.stage2_table_address vm.vmid
          (record cpu { tpidr = vm.vm_id }),
    )
