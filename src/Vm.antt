-- ===== src/Vm.antt =====
-- src/vm.rs: the virtual machines, which physical CPU each one belongs to, and what is saved of a
-- virtual CPU that is not running. A VM in VM_LIST is never removed, so an `Arc<VM>` is its place in
-- that list.
use mini_visor_pi.Prelude.{
  ℕ, zero, suc, ◌+◌, Bool, Option, none, some, List, [], ◌∷◌, ◌==◌, if◌then◌else◌, get_or,
  replicate,
}
pub mod Mmio
pub mod Context
pub mod Schedule
pub mod Boot
pub mod Dispatched
pub mod Turns
pub mod Queue
pub mod Yielded
pub mod OnTurn
pub mod RoundRobin
pub mod Resumed

-- The EL0 and EL1 registers that the hardware banks per Exception Level.
pub record El1Context : Type 0 where
  pub sctlr_el1 : ℕ
  pub ttbr0_el1 : ℕ
  pub ttbr1_el1 : ℕ
  pub tcr_el1 : ℕ
  pub mair_el1 : ℕ
  pub amair_el1 : ℕ
  pub vbar_el1 : ℕ
  pub cpacr_el1 : ℕ
  pub contextidr_el1 : ℕ
  pub esr_el1 : ℕ
  pub far_el1 : ℕ
  pub par_el1 : ℕ
  pub afsr0_el1 : ℕ
  pub afsr1_el1 : ℕ
  pub tpidr_el0 : ℕ
  pub tpidr_el1 : ℕ
  pub sp_el0 : ℕ
  pub sp_el1 : ℕ
  pub elr_el1 : ℕ
  pub spsr_el1 : ℕ
  pub cntkctl_el1 : ℕ
  pub cntv_ctl_el0 : ℕ
  pub cntv_cval_el0 : ℕ

pub record VcpuContext : Type 0 where
  pub regs : List ℕ
  pub elr_el2 : ℕ
  pub spsr_el2 : ℕ
  pub gich_lr : List ℕ
  pub el1 : El1Context

-- The VM with the context of its vCPU. Its devices are in Vm/Mmio.antt.
pub record Vm : Type 0 where
  pub vm_id : ℕ
  pub owner_affinity : ℕ
  pub stage2_table_address : ℕ
  pub vmid : ℕ
  pub ram_virtual_base_address : ℕ
  pub ram_physical_base_address : ℕ
  pub ram_size : ℕ
  pub context : VcpuContext

-- VM_LIST and ACTIVE_VM.
pub record Machines : Type 0 where
  pub vm_list : List Vm
  pub active_vm : Option ℕ

-- The registers of the current pCPU: the trap frame, those of EL2 that a switch of vCPUs writes, the
-- List Registers, those of EL1 that a switch saves, and in `unsaved` those of a guest that it neither
-- saves nor restores: FP and SIMD, TPIDRRO_EL0, CNTP_CTL_EL0 and CNTP_CVAL_EL0, GICH_VMCR and GICH_APR.
pub record Pcpu : Type 0 where
  pub registers : List ℕ
  pub elr : ℕ
  pub spsr : ℕ
  pub list_registers : List ℕ
  pub el1_registers : El1Context
  pub vttbr : ℕ
  pub tpidr : ℕ
  pub mpidr : ℕ
  pub unsaved : List ℕ

abbrev pub number_of_slots : ℕ
number_of_slots = 32

abbrev pub number_of_supported_lrs : ℕ
number_of_supported_lrs = 4

-- VcpuContext::new, with the EL1 registers that this pCPU had before any guest ran.
abbrev pub new_context : El1Context → VcpuContext
new_context reset = record {
  regs = replicate number_of_slots 0;
  elr_el2 = 0;
  spsr_el2 = 0;
  gich_lr = replicate number_of_supported_lrs 0;
  el1 = reset;
}

-- The first VM of the list that passes a test, with the places counted from `i`.
unfoldable pub find_vm : (Vm → Bool) → List Vm → ℕ → Option ℕ
find_vm test [] i = none
find_vm test (vm ∷ vms) i = let rest = find_vm test vms (suc i) in if test vm then some i else rest

-- `none`: `unwrap` panics.
unfoldable pub get_current_vm : Machines → Pcpu → Option ℕ
unfolding find_vm
get_current_vm m cpu = find_vm (λ vm. vm.vm_id == cpu.tpidr) m.vm_list 0

unfoldable pub switch_active_vm : ℕ → Machines → Machines × Bool
unfolding find_vm
switch_active_vm vm_id m = elim (find_vm (λ vm. vm.vm_id == vm_id) m.vm_list 0) [
  | some k ↦ (record m { active_vm = some k }, Bool.true)
  | none ↦ (m, Bool.false)
]
