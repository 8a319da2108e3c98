-- ===== src/Smp.antt =====
-- src/main.rs: pCPUs that are parked, and a guest's PSCI calls that wake and retire them. A parked
-- pCPU is shared by PARKED_CPUS and the loop that it waits in: it is its place among all that were
-- ever parked, and `parked` is the list of those places.
use mini_visor_pi.Prelude.{
  ℕ, zero, suc, ◌+◌, ◌-◌, ◌^◌, Bool, true, false, Option, none, some, List, [], ◌∷◌, ◌++◌, ◌==◌,
  leb, if◌then◌else◌, get_elem?, get_or, set, length,
}
use mini_visor_pi.Prelude.Panics.{◌>>=◌}
use mini_visor_pi.Psci.{
  psci_version, psci_system_off, psci_system_reset, psci_cpu_on, psci_cpu_off, negative,
}
use mini_visor_pi.Vm.{Machines, Pcpu, get_current_vm}
use mini_visor_pi.Vm.Schedule.{mpidr_to_affinity, advance_elr_el2, switch_to_other_vcpu_on_retire}
pub mod Launch
pub mod Woken
pub mod Attended
pub mod Lifecycle

pub record SmpLaunchRequest : Type 0 where
  pub vm : ℕ
  pub entry_point : ℕ
  pub context_id : ℕ

pub record ParkedCpu : Type 0 where
  pub affinity : ℕ
  pub launch : Option SmpLaunchRequest

pub record Smp : Type 0 where
  pub cpus : List ParkedCpu
  pub parked : List ℕ
  pub stack_tops : List (ℕ × ℕ)

abbrev pub affinity_at : List ParkedCpu → ℕ → Option ℕ
affinity_at cpus k = elim (get_elem? cpus k) [ none ↦ none | some cpu ↦ some cpu.affinity ]

abbrev pub has_affinity : List ParkedCpu → ℕ → ℕ → Bool
has_affinity cpus affinity k = elim (affinity_at cpus k) [
  | none ↦ false
  | some other ↦ other == affinity
]

-- `position`, `split_off`, `pop_front` and `append`: the first parked pCPU with the affinity, and
-- the list without it.
unfoldable pub claim : List ParkedCpu → ℕ → List ℕ → Option (ℕ × List ℕ)
claim cpus affinity [] = none
claim cpus affinity (k ∷ ks) =
    let rest = claim cpus affinity ks in
    if has_affinity cpus affinity k
    then some (k, ks)
    else elim rest [ none ↦ none | some found ↦ some (found.0, k ∷ found.1) ]

abbrev pub psci_already_on : ℕ
psci_already_on = negative 4

abbrev pub with_launch : Option SmpLaunchRequest → ParkedCpu → ParkedCpu
with_launch request cpu = record cpu { launch = request }

abbrev pub no_cpu : ParkedCpu
no_cpu = record { affinity = 0; launch = none }

-- The request that a guest's call makes, for the VM of the guest.
abbrev pub request_for : ℕ → ℕ → ℕ → SmpLaunchRequest
request_for vm entry_point context_id = record {
  vm = vm;
  entry_point = entry_point;
  context_id = context_id;
}

-- The pCPU at place `k` leaves the list with a request.
abbrev pub wake : ℕ → List ℕ → SmpLaunchRequest → Smp → Smp
wake k remaining request s = record s {
  cpus = set s.cpus k (with_launch (some request) (get_or s.cpus k no_cpu));
  parked = remaining;
}

-- `none`: no current VM, and `unwrap` panics.
unfoldable pub handle_guest_cpu_on : ℕ → ℕ → ℕ → Machines → Pcpu → Smp → Option (Smp × ℕ)
handle_guest_cpu_on target_cpu entry_point context_id m cpu s =
    elim (claim s.cpus (mpidr_to_affinity target_cpu) s.parked) [
      | none ↦ some (s, psci_already_on)
      | some found ↦ do
        vm ← get_current_vm m cpu
        some (wake found.0 found.1 (request_for vm entry_point context_id) s, 0)
    ]

-- The start of smp_park_main: this pCPU joins the list with a new ParkedCpu (`Arc::new`), and waits at the place that is returned.
unfoldable pub park : ℕ → Smp → Smp × ℕ
park mpidr s = (
  record s {
    cpus = s.cpus ++ (record { affinity = mpidr_to_affinity mpidr; launch = none } ∷ []);
    parked = s.parked ++ (length s.cpus ∷ []);
  },
  length s.cpus,
)

-- One round of its loop: `launch.lock().take()`.
unfoldable pub take_launch : ℕ → Smp → Smp × Option SmpLaunchRequest
take_launch k s =
    let here = get_or s.cpus k no_cpu in
    (record s { cpus = set s.cpus k (with_launch none here) }, here.launch)

-- The recorded top of the stack of a pCPU.
unfoldable pub find_stack_top : List (ℕ × ℕ) → ℕ → Option ℕ
find_stack_top [] affinity = none
find_stack_top (top ∷ tops) affinity =
    let rest = find_stack_top tops affinity in if top.0 == affinity then some top.1 else rest

-- How a trapped call goes on: the guest that is now in the registers is resumed, this pCPU restarts at
-- smp_park_main with a stack, or it waits for ever.
pub data Next : Type 0 where
  resume : Next
  repark : ℕ → Next
  halt : Next

-- With another VM in the registers the call returns, otherwise this pCPU parks again.
unfoldable pub stop_or_resume : Machines → Pcpu → Bool → Smp → Option (Machines × Pcpu × Next)
stop_or_resume m cpu true s = some (m, cpu, resume)
stop_or_resume m cpu false s = do
  top ← find_stack_top s.stack_tops (mpidr_to_affinity cpu.mpidr)
  some (m, cpu, repark top)

unfoldable pub handle_guest_cpu_off : Machines → Pcpu → Smp → Option (Machines × Pcpu × Next)
handle_guest_cpu_off m cpu s = do
  switched ← switch_to_other_vcpu_on_retire cpu.tpidr m cpu
  stop_or_resume switched.0 switched.1 switched.2 s

abbrev pub x : ℕ → Pcpu → ℕ
x n cpu = get_or cpu.registers n 0

abbrev pub set_x0 : ℕ → Pcpu → Pcpu
set_x0 value cpu = record cpu { registers = set cpu.registers 0 value }

-- What the pCPU, the VMs, the parked pCPUs and the firmware are after a call.
pub record After (F : Type 0) : Type 0 where
  pub machines : Machines
  pub pcpu : Pcpu
  pub smp : Smp
  pub firmware : F
  pub next : Next

-- The firmware of the machine is a parameter, and `has_psci` whether it has any.
module _ {F : Type 0} (smc : F → ℕ → ℕ → ℕ → ℕ → F × ℕ) (has_psci : Bool) where
  abbrev pub ended : Machines → Pcpu → Smp → F → Next → Option (After F)
  ended m cpu s f next =
      some (record { machines = m; pcpu = cpu; smp = s; firmware = f; next = next })

  -- A call that returns a value to the guest.
  abbrev pub answer : ℕ → Machines → Pcpu → Smp → F → Option (After F)
  answer value m cpu s f = do past ← advance_elr_el2 (set_x0 value cpu); ended m past s f resume

  abbrev pub forward : F × ℕ → Machines → Pcpu → Smp → Option (After F)
  forward called m cpu s = answer called.1 m cpu s called.0

  -- PSCI v0.2 on a machine without it.
  unfoldable pub emulate : Machines → Pcpu → Smp → F → Option (After F)
  emulate m cpu s f =
      if x 0 cpu == psci_version
      then answer 2 m cpu s f
      else if x 0 cpu == psci_system_off
      then ended m cpu s f halt
      else if x 0 cpu == psci_system_reset
      then ended m cpu s f halt
      else answer (2 ^ 64 - 1) m cpu s f

  unfoldable pub handle_guest_smc : Machines → Pcpu → Smp → F → Option (After F)
  handle_guest_smc m cpu s f =
      if x 0 cpu == psci_cpu_on
      then (handle_guest_cpu_on (x 1 cpu) (x 2 cpu) (x 3 cpu) m cpu s >>= λ r.
          answer r.1 m cpu r.0 f)
      else if x 0 cpu == psci_cpu_off
      then (handle_guest_cpu_off m cpu s >>= λ r. ended r.0 r.1 s f r.2)
      else if has_psci
      then forward (smc f (x 0 cpu) (x 1 cpu) (x 2 cpu) (x 3 cpu)) m cpu s
      else emulate m cpu s f
