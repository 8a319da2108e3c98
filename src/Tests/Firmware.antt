-- ===== src/Tests/Firmware.antt =====
-- src/psci.rs and the PSCI calls of src/main.rs at concrete inputs.
use mini_visor_pi.Prelude.{◌+◌, ◌*◌, ◌%◌, ◌^◌, ◌≡◌, ◌⊎◌, none, some, [], ◌∷◌, refl}
use mini_visor_pi.Psci.{unknown, already_on, from_u64}
use mini_visor_pi.Psci.Codes.{number, from_u64-number}
use mini_visor_pi.Smp.{Smp, park, take_launch, request_for, wake, claim, handle_guest_cpu_on}
use mini_visor_pi.Smp.Woken.{Outcome, handle_guest_cpu_on-Outcome}
use mini_visor_pi.Smp.Attended.{Waits, now}
use mini_visor_pi.Smp.Lifecycle.{
  Lifecycle, booted, parks, takes, wakes, Lifecycle-Attended, ParkedOnce, Lifecycle-ParkedOnce,
}
use mini_visor_pi.Vm.{get_current_vm}
use mini_visor_pi.Vm.Schedule.{mpidr_to_affinity}
use mini_visor_pi.Tests.Machines.{two_machines, first_pcpu, first_running}

from_u64-number_example :
    (from_u64 (0xFFFFFFFF * 2 ^ 32 + number already_on) ≡ already_on)
    × ((from_u64 7 ≡ unknown) ⊎ (7 % 2 ^ 32 ≡ number (from_u64 7)))
from_u64-number_example = from_u64-number already_on 0xFFFFFFFF 7

abbrev off : Smp
off = record { cpus = []; parked = []; stack_tops = [] }

-- pCPUs 1 and 2 parked.
abbrev two_parked : Smp
two_parked = (park 2 (park 1 off).0).0

abbrev first_waits : Waits
first_waits = now (λ a. none) (mpidr_to_affinity 1) (some 0)

abbrev both_wait : Waits
both_wait = now first_waits (mpidr_to_affinity 2) (some 1)

two_parked-Lifecycle : Lifecycle two_parked both_wait
unfolding park mpidr_to_affinity
two_parked-Lifecycle =
    parks 2 (park 1 off).0 first_waits (parks 1 off (λ a. none) (booted []) refl) refl

-- A guest wakes pCPU 2, which takes the request.
abbrev one_woken : Smp
one_woken = wake 1 (0 ∷ []) (request_for 0 0x40090000 5) two_parked

cpu_on-runs :
    handle_guest_cpu_on 2 0x40090000 5 two_machines first_pcpu two_parked ≡ some (one_woken, 0)
unfolding handle_guest_cpu_on claim park mpidr_to_affinity get_current_vm
cpu_on-runs = refl

one_woken-Lifecycle : Lifecycle one_woken both_wait
one_woken-Lifecycle =
    wakes 2 0x40090000 5 two_machines first_pcpu two_parked one_woken both_wait 0 0
      two_parked-Lifecycle first_running cpu_on-runs

left-Lifecycle : Lifecycle (take_launch 1 one_woken).0 (now both_wait (mpidr_to_affinity 2) none)
unfolding take_launch park mpidr_to_affinity
left-Lifecycle =
    takes (mpidr_to_affinity 2) 1 (request_for 0 0x40090000 5) one_woken both_wait
      one_woken-Lifecycle refl refl

Lifecycle-ParkedOnce_example :
    ParkedOnce (take_launch 1 one_woken).0 (now both_wait (mpidr_to_affinity 2) none)
Lifecycle-ParkedOnce_example =
    Lifecycle-ParkedOnce (take_launch 1 one_woken).0 (now both_wait (mpidr_to_affinity 2) none)
      left-Lifecycle

handle_guest_cpu_on-Outcome_example :
    Outcome 2
      (request_for 0 0x40090000 5)
      two_parked
      (handle_guest_cpu_on 2 0x40090000 5 two_machines first_pcpu two_parked)
handle_guest_cpu_on-Outcome_example =
    handle_guest_cpu_on-Outcome 2 0x40090000 5 two_machines first_pcpu two_parked 0
      (Lifecycle-Attended two_parked both_wait two_parked-Lifecycle).well_parked first_running
