-- ===== src/Smp/Woken.antt =====
-- src/main.rs: a guest's CPU_ON, the pCPU that it wakes, and the request that this pCPU takes.
use mini_visor_pi.Prelude.{
  ℕ, ◌≡◌, refl, sym, ap, ◌∙◌, ◌≢◌, true, false, Option, none, some, List, ◌==◌, get_elem?, get_or,
  ==_iff, get_or_of_get_elem?,
}
use mini_visor_pi.Vm.{Machines, Pcpu, get_current_vm}
use mini_visor_pi.Vm.Schedule.{mpidr_to_affinity}
use mini_visor_pi.Vm.Turns.{get_elem?-set_self, get_elem?-set_ne}
use mini_visor_pi.Smp.{
  SmpLaunchRequest, ParkedCpu, Smp, has_affinity, affinity_at, claim, psci_already_on, with_launch,
  no_cpu, request_for, wake, handle_guest_cpu_on, take_launch,
}
use mini_visor_pi.Smp.Launch.{
  remove, remove-source, remove-distinct, Claimed, claimed, nobody, claim-Claimed, WellParked,
}

has_affinity-eq :
    (cpus : List ParkedCpu) (affinity k : ℕ) (c : ParkedCpu)
    → get_elem? cpus k ≡ some c
    → has_affinity cpus affinity k ≡ true
    → c.affinity ≡ affinity
has_affinity-eq cpus affinity k c there h = (==_iff _ _).0 (sym (opened there) ∙ h)
  where
    opened : get_elem? cpus k ≡ some c → has_affinity cpus affinity k ≡ (c.affinity == affinity)
    opened e = rw (has_affinity, affinity_at, e) refl

eq-has_affinity :
    (cpus : List ParkedCpu) (affinity k : ℕ) (c : ParkedCpu)
    → get_elem? cpus k ≡ some c
    → c.affinity ≡ affinity
    → has_affinity cpus affinity k ≡ true
eq-has_affinity cpus affinity k c there same =
    rw (has_affinity, affinity_at, there) ((==_iff _ _).1 same)

true_ne_false : true ≢ false
true_ne_false e = cc

-- What CPU_ON does for a guest of the VM at place `vm`.
pub data Outcome (target_cpu : ℕ) (request : SmpLaunchRequest) (s : Smp)
    : Option (Smp × ℕ) → Type 0 where
  woken :
      (p k : ℕ) (c : ParkedCpu)
      → get_elem? s.parked p ≡ some k
      → get_elem? s.cpus k ≡ some c
      → c.affinity ≡ mpidr_to_affinity target_cpu
      → c.launch ≡ none
      → WellParked (wake k (remove p s.parked) request s)
      → (take_launch k (wake k (remove p s.parked) request s)).1 ≡ some request
      → Outcome target_cpu request s (some (wake k (remove p s.parked) request s, 0))
  refused :
      ((q k : ℕ) (c : ParkedCpu)
        → get_elem? s.parked q ≡ some k
        → get_elem? s.cpus k ≡ some c
        → c.affinity ≢ mpidr_to_affinity target_cpu)
      → Outcome target_cpu request s (some (s, psci_already_on))

wake-WellParked :
    (s : Smp) (p k : ℕ) (request : SmpLaunchRequest)
    → get_elem? s.parked p ≡ some k
    → WellParked s
    → WellParked (wake k (remove p s.parked) request s)
wake-WellParked s p k request at_p w = record {
  idle = λ q j at_q.
      let (r, at_r, ne, _) = remove-source s.parked p q j at_q in
      let (c, there, empty) = w.idle r j at_r in
      let other : k ≢ j = λ e. ne (w.distinct r p j at_r (at_p ∙ ap some e)) in
      (c, get_elem?-set_ne s.cpus k j _ other ∙ there, empty);
  distinct = remove-distinct s.parked p w.distinct;
}

wake-taken :
    (s : Smp) (k : ℕ) (remaining : List ℕ) (c : ParkedCpu) (request : SmpLaunchRequest)
    → get_elem? s.cpus k ≡ some c
    → (take_launch k (wake k remaining request s)).1 ≡ some request
unfolding take_launch
wake-taken s k remaining c request there =
    ap (λ (c : ParkedCpu). c.launch)
      (get_or_of_get_elem? _ k no_cpu
        (get_elem?-set_self s.cpus k (with_launch (some request) (get_or s.cpus k no_cpu)) there))

module _ (target_cpu entry_point context_id : ℕ) (m : Machines) (cpu : Pcpu) (s : Smp)
    (vm : ℕ) where
  abbrev run : Option (Smp × ℕ)
  run = handle_guest_cpu_on target_cpu entry_point context_id m cpu s

  claimed-runs :
      (k : ℕ) (remaining : List ℕ)
      → get_current_vm m cpu ≡ some vm
      → claim s.cpus (mpidr_to_affinity target_cpu) s.parked ≡ some (k, remaining)
      → run ≡ some (wake k remaining (request_for vm entry_point context_id) s, 0)
  unfolding handle_guest_cpu_on
  claimed-runs k remaining running e = rw (handle_guest_cpu_on, e, running) refl

  nobody-runs :
      claim s.cpus (mpidr_to_affinity target_cpu) s.parked ≡ none → run ≡ some (s, psci_already_on)
  unfolding handle_guest_cpu_on
  nobody-runs e = rw (handle_guest_cpu_on, e) refl

  outcome :
      (r : Option (ℕ × List ℕ))
      → WellParked s
      → get_current_vm m cpu ≡ some vm
      → Claimed s.cpus (mpidr_to_affinity target_cpu) s.parked r
      → claim s.cpus (mpidr_to_affinity target_cpu) s.parked ≡ r
      → Outcome target_cpu (request_for vm entry_point context_id) s run
  outcome _ w running (claimed p k at_p yes_k before) e =
      let found = w.idle p k at_p in
      rw (claimed-runs k (remove p s.parked) running e) (
        woken p k found.0 at_p found.1
          (has_affinity-eq s.cpus (mpidr_to_affinity target_cpu) k found.0 found.1 yes_k) found.2
          (wake-WellParked s p k (request_for vm entry_point context_id) at_p w)
          (wake-taken s k (remove p s.parked) found.0 (request_for vm entry_point context_id)
            found.1))
  outcome _ w running (nobody none_of) e = rw (nobody-runs e) (
      refused (λ q k c at_q there same.
        true_ne_false (sym (eq-has_affinity s.cpus _ k c there same) ∙ none_of q k at_q)))

-- If no ParkedCpu stands twice in the list, none in it has a request, and this pCPU runs a VM, its
-- guest's CPU_ON either wakes a
-- parked pCPU of that affinity, which is then no longer in the list and whose loop takes exactly this
-- request, or reports ALREADY_ON, changing nothing, because no parked pCPU has the affinity. No
-- request of another call is overwritten.
pub handle_guest_cpu_on-Outcome :
    (target_cpu entry_point context_id : ℕ) (m : Machines) (cpu : Pcpu) (s : Smp) (vm : ℕ)
    → WellParked s
    → get_current_vm m cpu ≡ some vm
    → Outcome target_cpu
        (request_for vm entry_point context_id)
        s
        (handle_guest_cpu_on target_cpu entry_point context_id m cpu s)
handle_guest_cpu_on-Outcome target_cpu entry_point context_id m cpu s vm w running =
    outcome target_cpu entry_point context_id m cpu s vm
      (claim s.cpus (mpidr_to_affinity target_cpu) s.parked) w running
      (claim-Claimed s.cpus (mpidr_to_affinity target_cpu) s.parked) refl
