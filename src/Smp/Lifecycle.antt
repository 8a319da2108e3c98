-- ===== src/Smp/Lifecycle.antt =====
-- src/main.rs: pCPUs park, are woken and take their requests in any order.
use mini_visor_pi.Prelude.{ℕ, ◌≡◌, sym, ap, ◌∙◌, none, some, List, [], get_elem?}
use mini_visor_pi.Prelude.Panics.{none_ne_some, some-injective}
use mini_visor_pi.Vm.{Machines, Pcpu, get_current_vm}
use mini_visor_pi.Vm.Schedule.{mpidr_to_affinity}
use mini_visor_pi.Smp.{
  SmpLaunchRequest, ParkedCpu, Smp, handle_guest_cpu_on, park, take_launch, request_for,
}
use mini_visor_pi.Smp.Attended.{
  Waits, now, Attended, park-Attended, polls-Attended, takes-Attended, Outcome-WellParked,
  wakes-Attended,
}
use mini_visor_pi.Smp.Woken.{handle_guest_cpu_on-Outcome}

-- The steps of all pCPUs, one at a time under the lock of PARKED_CPUS. A pCPU parks only while it does
-- not wait, and leaves the loop only with a request.
pub data Lifecycle : Smp → Waits → Type 0 where
  booted :
      (tops : List (ℕ × ℕ))
      → Lifecycle (record { cpus = []; parked = []; stack_tops = tops }) (λ a. none)
  parks :
      (mpidr : ℕ) (s : Smp) (waits : Waits)
      → Lifecycle s waits
      → waits (mpidr_to_affinity mpidr) ≡ none
      → Lifecycle (park mpidr s).0 (now waits (mpidr_to_affinity mpidr) (some (park mpidr s).1))
  polls :
      (affinity k : ℕ) (s : Smp) (waits : Waits)
      → Lifecycle s waits
      → waits affinity ≡ some k
      → (take_launch k s).1 ≡ none
      → Lifecycle (take_launch k s).0 waits
  takes :
      (affinity k : ℕ) (request : SmpLaunchRequest) (s : Smp) (waits : Waits)
      → Lifecycle s waits
      → waits affinity ≡ some k
      → (take_launch k s).1 ≡ some request
      → Lifecycle (take_launch k s).0 (now waits affinity none)
  wakes :
      (target_cpu entry_point context_id : ℕ) (m : Machines) (cpu : Pcpu) (s s' : Smp)
      (waits : Waits) (vm code : ℕ)
      → Lifecycle s waits
      → get_current_vm m cpu ≡ some vm
      → handle_guest_cpu_on target_cpu entry_point context_id m cpu s ≡ some (s', code)
      → Lifecycle s' waits

pub Lifecycle-Attended : (s : Smp) (waits : Waits) → Lifecycle s waits → Attended s waits
Lifecycle-Attended _ _ (booted tops) = record {
  well_parked = record {
    idle = λ q k h. absurd (none_ne_some h);
    distinct = λ q r k hq hr. absurd (none_ne_some hq);
  };
  attended = λ q k c h there. absurd (none_ne_some h);
}
Lifecycle-Attended _ _ (parks mpidr s waits t away) =
    park-Attended mpidr s waits (Lifecycle-Attended s waits t) away
Lifecycle-Attended _ _ (polls affinity k s waits t waiting empty) =
    polls-Attended k s waits (Lifecycle-Attended s waits t)
Lifecycle-Attended _ _ (takes affinity k request s waits t waiting taken) =
    takes-Attended affinity k request s waits (Lifecycle-Attended s waits t) waiting taken
Lifecycle-Attended _ _
      (wakes target_cpu entry_point context_id m cpu s s' waits vm code t running h) =
    let w = Lifecycle-Attended s waits t in
    let outcome =
      handle_guest_cpu_on-Outcome target_cpu entry_point context_id m cpu s vm w.well_parked
        running in
    record {
      well_parked =
          Outcome-WellParked target_cpu (request_for vm entry_point context_id) s s' code _
            w.well_parked outcome h;
      attended =
          wakes-Attended target_cpu (request_for vm entry_point context_id) s s' waits code _ w
            outcome h;
    }

-- The list of parked pCPUs: no two entries have one affinity, each has no request, and its pCPU is in
-- the loop that looks at this entry.
pub record ParkedOnce (s : Smp) (waits : Waits) : Type 0 where
  pub once :
      (q r k j : ℕ) (c d : ParkedCpu)
      → get_elem? s.parked q ≡ some k
      → get_elem? s.parked r ≡ some j
      → get_elem? s.cpus k ≡ some c
      → get_elem? s.cpus j ≡ some d
      → c.affinity ≡ d.affinity
      → q ≡ r
  pub idle :
      (q k : ℕ)
      → get_elem? s.parked q ≡ some k
      → (c : ParkedCpu) × (get_elem? s.cpus k ≡ some c)
        × (c.launch ≡ none)
        × (waits c.affinity ≡ some k)

-- Whatever the order in which pCPUs park, guests wake them and they poll and take their requests,
-- where a pCPU parks only while it is not in the loop of smp_park_main: no two entries of the list of
-- parked pCPUs have the same affinity, and each one has no request and is the entry that the pCPU of
-- its affinity looks at in its loop. So a request that CPU_ON hands to an entry is never handed to one
-- that its pCPU has left.
pub Lifecycle-ParkedOnce : (s : Smp) (waits : Waits) → Lifecycle s waits → ParkedOnce s waits
Lifecycle-ParkedOnce s waits t =
    let w = Lifecycle-Attended s waits t in
    record {
      once = λ q r k j c d at_q at_r there there' same.
          let e : k ≡ j =
            some-injective
              (sym (w.attended q k c at_q there) ∙ ap waits same ∙ w.attended r j d at_r there') in
          w.well_parked.distinct q r j (at_q ∙ ap some e) at_r;
      idle = λ q k at_q.
          let (c, there, empty) = w.well_parked.idle q k at_q in
          (c, there, empty, w.attended q k c at_q there);
    }
