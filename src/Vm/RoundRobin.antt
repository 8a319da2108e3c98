-- ===== src/Vm/RoundRobin.antt =====
-- src/vm.rs: the vCPUs of one pCPU run in turn.
use mini_visor_pi.Prelude.{
  ℕ, suc, ◌+◌, ◌-◌, ◌%◌, ◌^◌, ◌<◌, ◌≡◌, ap, ◌∙◌, true, some, List, get_elem?, length, arith,
  get_elem?-eq-get_or, get_or,
}
use native.Mathlib.Nat.{mod-add-mod, mod-lt, mod-eq_of_lt, add-mod_right}
use native.Mathlib.Decide.{dec_le}
use mini_visor_pi.Vm.{Vm, Machines, Pcpu, get_current_vm}
use mini_visor_pi.Vm.Context.{save_context}
use mini_visor_pi.Vm.Schedule.{mpidr_to_affinity, try_yield_to_next_vcpu}
use mini_visor_pi.Vm.Turns.{candidates-set}
use mini_visor_pi.Vm.Queue.{find_next-successor, candidates_sound}
use mini_visor_pi.Vm.Yielded.{
  past, saved_list, switched, try_yield-Yielded, try_yield-runs, yield_to-runs,
  advance_elr_el2-fits,
}
use mini_visor_pi.Vm.OnTurn.{OnTurn, saved-same, yielded-OnTurn}

-- What happens on a pCPU: the guest runs, which changes neither the identity of the pCPU nor the VM
-- that it belongs to, and vCPUs give way. The number counts the yields.
pub data Turns (m : Machines) (cpu : Pcpu) : ℕ → Machines → Pcpu → Type 0 where
  start : Turns m cpu 0 m cpu
  guest :
      (n : ℕ) (m1 : Machines) (cpu1 cpu2 : Pcpu)
      → Turns m cpu n m1 cpu1
      → cpu2.tpidr ≡ cpu1.tpidr
      → cpu2.mpidr ≡ cpu1.mpidr
      → Turns m cpu n m1 cpu2
  yield :
      (n : ℕ) (m1 m2 : Machines) (cpu1 cpu2 : Pcpu)
      → Turns m cpu n m1 cpu1
      → try_yield_to_next_vcpu m1 cpu1 ≡ some (m2, cpu2, true)
      → Turns m cpu (suc n) m2 cpu2

guest-OnTurn :
    (queue : List ℕ) (p : ℕ) (m : Machines) (cpu cpu' : Pcpu)
    → cpu'.tpidr ≡ cpu.tpidr
    → cpu'.mpidr ≡ cpu.mpidr
    → OnTurn queue p m cpu
    → OnTurn queue p m cpu'
unfolding get_current_vm
guest-OnTurn queue p m cpu cpu' id aff on = record {
  unique = on.unique;
  waiting = rw aff on.waiting;
  running = rw id on.running;
}

Turns-OnTurn :
    (queue : List ℕ) (p : ℕ) (m : Machines) (cpu : Pcpu)
    → 1 < length queue
    → p < length queue
    → OnTurn queue p m cpu
    → (n : ℕ) (m' : Machines) (cpu' : Pcpu) → Turns m cpu n m' cpu'
    → OnTurn queue ((p + n) % length queue) m' cpu'
Turns-OnTurn queue p m cpu several at on _ _ _ start =
    let e : (p + 0) % length queue ≡ p =
      ap (λ (t : ℕ). t % length queue) (omega arith) ∙ mod-eq_of_lt at in
    rw e on
Turns-OnTurn queue p m cpu several at on _ _ _ (guest n m1 cpu1 cpu2 t id aff) =
    guest-OnTurn queue _ m1 cpu1 cpu2 id aff (Turns-OnTurn queue p m cpu several at on n m1 cpu1 t)
Turns-OnTurn queue p m cpu several at on _ _ _ (yield n m1 m2 cpu1 cpu2 t h) =
    let before = Turns-OnTurn queue p m cpu several at on n m1 cpu1 t in
    let y = try_yield-Yielded m1 cpu1 m2 cpu2 h in
    let e : ((p + n) % length queue + 1) % length queue ≡ (p + suc n) % length queue =
      mod-add-mod (p + n) (length queue) 1 ∙ ap (λ (t : ℕ). t % length queue) (omega arith) in
    rw (← e) (yielded-OnTurn m1 m2 cpu1 cpu2 y queue _ several before)

-- The vCPUs between two places of the queue.
turns_between : (p q len : ℕ) → p < len → q < len → (n : ℕ) × (n < len) × ((p + n) % len ≡ q)
turns_between p q len hp hq = elim (dec_le p q) [
  | yes le ↦ (q - p, omega arith, ap (λ (t : ℕ). t % len) (omega arith) ∙ mod-eq_of_lt hq)
  | no gt ↦ (
    q + len - p,
    omega arith,
    ap (λ (t : ℕ). t % len) (omega arith) ∙ add-mod_right q len ∙ mod-eq_of_lt hq,
  )
]

-- On a pCPU with at least two vCPUs, whose VMs have distinct numbers, each of them has its turn: from
-- any vCPU of the queue that runs, there is a number of yields below the number of vCPUs after which
-- a given one runs, whatever the guests do with the registers in between.
pub Turns-RoundRobin :
    (queue : List ℕ) (p q : ℕ) (m : Machines) (cpu : Pcpu)
    → 1 < length queue
    → p < length queue
    → q < length queue
    → OnTurn queue p m cpu
    → (n : ℕ) × (n < length queue)
      × ((m' : Machines) (cpu' : Pcpu)
          → Turns m cpu n m' cpu'
          → get_current_vm m' cpu' ≡ get_elem? queue q)
Turns-RoundRobin queue p q m cpu several at to on =
    let n = turns_between p q (length queue) at to in
    (
      n.0,
      n.1,
      λ m' cpu' t.
          (Turns-OnTurn queue p m cpu several at on n.0 m' cpu' t).running
          ∙ ap (get_elem? queue) n.2,
    )

-- On a pCPU with at least two vCPUs, whose VMs have distinct numbers, a vCPU of the queue that runs
-- and whose program counter is 4 below 2^64 can give way: the yield does not panic, and the next
-- vCPU of the queue runs.
pub try_yield-OnTurn :
    (queue : List ℕ) (p : ℕ) (m : Machines) (cpu : Pcpu)
    → 1 < length queue
    → p < length queue
    → OnTurn queue p m cpu
    → cpu.elr + 4 < 2 ^ 64
    → (m' : Machines) × (cpu' : Pcpu) × (try_yield_to_next_vcpu m cpu ≡ some (m', cpu', true))
      × OnTurn queue ((p + 1) % length queue) m' cpu'
try_yield-OnTurn queue p m cpu several at on fits =
    let aff : ℕ = mpidr_to_affinity cpu.mpidr in
    let k : ℕ = get_or queue p 0 in
    let here : get_elem? queue p ≡ some k = get_elem?-eq-get_or queue p 0 at in
    let w = on.waiting in
    let current = candidates_sound aff m.vm_list 0 p k (rw w here) in
    let leaving : Vm = current.1 in
    let left : get_elem? m.vm_list k ≡ some leaving =
      ap (get_elem? m.vm_list) (omega (arith, current.2)) ∙ current.3 in
    let after : ℕ = (p + 1) % length queue in
    let next : ℕ = get_or queue after 0 in
    let short : after < length queue = mod-lt (p + 1) (omega arith) in
    let there : get_elem? queue after ≡ some next = get_elem?-eq-get_or queue after 0 short in
    let chosen =
      find_next-successor aff m.vm_list p k leaving on.unique (rw w several) (rw w here) left
      ∙ ap (λ q. get_elem? q ((p + 1) % length q)) on.waiting
      ∙ there in
    let kept =
      candidates-set aff m.vm_list 0 k leaving
        (save_context (past cpu) (cpu.elr + 4) cpu.spsr leaving) left
        (saved-same (past cpu) (cpu.elr + 4) cpu.spsr leaving).1 in
    let coming =
      candidates_sound aff (saved_list m cpu k leaving) 0 after next (rw (kept, w) there) in
    let entered : get_elem? (saved_list m cpu k leaving) next ≡ some coming.1 =
      ap (get_elem? (saved_list m cpu k leaving)) (omega (arith, coming.2)) ∙ coming.3 in
    let s = switched m cpu k next leaving coming.1 in
    let runs =
      try_yield-runs m cpu k next leaving (on.running ∙ here) left chosen
      ∙ yield_to-runs m cpu k next leaving coming.1 (advance_elr_el2-fits cpu fits) left entered in
    (
      s.0,
      s.1,
      runs,
      yielded-OnTurn m s.0 cpu s.1 (try_yield-Yielded m cpu s.0 s.1 runs) queue p several on,
    )
