-- ===== src/Vm/Yielded.antt =====
-- src/vm.rs: what one switch of vCPUs by try_yield_to_next_vcpu did.
use mini_visor_pi.Prelude.{
  ℕ, ◌+◌, ◌<◌, ◌^◌, ◌≡◌, refl, sym, ap, ◌∙◌, ◌⊎◌, ◌≢◌, Bool, true, false, none, some, List, ltb,
  get_elem?, set, Bool-cases, inl, inr, Option-cases, lt→ltb,
}
use mini_visor_pi.Prelude.Panics.{none_ne_some, some-injective}
use mini_visor_pi.Vm.{Vm, Machines, Pcpu, get_current_vm}
use mini_visor_pi.Vm.Context.{save_context}
use mini_visor_pi.Vm.Schedule.{
  mpidr_to_affinity, find_next_same_affinity_vcpu, enter, advance_elr_el2, yield_to,
  try_yield_to_next_vcpu, yield_from,
}

-- Behind the WFI or WFE.
abbrev pub past : Pcpu → Pcpu
past cpu = record cpu { elr = cpu.elr + 4 }

abbrev pub saved_list : Machines → Pcpu → ℕ → Vm → List Vm
saved_list m cpu current leaving =
    set m.vm_list current (save_context (past cpu) (cpu.elr + 4) cpu.spsr leaving)

pub record Yielded (m : Machines) (cpu : Pcpu) (m' : Machines) (cpu' : Pcpu) : Type 0 where
  pub current : ℕ
  pub next : ℕ
  pub leaving : Vm
  pub entering : Vm
  pub was_running : get_current_vm m cpu ≡ some current
  pub left : get_elem? m.vm_list current ≡ some leaving
  pub chosen :
      find_next_same_affinity_vcpu leaving.vm_id (mpidr_to_affinity cpu.mpidr) m.vm_list ≡ some next
  pub entered : get_elem? (saved_list m cpu current leaving) next ≡ some entering
  pub saved : m'.vm_list ≡ saved_list m cpu current leaving
  pub live : cpu' ≡ (enter next entering m (past cpu)).1

-- The state that a switch leaves.
abbrev pub switched : Machines → Pcpu → ℕ → ℕ → Vm → Vm → Machines × Pcpu
switched m cpu current next leaving entering =
    enter next entering (record m { vm_list = saved_list m cpu current leaving }) (past cpu)

true_ne_false : true ≢ false
true_ne_false e = cc

advance_elr_el2-past :
    (cpu : Pcpu) → (advance_elr_el2 cpu ≡ none) ⊎ (advance_elr_el2 cpu ≡ some (past cpu))
unfolding advance_elr_el2
advance_elr_el2-past cpu = elim (Bool-cases (ltb (cpu.elr + 4) (2 ^ 64))) [
  | inl t ↦ rw t (inr refl)
  | inr t ↦ rw t (inl refl)
]

pub advance_elr_el2-fits :
    (cpu : Pcpu) → cpu.elr + 4 < 2 ^ 64 → advance_elr_el2 cpu ≡ some (past cpu)
unfolding advance_elr_el2
advance_elr_el2-fits cpu h = rw (lt→ltb _ _ h) refl

module _ (m : Machines) (cpu : Pcpu) (current next : ℕ) (leaving : Vm) where
  pub yield_to-runs :
      (entering : Vm)
      → advance_elr_el2 cpu ≡ some (past cpu)
      → get_elem? m.vm_list current ≡ some leaving
      → get_elem? (saved_list m cpu current leaving) next ≡ some entering
      → let s = switched m cpu current next leaving entering in
        yield_to current next m cpu ≡ some (s.0, s.1, true)
  unfolding yield_to
  yield_to-runs entering advances left entered = rw (advances, left, entered) refl

  yield_to-stuck :
      advance_elr_el2 cpu ≡ some (past cpu)
      → get_elem? m.vm_list current ≡ some leaving
      → get_elem? (saved_list m cpu current leaving) next ≡ none
      → yield_to current next m cpu ≡ none
  unfolding yield_to
  yield_to-stuck advances left entered = rw (advances, left, entered) refl

  yield_to-panics : advance_elr_el2 cpu ≡ none → yield_to current next m cpu ≡ none
  unfolding yield_to
  yield_to-panics overflows = rw overflows refl

  yield_to-Yielded :
      (m' : Machines) (cpu' : Pcpu) (b : Bool)
      → get_current_vm m cpu ≡ some current
      → get_elem? m.vm_list current ≡ some leaving
      → find_next_same_affinity_vcpu leaving.vm_id (mpidr_to_affinity cpu.mpidr) m.vm_list
        ≡ some next
      → yield_to current next m cpu ≡ some (m', cpu', b)
      → Yielded m cpu m' cpu'
  unfolding enter
  yield_to-Yielded m' cpu' b running left chosen h = elim (advance_elr_el2-past cpu) [
    | inl overflows ↦ absurd (none_ne_some (sym (yield_to-panics overflows) ∙ h))
    | inr advances ↦ elim (Option-cases (get_elem? (saved_list m cpu current leaving) next)) [
      | inl missing ↦ absurd (none_ne_some (sym (yield_to-stuck advances left missing) ∙ h))
      | inr (entering, entered) ↦
          let e = sym h ∙ yield_to-runs entering advances left entered in
          let s = switched m cpu current next leaving entering in
          let pair : ◌≡◌ {A = Machines × Pcpu × Bool} (m', cpu', b) (s.0, s.1, true) =
            some-injective e in
          record {
            current = current;
            next = next;
            leaving = leaving;
            entering = entering;
            was_running = running;
            left = left;
            chosen = chosen;
            entered = entered;
            saved = ap (λ (t : Machines × Pcpu × Bool). t.0.vm_list) pair;
            live = ap (λ (t : Machines × Pcpu × Bool). t.1) pair;
          }
    ]
  ]

module _ (m : Machines) (cpu : Pcpu) where
  alone :
      (current : ℕ) (vm : Vm)
      → get_current_vm m cpu ≡ some current
      → get_elem? m.vm_list current ≡ some vm
      → find_next_same_affinity_vcpu vm.vm_id (mpidr_to_affinity cpu.mpidr) m.vm_list ≡ none
      → try_yield_to_next_vcpu m cpu ≡ some (m, cpu, false)
  unfolding try_yield_to_next_vcpu yield_from
  alone current vm running there none_next = rw (running, there, yield_from, none_next) refl

  pub try_yield-runs :
      (current next : ℕ) (vm : Vm)
      → get_current_vm m cpu ≡ some current
      → get_elem? m.vm_list current ≡ some vm
      → find_next_same_affinity_vcpu vm.vm_id (mpidr_to_affinity cpu.mpidr) m.vm_list ≡ some next
      → try_yield_to_next_vcpu m cpu ≡ yield_to current next m cpu
  unfolding try_yield_to_next_vcpu yield_from
  try_yield-runs current next vm running there chosen = rw (running, there, yield_from, chosen) refl

  absent : get_current_vm m cpu ≡ none → try_yield_to_next_vcpu m cpu ≡ none
  unfolding try_yield_to_next_vcpu
  absent lost = rw lost refl

  lost :
      (current : ℕ)
      → get_current_vm m cpu ≡ some current
      → get_elem? m.vm_list current ≡ none
      → try_yield_to_next_vcpu m cpu ≡ none
  unfolding try_yield_to_next_vcpu
  lost current running there = rw (running, there) refl

  -- A yield that reports a switch made one.
  pub try_yield-Yielded :
      (m' : Machines) (cpu' : Pcpu)
      → try_yield_to_next_vcpu m cpu ≡ some (m', cpu', true)
      → Yielded m cpu m' cpu'
  try_yield-Yielded m' cpu' h = elim (Option-cases (get_current_vm m cpu)) [
    | inl nobody ↦ absurd (none_ne_some (sym (absent nobody) ∙ h))
    | inr (current, running) ↦ elim (Option-cases (get_elem? m.vm_list current)) [
      | inl gone ↦ absurd (none_ne_some (sym (lost current running gone) ∙ h))
      | inr (vm, there) ↦
          elim (Option-cases
            (find_next_same_affinity_vcpu vm.vm_id (mpidr_to_affinity cpu.mpidr) m.vm_list)) [
              | inl none_next ↦
                  let e = sym h ∙ alone current vm running there none_next in
                  let pair : ◌≡◌ {A = Machines × Pcpu × Bool} (m', cpu', true) (m, cpu, false) =
                    some-injective e in
                  absurd (true_ne_false (ap (λ (t : Machines × Pcpu × Bool). t.2) pair))
              | inr (next, chosen) ↦
                  yield_to-Yielded m cpu current next vm m' cpu' true running there chosen
                    (sym (try_yield-runs current next vm running there chosen) ∙ h)
            ]
    ]
  ]
