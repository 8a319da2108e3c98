-- ===== src/Vm/OnTurn.antt =====
-- src/vm.rs: the vCPU whose turn it is on a pCPU.
use mini_visor_pi.Prelude.{
  ℕ, ◌+◌, ◌%◌, ◌<◌, ◌≡◌, refl, sym, ap, ◌∙◌, ◌≢◌, true, false, some, List, ◌==◌, get_elem?, set,
  length, arith, Bool-cases, inl, inr, ==_iff,
}
use mini_visor_pi.Prelude.Panics.{some-injective}
use mini_visor_pi.Vm.{Vm, Machines, Pcpu, get_current_vm}
use mini_visor_pi.Vm.Context.{
  save_context, restore_context, activate, capture_current, activate_stage2_translation_table,
}
use mini_visor_pi.Vm.Schedule.{candidates, enter, mpidr_to_affinity}
use mini_visor_pi.Vm.Turns.{
  Unique, get_elem?-set_self, get_elem?-set_ne, find_vm_complete, candidates-set,
}
use mini_visor_pi.Vm.Queue.{find_next-successor}
use mini_visor_pi.Vm.Yielded.{Yielded, past, saved_list}

-- A saved context changes neither the number nor the pCPU of a VM.
pub saved-same :
    (cpu : Pcpu) (elr spsr : ℕ) (vm : Vm)
    → ((save_context cpu elr spsr vm).vm_id ≡ vm.vm_id)
      × ((save_context cpu elr spsr vm).owner_affinity ≡ vm.owner_affinity)
unfolding save_context
saved-same cpu elr spsr vm = (refl, refl)

set-Unique :
    (vms : List Vm) (k : ℕ) (v w : Vm)
    → get_elem? vms k ≡ some v
    → w.vm_id ≡ v.vm_id
    → Unique vms
    → Unique (set vms k w)
set-Unique vms k v w at_k same unique i j a b at_i at_j ids =
    let (a', old_i, ei) = before i a at_i in
    let (b', old_j, ej) = before j b at_j in unique i j a' b' old_i old_j (ei ∙ ids ∙ sym ej)
  where
    before :
        (i : ℕ) (a : Vm)
        → get_elem? (set vms k w) i ≡ some a
        → (a' : Vm) × (get_elem? vms i ≡ some a') × (a'.vm_id ≡ a.vm_id)
    before i a h = elim (Bool-cases (k == i)) [
      | inl t ↦
          let e : k ≡ i = (==_iff k i).0 t in
          let now : w ≡ a =
            some-injective
              (sym (get_elem?-set_self vms k w at_k) ∙ ap (get_elem? (set vms k w)) e ∙ h) in
          (v, ap (get_elem? vms) (sym e) ∙ at_k, sym same ∙ ap (λ (t : Vm). t.vm_id) now)
      | inr f ↦
          let e : k ≢ i = λ e. true_ne_false (sym ((==_iff k i).1 e) ∙ f) in
          (a, sym (get_elem?-set_ne vms k i w e) ∙ h, refl)
    ]
      where
        true_ne_false : true ≢ false
        true_ne_false e = cc

-- The vCPU at place `p` of the pCPU's queue is running.
pub record OnTurn (queue : List ℕ) (p : ℕ) (m : Machines) (cpu : Pcpu) : Type 0 where
  pub unique : Unique m.vm_list
  pub waiting : candidates (mpidr_to_affinity cpu.mpidr) m.vm_list 0 ≡ queue
  pub running : get_current_vm m cpu ≡ get_elem? queue p

-- The VM that the pCPU enters is the current one.
module _ (m m' : Machines) (cpu cpu' : Pcpu) (y : Yielded m cpu m' cpu') where
  live-registers : (cpu'.tpidr ≡ y.entering.vm_id) × (cpu'.mpidr ≡ cpu.mpidr)
  unfolding enter restore_context activate capture_current activate_stage2_translation_table
  live-registers = (ap (λ (c : Pcpu). c.tpidr) y.live, ap (λ (c : Pcpu). c.mpidr) y.live)

  saved-Unique : Unique m.vm_list → Unique (saved_list m cpu y.current y.leaving)
  saved-Unique =
      set-Unique m.vm_list y.current y.leaving _ y.left
        (saved-same (past cpu) (cpu.elr + 4) cpu.spsr y.leaving).0

  pub entered-Unique : Unique m.vm_list → Unique m'.vm_list
  entered-Unique unique = let e = y.saved in rw e (saved-Unique unique)

  pub entered-running : Unique m.vm_list → get_current_vm m' cpu' ≡ some y.next
  unfolding get_current_vm
  entered-running unique =
      let list = y.saved in
      let id = live-registers.0 in
      let found =
        find_vm_complete (λ vm. vm.vm_id == y.entering.vm_id) (saved_list m cpu y.current y.leaving)
          0 y.next y.entering y.entered (ground arith)
          (λ e w there passes.
            saved-Unique unique e y.next w y.entering there y.entered ((==_iff _ _).0 passes)) in
      rw (list, id) (found ∙ ap some (omega arith))

  entered-candidates :
      candidates (mpidr_to_affinity cpu'.mpidr) m'.vm_list 0
      ≡ candidates (mpidr_to_affinity cpu.mpidr) m.vm_list 0
  entered-candidates =
      let list = y.saved in
      let same = live-registers.1 in
      rw (list, same)
        (candidates-set (mpidr_to_affinity cpu.mpidr) m.vm_list 0 y.current y.leaving _ y.left
          (saved-same (past cpu) (cpu.elr + 4) cpu.spsr y.leaving).1)

  pub yielded-OnTurn :
      (queue : List ℕ) (p : ℕ)
      → 1 < length queue
      → OnTurn queue p m cpu
      → OnTurn queue ((p + 1) % length queue) m' cpu'
  yielded-OnTurn queue p several on =
      let here : get_elem? queue p ≡ some y.current = sym on.running ∙ y.was_running in
      let w = on.waiting in
      let next =
        find_next-successor (mpidr_to_affinity cpu.mpidr) m.vm_list p y.current y.leaving on.unique
          (rw w several) (rw w here) y.left in
      record {
        unique = entered-Unique on.unique;
        waiting = entered-candidates ∙ on.waiting;
        running =
            entered-running on.unique
            ∙ sym y.chosen
            ∙ next
            ∙ ap (λ q. get_elem? q ((p + 1) % length q)) on.waiting;
      }
