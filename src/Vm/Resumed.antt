-- ===== src/Vm/Resumed.antt =====
-- src/vm.rs: what a vCPU finds when its turn comes again.
use mini_visor_pi.Prelude.{
  ℕ, ◌+◌, ◌≡◌, refl, sym, ap, ◌∙◌, ◌≢◌, true, some, List, [], ◌∷◌, get_elem?, set, length, arith,
}
use mini_visor_pi.Prelude.Panics.{some-injective}
use mini_visor_pi.Vm.{Vm, Machines, Pcpu, get_current_vm}
use mini_visor_pi.Vm.Context.{
  copy_lrs, save_context, restore_context, activate, capture_current,
  activate_stage2_translation_table, vttbr_of,
}
use mini_visor_pi.Vm.Schedule.{enter, try_yield_to_next_vcpu}
use mini_visor_pi.Vm.Turns.{Unique, get_elem?-set_self, get_elem?-set_ne}
use mini_visor_pi.Vm.Yielded.{Yielded, past, saved_list, try_yield-Yielded}
use mini_visor_pi.Vm.OnTurn.{entered-Unique, entered-running}

-- What happens while the vCPU at place `a` does not run: guests of other VMs run, and vCPUs other
-- than it give way.
pub data Away (a : ℕ) (m : Machines) (cpu : Pcpu) : Machines → Pcpu → Type 0 where
  gone : Away a m cpu m cpu
  guest :
      (m1 : Machines) (cpu1 cpu2 : Pcpu)
      → Away a m cpu m1 cpu1
      → cpu2.tpidr ≡ cpu1.tpidr
      → Away a m cpu m1 cpu2
  yield :
      (m1 m2 : Machines) (cpu1 cpu2 : Pcpu)
      → Away a m cpu m1 cpu1
      → get_current_vm m1 cpu1 ≢ some a
      → try_yield_to_next_vcpu m1 cpu1 ≡ some (m2, cpu2, true)
      → Away a m cpu m2 cpu2

-- The four List Registers.
four : (xs : List ℕ) → length xs ≡ 4 → (a b c d : ℕ) × (xs ≡ a ∷ b ∷ c ∷ d ∷ [])
four [] h = absurd (omega arith)
four (a ∷ []) h = absurd (omega arith)
four (a ∷ b ∷ []) h = absurd (omega arith)
four (a ∷ b ∷ c ∷ []) h = absurd (omega arith)
four (a ∷ b ∷ c ∷ d ∷ []) h = (a, b, c, d, refl)
four (a ∷ b ∷ c ∷ d ∷ e ∷ xs) h = absurd (omega arith)

copy_lrs-all : (from to : List ℕ) → length from ≡ 4 → length to ≡ 4 → copy_lrs 4 from to ≡ from
unfolding copy_lrs
copy_lrs-all from to hf ht =
    let f = four from hf in let t = four to ht in let ef = f.4 in let et = t.4 in rw (ef, et) refl

-- A switch between other vCPUs leaves the VM alone.
kept :
    (a : ℕ) (m m' : Machines) (cpu cpu' : Pcpu) (vm : Vm)
    → Yielded m cpu m' cpu'
    → get_current_vm m cpu ≢ some a
    → get_elem? m.vm_list a ≡ some vm
    → get_elem? m'.vm_list a ≡ some vm
kept a m m' cpu cpu' vm y other there =
    let ne : y.current ≢ a = λ e. other (y.was_running ∙ ap some e) in
    ap (λ l. get_elem? l a) y.saved ∙ get_elem?-set_ne m.vm_list y.current a _ ne ∙ there

Away-kept :
    (a : ℕ) (m : Machines) (cpu : Pcpu) (vm : Vm)
    → Unique m.vm_list
    → get_elem? m.vm_list a ≡ some vm
    → (m' : Machines) (cpu' : Pcpu) → Away a m cpu m' cpu'
    → Unique m'.vm_list × (get_elem? m'.vm_list a ≡ some vm)
Away-kept a m cpu vm unique there _ _ gone = (unique, there)
Away-kept a m cpu vm unique there _ _ (guest m1 cpu1 cpu2 t id) =
    Away-kept a m cpu vm unique there m1 cpu1 t
Away-kept a m cpu vm unique there _ _ (yield m1 m2 cpu1 cpu2 t other h) =
    let before = Away-kept a m cpu vm unique there m1 cpu1 t in
    let y = try_yield-Yielded m1 cpu1 m2 cpu2 h in
    (entered-Unique m1 m2 cpu1 cpu2 y before.0, kept a m1 m2 cpu1 cpu2 vm y other before.1)

-- The saved registers of a vCPU behind the instruction that gave way, and the Stage 2 table of its VM;
-- the registers that are not saved are those of the vCPU that ran `before` it.
pub record Resumed (vm : Vm) (left before back : Pcpu) : Type 0 where
  pub same_registers : back.registers ≡ left.registers
  pub behind : back.elr ≡ left.elr + 4
  pub same_state : back.spsr ≡ left.spsr
  pub same_list_registers : back.list_registers ≡ left.list_registers
  pub same_el1 : back.el1_registers ≡ left.el1_registers
  pub inherited : back.unsaved ≡ before.unsaved
  pub own_number : back.tpidr ≡ vm.vm_id
  pub own_table : back.vttbr ≡ vttbr_of vm.stage2_table_address vm.vmid

entered-Resumed :
    (vm : Vm) (next : ℕ) (m : Machines) (left cpu back : Pcpu)
    → length left.list_registers ≡ 4
    → length vm.context.gich_lr ≡ 4
    → length cpu.list_registers ≡ 4
    → back ≡ (enter next (save_context (past left) (left.elr + 4) left.spsr vm) m (past cpu)).1
    → Resumed vm left cpu back
unfolding enter save_context restore_context activate capture_current
    activate_stage2_translation_table
entered-Resumed vm next m left cpu back hl hv hc live = record {
  same_registers = ap (λ (c : Pcpu). c.registers) live;
  behind = ap (λ (c : Pcpu). c.elr) live;
  same_state = ap (λ (c : Pcpu). c.spsr) live;
  same_list_registers =
      let out = copy_lrs-all left.list_registers vm.context.gich_lr hl hv in
      ap (λ (c : Pcpu). c.list_registers) live
      ∙ ap (λ l. copy_lrs 4 l cpu.list_registers) out
      ∙ copy_lrs-all left.list_registers cpu.list_registers hl hc;
  same_el1 = ap (λ (c : Pcpu). c.el1_registers) live;
  inherited = ap (λ (c : Pcpu). c.unsaved) live;
  own_number = ap (λ (c : Pcpu). c.tpidr) live;
  own_table = ap (λ (c : Pcpu). c.vttbr) live;
}

-- A vCPU that gave way and whose turn comes again, after any number of turns of others on its pCPU,
-- finds the registers that a switch saves as it left them (the general ones, SPSR_EL2, the four List
-- Registers and those of El1Context), the program counter behind the instruction that gave way, and
-- the number, the Stage 2 table and the VMID of its own VM. The registers that a switch does not save
-- it finds as the vCPU before it left them. The VMs have distinct numbers, and the VM and the pCPU
-- have four List Registers each.
pub try_yield-Resumed :
    (a : ℕ) (vm : Vm) (m0 m1 m2 m3 : Machines) (cpu0 cpu1 cpu2 cpu3 : Pcpu)
    → Unique m0.vm_list
    → get_elem? m0.vm_list a ≡ some vm
    → length vm.context.gich_lr ≡ 4
    → length cpu0.list_registers ≡ 4
    → length cpu2.list_registers ≡ 4
    → get_current_vm m0 cpu0 ≡ some a
    → try_yield_to_next_vcpu m0 cpu0 ≡ some (m1, cpu1, true)
    → Away a m1 cpu1 m2 cpu2
    → get_current_vm m2 cpu2 ≢ some a
    → try_yield_to_next_vcpu m2 cpu2 ≡ some (m3, cpu3, true)
    → get_current_vm m3 cpu3 ≡ some a
    → Resumed vm cpu0 cpu2 cpu3
try_yield-Resumed a vm m0 m1 m2 m3 cpu0 cpu1 cpu2 cpu3 unique at_a hv h0 h2 running out away other
      back again =
    let y = try_yield-Yielded m0 cpu0 m1 cpu1 out in
    let z = try_yield-Yielded m2 cpu2 m3 cpu3 back in
    let same : y.current ≡ a = some-injective (sym y.was_running ∙ running) in
    let mine : y.leaving ≡ vm =
      some-injective (sym y.left ∙ ap (get_elem? m0.vm_list) same ∙ at_a) in
    let kept_vm : Vm = save_context (past cpu0) (cpu0.elr + 4) cpu0.spsr vm in
    let list : m1.vm_list ≡ set m0.vm_list a kept_vm =
      y.saved ∙ ap (λ k. saved_list m0 cpu0 k y.leaving) same ∙ ap (saved_list m0 cpu0 a) mine in
    let saved : get_elem? m1.vm_list a ≡ some kept_vm =
      ap (λ l. get_elem? l a) list ∙ get_elem?-set_self m0.vm_list a kept_vm at_a in
    let later =
      Away-kept a m1 cpu1 kept_vm (entered-Unique m0 m1 cpu0 cpu1 y unique) saved m2 cpu2 away in
    let next : z.next ≡ a =
      some-injective (sym (entered-running m2 m3 cpu2 cpu3 z later.0) ∙ again) in
    let ne : z.current ≢ a = λ e. other (z.was_running ∙ ap some e) in
    let entering : z.entering ≡ kept_vm = some-injective (
      sym z.entered
      ∙ ap (get_elem? (saved_list m2 cpu2 z.current z.leaving)) next
      ∙ get_elem?-set_ne m2.vm_list z.current a _ ne
      ∙ later.1) in
    entered-Resumed vm z.next m2 cpu0 cpu2 cpu3 h0 hv h2
      (z.live ∙ ap (λ v. (enter z.next v m2 (past cpu2)).1) entering)
