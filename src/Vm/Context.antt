-- ===== src/Vm/Context.antt =====
-- src/vm.rs and src/paging.rs: the vCPU that leaves a pCPU saved, the one that enters it restored.
use mini_visor_pi.Prelude.{ℕ, zero, suc, ◌-◌, ◌*◌, ◌^◌, List, bit_and, bit_or, get_or, set}
use mini_visor_pi.Prelude.Bits.{shl}
use mini_visor_pi.Vm.{El1Context, Vm, Pcpu, number_of_supported_lrs}

-- `for i in 0..n { to[i] = from[i]; }`.
unfoldable pub copy_lrs : ℕ → List ℕ → List ℕ → List ℕ
copy_lrs zero from to = to
copy_lrs (suc n) from to = set (copy_lrs n from to) n (get_or from n 0)

-- Register by register, as they are read and written.
unfoldable pub capture_current : Pcpu → El1Context
capture_current cpu = record {
  sctlr_el1 = cpu.el1_registers.sctlr_el1;
  ttbr0_el1 = cpu.el1_registers.ttbr0_el1;
  ttbr1_el1 = cpu.el1_registers.ttbr1_el1;
  tcr_el1 = cpu.el1_registers.tcr_el1;
  mair_el1 = cpu.el1_registers.mair_el1;
  amair_el1 = cpu.el1_registers.amair_el1;
  vbar_el1 = cpu.el1_registers.vbar_el1;
  cpacr_el1 = cpu.el1_registers.cpacr_el1;
  contextidr_el1 = cpu.el1_registers.contextidr_el1;
  esr_el1 = cpu.el1_registers.esr_el1;
  far_el1 = cpu.el1_registers.far_el1;
  par_el1 = cpu.el1_registers.par_el1;
  afsr0_el1 = cpu.el1_registers.afsr0_el1;
  afsr1_el1 = cpu.el1_registers.afsr1_el1;
  tpidr_el0 = cpu.el1_registers.tpidr_el0;
  tpidr_el1 = cpu.el1_registers.tpidr_el1;
  sp_el0 = cpu.el1_registers.sp_el0;
  sp_el1 = cpu.el1_registers.sp_el1;
  elr_el1 = cpu.el1_registers.elr_el1;
  spsr_el1 = cpu.el1_registers.spsr_el1;
  cntkctl_el1 = cpu.el1_registers.cntkctl_el1;
  cntv_ctl_el0 = cpu.el1_registers.cntv_ctl_el0;
  cntv_cval_el0 = cpu.el1_registers.cntv_cval_el0;
}

unfoldable pub activate : El1Context → Pcpu → Pcpu
activate saved cpu = record cpu {
  el1_registers = record {
    sctlr_el1 = saved.sctlr_el1;
    ttbr0_el1 = saved.ttbr0_el1;
    ttbr1_el1 = saved.ttbr1_el1;
    tcr_el1 = saved.tcr_el1;
    mair_el1 = saved.mair_el1;
    amair_el1 = saved.amair_el1;
    vbar_el1 = saved.vbar_el1;
    cpacr_el1 = saved.cpacr_el1;
    contextidr_el1 = saved.contextidr_el1;
    esr_el1 = saved.esr_el1;
    far_el1 = saved.far_el1;
    par_el1 = saved.par_el1;
    afsr0_el1 = saved.afsr0_el1;
    afsr1_el1 = saved.afsr1_el1;
    tpidr_el0 = saved.tpidr_el0;
    tpidr_el1 = saved.tpidr_el1;
    sp_el0 = saved.sp_el0;
    sp_el1 = saved.sp_el1;
    elr_el1 = saved.elr_el1;
    spsr_el1 = saved.spsr_el1;
    cntkctl_el1 = saved.cntkctl_el1;
    cntv_ctl_el0 = saved.cntv_ctl_el0;
    cntv_cval_el0 = saved.cntv_cval_el0;
  };
}

unfoldable pub save_context : Pcpu → ℕ → ℕ → Vm → Vm
save_context cpu elr_el2 spsr_el2 vm = record vm {
  context = record {
    regs = cpu.registers;
    elr_el2 = elr_el2;
    spsr_el2 = spsr_el2;
    gich_lr = copy_lrs number_of_supported_lrs cpu.list_registers vm.context.gich_lr;
    el1 = capture_current cpu;
  };
}

-- The pair (ELR_EL2, SPSR_EL2) is returned to the caller.
unfoldable pub restore_context : Vm → Pcpu → Pcpu × ℕ × ℕ
restore_context vm cpu = (
  activate vm.context.el1 (record cpu {
    registers = vm.context.regs;
    list_registers = copy_lrs number_of_supported_lrs vm.context.gich_lr cpu.list_registers;
  }),
  vm.context.elr_el2,
  vm.context.spsr_el2,
)

unfoldable pub set_initial_context : ℕ → ℕ → ℕ → Vm → Vm
set_initial_context spsr_el1h boot_entry_point boot_argument vm = record vm {
  context = record vm.context {
    regs = set vm.context.regs 0 boot_argument;
    elr_el2 = boot_entry_point;
    spsr_el2 = spsr_el1h;
  };
}

abbrev pub vttbr_vmid : ℕ
vttbr_vmid = 0xFF * 2 ^ 48

abbrev pub vttbr_baddr : ℕ
vttbr_baddr = 2 ^ 47 - 2

-- The value of VTTBR_EL2 for a table and a VMID.
unfoldable pub vttbr_of : ℕ → ℕ → ℕ
vttbr_of table_address vmid =
    bit_or (bit_and (shl 64 vmid 48) vttbr_vmid) (bit_and table_address vttbr_baddr)

unfoldable pub activate_stage2_translation_table : ℕ → ℕ → Pcpu → Pcpu
activate_stage2_translation_table table_address vmid cpu = record cpu {
  vttbr = vttbr_of table_address vmid;
}
