-- ===== src/Exception.antt =====
-- src/exception.rs: what the hypervisor does when the guest traps. `none` is a panic.
use mini_visor_pi.Prelude.{
  ℕ, zero, suc, ◌+◌, ◌-◌, ◌*◌, ◌/◌, ◌%◌, ◌^◌, Bool, true, false, not, Option, none, some, List, [],
  ◌∷◌, ◌++◌, ◌==◌, leb, ltb, if◌then◌else◌, get_or, get_elem?, set, bit_and, bit_or,
}
use mini_visor_pi.Prelude.Bits.{shr, shl}
use mini_visor_pi.Prelude.Panics.{◌>>=◌}
use mini_visor_pi.Vm.{Machines, Pcpu, get_current_vm}
use mini_visor_pi.Vm.Mmio.{MmioEntry, handle_mmio_read, handle_mmio_write}
use mini_visor_pi.Vm.Schedule.{advance_elr_el2, try_yield_to_next_vcpu}
pub mod Syndrome
pub mod Emulated

-- ESR_EL2, HPFAR_EL2 and FAR_EL2 at the trap.
pub record Trap : Type 0 where
  pub esr_el2 : ℕ
  pub hpfar_el2 : ℕ
  pub far_el2 : ℕ

abbrev pub esr_el2_iss_isv : ℕ
esr_el2_iss_isv = 2 ^ 24

abbrev pub esr_el2_iss_sas : ℕ
esr_el2_iss_sas = 0b11 * 2 ^ 22

abbrev pub esr_el2_iss_srt : ℕ
esr_el2_iss_srt = 0b11111 * 2 ^ 16

abbrev pub esr_el2_iss_sf : ℕ
esr_el2_iss_sf = 2 ^ 15

abbrev pub esr_el2_iss_wnr : ℕ
esr_el2_iss_wnr = 2 ^ 6

abbrev pub hpfar_el2_fipa : ℕ
hpfar_el2_fipa = (2 ^ 40 - 1) * 2 ^ 4

unfoldable pub access_width : ℕ → ℕ
access_width esr_el2 =
    let sas = shr (bit_and esr_el2 esr_el2_iss_sas) 22 in
    if sas == 0b00 then 8 else if sas == 0b01 then 16 else if sas == 0b10 then 32 else 64

unfoldable pub register_number : ℕ → ℕ
register_number esr_el2 = shr (bit_and esr_el2 esr_el2_iss_srt) 16

unfoldable pub is_64bit_register : ℕ → Bool
is_64bit_register esr_el2 = not (bit_and esr_el2 esr_el2_iss_sf == 0)

unfoldable pub is_write_access : ℕ → Bool
is_write_access esr_el2 = not (bit_and esr_el2 esr_el2_iss_wnr == 0)

-- The guest-physical address of the access.
unfoldable pub fault_address : Trap → ℕ
fault_address t =
    bit_or (shl 64 (shr (bit_and t.hpfar_el2 hpfar_el2_fipa) 4) 12) (bit_and t.far_el2 (2 ^ 12 - 1))

unfoldable pub register_value : ℕ → Pcpu → ℕ
register_value esr_el2 cpu =
    let register = get_or cpu.registers (register_number esr_el2) 0 in
    if is_64bit_register esr_el2 then register else bit_and register (2 ^ 32 - 1)

module _ {W : Type 0} (entries : List (MmioEntry W)) where
  unfoldable pub emulate_write : Trap → W → Pcpu → Option (W × Pcpu)
  emulate_write t w cpu = do
    r ←
        handle_mmio_write entries (fault_address t) (access_width t.esr_el2)
          (register_value t.esr_el2 cpu) w
    (if r.1 then some (r.0, cpu) else none)

  abbrev pub load : ℕ → W × Option ℕ → Pcpu → Option (W × Pcpu)
  load esr_el2 r cpu = elim r.1 [
    | some value ↦
        some (r.0, record cpu { registers = set cpu.registers (register_number esr_el2) value })
    | none ↦ none
  ]

  unfoldable pub emulate_read : Trap → W → Pcpu → Option (W × Pcpu)
  emulate_read t w cpu = do
    r ← handle_mmio_read entries (fault_address t) (access_width t.esr_el2) w
    load t.esr_el2 r cpu

  abbrev pub emulate : Trap → W → Pcpu → Option (W × Pcpu)
  emulate t w cpu =
      if is_write_access t.esr_el2 then emulate_write t w cpu else emulate_read t w cpu

  unfoldable pub data_abort_handler : Trap → W → Pcpu → Option (W × Pcpu)
  data_abort_handler t w cpu =
      if bit_and t.esr_el2 esr_el2_iss_isv == 0
      then none
      else (do r ← emulate t w cpu; past ← advance_elr_el2 r.1; some (r.0, past))

-- The calls by which the handler of WFI and WFE polls the devices.
pub data Poll : Type 0 where
  uart_interrupt net_rx flush_tx : Poll

-- LAST_WFI_POLL, the generic timer, and whether the network wants polling.
pub record Clock : Type 0 where
  pub last_wfi_poll : List ℕ
  pub cntpct : ℕ
  pub cntfrq : ℕ
  pub net_polling : Bool

-- `now.wrapping_sub(last)`.
abbrev pub elapsed : ℕ → ℕ → ℕ
elapsed now last = (now + 2 ^ 64 - last) % 2 ^ 64

unfoldable pub poll : ℕ → Clock → Clock × List Poll
poll mpidr c =
    let cpu = bit_and mpidr 0xFF in
    elim (get_elem? c.last_wfi_poll cpu) [
      | none ↦ (c, [])
      | some last ↦
          if leb (c.cntfrq / 1000) (elapsed c.cntpct last)
          then (
            record c { last_wfi_poll = set c.last_wfi_poll cpu c.cntpct },
            uart_interrupt ∷ (if c.net_polling then net_rx ∷ flush_tx ∷ [] else flush_tx ∷ []),
          )
          else (c, [])
    ]

-- `get_current_vm().get_pl011_mmio()` in a round of polling.
unfoldable pub polls_current_vm : List Poll → Machines → Pcpu → Option (Unit {0})
polls_current_vm [] m cpu = some tt
polls_current_vm (p ∷ ps) m cpu = do _ ← get_current_vm m cpu; some tt

unfoldable pub resume_here : Machines × Pcpu × Bool → Option (Machines × Pcpu)
resume_here r = if r.2 then some (r.0, r.1) else (do past ← advance_elr_el2 r.1; some (r.0, past))

unfoldable pub wfx_handler : Clock → Machines → Pcpu → Option (Clock × List Poll × Machines × Pcpu)
wfx_handler c m cpu = do
  let polled = poll cpu.mpidr c
  _ ← polls_current_vm polled.1 m cpu
  r ← try_yield_to_next_vcpu m cpu
  resumed ← resume_here r
  some (polled.0, polled.1, resumed.0, resumed.1)

-- The classes of exceptions that synchronous_handler tells apart. Any other panics.
pub data Class : Type 0 where
  data_abort wfx smc64 other : Class

unfoldable pub class_of : ℕ → Class
class_of esr_el2 =
    let ec = bit_and esr_el2 (0b111111 * 2 ^ 26) in
    if ec == 0b100100 * 2 ^ 26
    then data_abort
    else if ec == 0b000001 * 2 ^ 26
    then wfx
    else if ec == 0b010111 * 2 ^ 26
    then smc64
    else other
