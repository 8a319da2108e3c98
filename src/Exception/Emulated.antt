-- ===== src/Exception/Emulated.antt =====
-- src/exception.rs: an access of the guest to a device, from the trap to the guest's registers.
use mini_visor_pi.Prelude.{
  ℕ, ◌+◌, ◌*◌, ◌%◌, ◌^◌, ◌<◌, ◌≡◌, refl, sym, ap, ◌∙◌, Bool, true, false, not, Option, none, some,
  List, ◌==◌, if◌then◌else◌, get_or, set, bit_and, arith, Bool-cases, inl, inr, ==_iff,
}
use mini_visor_pi.Prelude.Panics.{◌>>=◌}
use mini_visor_pi.Vm.{Pcpu}
use mini_visor_pi.Vm.Mmio.{MmioEntry, handle_mmio_read, handle_mmio_write}
use mini_visor_pi.Vm.Schedule.{advance_elr_el2}
use mini_visor_pi.Vm.Yielded.{past, advance_elr_el2-fits}
use mini_visor_pi.Exception.{
  Trap, access_width, register_number, is_write_access, fault_address, register_value,
  esr_el2_iss_isv, emulate_read, emulate_write, load, emulate, data_abort_handler,
}
use mini_visor_pi.Exception.Syndrome.{
  field, register_number-field, access_width-field, flag-field, fault_address-fields,
  register_value-field,
}

-- The access that a trap describes, from the fields of its registers.
abbrev pub address_of : Trap → ℕ
address_of t = field t.hpfar_el2 4 40 * 2 ^ 12 + t.far_el2 % 2 ^ 12

abbrev pub width_of : Trap → ℕ
width_of t = 8 * 2 ^ field t.esr_el2 22 2

abbrev pub target_of : Trap → ℕ
target_of t = field t.esr_el2 16 5

-- A 32-bit register gives its low half.
abbrev pub value_of : Trap → Pcpu → ℕ
value_of t cpu =
    if field t.esr_el2 15 1 == 1
    then get_or cpu.registers (target_of t) 0
    else get_or cpu.registers (target_of t) 0 % 2 ^ 32

not-true : (b : Bool) → not b ≡ true → b ≡ false
not-true true h = sym h
not-true false h = refl

module _ {W : Type 0} (entries : List (MmioEntry W)) (t : Trap) (w : W) (cpu : Pcpu) where
  abbrev pub stores : Option (W × Bool)
  stores = handle_mmio_write entries (address_of t) (width_of t) (value_of t cpu) w

  abbrev pub loads : Option (W × Option ℕ)
  loads = handle_mmio_read entries (address_of t) (width_of t) w

  -- What the handler makes of a device's answer.
  pub data Emulated : Option (W × Pcpu) → Type 0 where
    stored :
        (w' : W)
        → field t.esr_el2 6 1 ≡ 1
        → stores ≡ some (w', true)
        → Emulated (some (w', past cpu))
    loaded :
        (w' : W) (value : ℕ)
        → field t.esr_el2 6 1 ≡ 0
        → loads ≡ some (w', some value)
        → Emulated
            (some (w', past (record cpu { registers = set cpu.registers (target_of t) value })))
    store_panicked : field t.esr_el2 6 1 ≡ 1 → stores ≡ none → Emulated none
    store_failed : (w' : W) → field t.esr_el2 6 1 ≡ 1 → stores ≡ some (w', false) → Emulated none
    load_panicked : field t.esr_el2 6 1 ≡ 0 → loads ≡ none → Emulated none
    load_failed : (w' : W) → field t.esr_el2 6 1 ≡ 0 → loads ≡ some (w', none) → Emulated none

  abbrev pub run : Option (W × Pcpu)
  run = data_abort_handler entries t w cpu

  abbrev finished : Option (W × Pcpu) → Option (W × Pcpu)
  finished r = r >>= λ r. advance_elr_el2 r.1 >>= λ past. some (r.0, past)

  abbrev after_store : Option (W × Bool) → Option (W × Pcpu)
  after_store none = none
  after_store (some (w', true)) = some (w', cpu)
  after_store (some (w', false)) = none

  abbrev after_load : Option (W × Option ℕ) → Option (W × Pcpu)
  after_load none = none
  after_load (some (w', none)) = none
  after_load (some (w', some value)) =
      some (w', record cpu { registers = set cpu.registers (target_of t) value })

  after_store-eq :
      (r : Option (W × Bool)) → (r >>= λ r. if r.1 then some (r.0, cpu) else none) ≡ after_store r
  after_store-eq none = refl
  after_store-eq (some (w', true)) = refl
  after_store-eq (some (w', false)) = refl

  after_load-eq :
      (r : Option (W × Option ℕ)) → (r >>= λ r. load entries t.esr_el2 r cpu) ≡ after_load r
  after_load-eq none = refl
  after_load-eq (some (w', none)) = refl
  after_load-eq (some (w', some value)) =
      let number = register_number-field t.esr_el2 in rw (load, number) refl

  finished-some :
      (w' : W) (c : Pcpu) → c.elr + 4 < 2 ^ 64 → finished (some (w', c)) ≡ some (w', past c)
  finished-some w' c fits = rw (advance_elr_el2-fits c fits) refl

  valid-runs : field t.esr_el2 24 1 ≡ 1 → run ≡ finished (emulate entries t w cpu)
  unfolding data_abort_handler
  valid-runs valid =
      let set_bit : (bit_and t.esr_el2 esr_el2_iss_isv == 0) ≡ false =
        not-true _ (flag-field t.esr_el2 24 ∙ (==_iff _ _).1 valid) in
      rw (data_abort_handler, set_bit) refl

  same_access :
      (fault_address t ≡ address_of t)
      × (access_width t.esr_el2 ≡ width_of t)
      × (register_number t.esr_el2 ≡ target_of t)
      × (register_value t.esr_el2 cpu ≡ value_of t cpu)
  same_access = (
    fault_address-fields t,
    access_width-field t.esr_el2,
    register_number-field t.esr_el2,
    register_value-field t.esr_el2 cpu,
  )

  write-runs : field t.esr_el2 6 1 ≡ 1 → emulate entries t w cpu ≡ after_store stores
  unfolding emulate_write is_write_access
  write-runs is_write =
      let flag : is_write_access t.esr_el2 ≡ true =
        flag-field t.esr_el2 6 ∙ (==_iff _ _).1 is_write in
      let address = same_access.0 in
      let width = same_access.1 in
      let value = same_access.3 in
      rw (emulate, flag, emulate_write, address, width, value) (after_store-eq stores)

  read-runs : field t.esr_el2 6 1 ≡ 0 → emulate entries t w cpu ≡ after_load loads
  unfolding emulate_read is_write_access
  read-runs is_read =
      let flag : is_write_access t.esr_el2 ≡ false = flag-field t.esr_el2 6 ∙ ground arith in
      let address = same_access.0 in
      let width = same_access.1 in
      rw (emulate, flag, emulate_read, address, width) (after_load-eq loads)

  module _ (valid : field t.esr_el2 24 1 ≡ 1) (fits : cpu.elr + 4 < 2 ^ 64) where
    store_runs :
        (r : Option (W × Bool))
        → field t.esr_el2 6 1 ≡ 1
        → stores ≡ r
        → run ≡ finished (after_store r)
    store_runs r is_write e =
        valid-runs valid ∙ ap finished (write-runs is_write ∙ ap after_store e)

    load_runs :
        (r : Option (W × Option ℕ))
        → field t.esr_el2 6 1 ≡ 0
        → loads ≡ r
        → run ≡ finished (after_load r)
    load_runs r is_read e = valid-runs valid ∙ ap finished (read-runs is_read ∙ ap after_load e)

    write-Emulated : (r : Option (W × Bool)) → field t.esr_el2 6 1 ≡ 1 → stores ≡ r → Emulated run
    write-Emulated none is_write e =
        let runs : run ≡ none = store_runs none is_write e in rw runs (store_panicked is_write e)
    write-Emulated (some (w', true)) is_write e =
        let runs : run ≡ some (w', past cpu) =
          store_runs (some (w', true)) is_write e ∙ finished-some w' cpu fits in
        rw runs (stored w' is_write e)
    write-Emulated (some (w', false)) is_write e =
        let runs : run ≡ none = store_runs (some (w', false)) is_write e in
        rw runs (store_failed w' is_write e)

    read-Emulated : (r : Option (W × Option ℕ)) → field t.esr_el2 6 1 ≡ 0 → loads ≡ r → Emulated run
    read-Emulated none is_read e =
        let runs : run ≡ none = load_runs none is_read e in rw runs (load_panicked is_read e)
    read-Emulated (some (w', none)) is_read e =
        let runs : run ≡ none = load_runs (some (w', none)) is_read e in
        rw runs (load_failed w' is_read e)
    read-Emulated (some (w', some value)) is_read e =
        let loaded_cpu : Pcpu = record cpu { registers = set cpu.registers (target_of t) value } in
        let runs : run ≡ some (w', past loaded_cpu) =
          load_runs (some (w', some value)) is_read e ∙ finished-some w' loaded_cpu fits in
        rw runs (loaded w' value is_read e)

-- With a valid syndrome and a program counter 4 below 2^64, a trapped access of the guest is the one
-- that the fields of ESR_EL2, HPFAR_EL2 and FAR_EL2 describe: a write hands the guest's register, its
-- low half if it is a 32-bit one, to the VM's devices, a read puts their answer in the register and
-- changes no other, both of the access's width and at its guest-physical address, and the guest goes
-- on behind the instruction. The handler panics exactly when the devices panic or report an error.
pub data_abort_handler-Emulated :
    {W : Type 0} (entries : List (MmioEntry W)) (t : Trap) (w : W) (cpu : Pcpu)
    → field t.esr_el2 24 1 ≡ 1
    → cpu.elr + 4 < 2 ^ 64
    → Emulated entries t w cpu (data_abort_handler entries t w cpu)
data_abort_handler-Emulated entries t w cpu valid fits =
    elim (Bool-cases (field t.esr_el2 6 1 == 1)) [
      | inl yes_write ↦
          write-Emulated entries t w cpu valid fits (stores entries t w cpu)
            ((==_iff _ _).0 yes_write) refl
      | inr no_write ↦
          read-Emulated entries t w cpu valid fits (loads entries t w cpu) (ground arith) refl
    ]
