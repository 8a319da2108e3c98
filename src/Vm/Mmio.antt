-- ===== src/Vm/Mmio.antt =====
-- src/vm.rs: an access to a device, by the first entry of `mmio_handlers` whose range holds the
-- address. A handler is a trait object over state of its own: the type `W` is the state that the
-- handlers of one VM read and change. The outer `none` is a panic, the inner one is `Err(())`.
use mini_visor_pi.Prelude.{
  ℕ, ◌+◌, ◌-◌, ◌^◌, Bool, true, false, Option, none, some, List, [], ◌∷◌, ltb, leb, if◌then◌else◌,
}
use mini_visor_pi.GuestMemory.{translate_guest_physical_address}
use mini_visor_pi.Vm.{Vm}

pub record MmioHandler (W : Type 0) : Type 0 where
  pub read : W → ℕ → ℕ → Option (W × Option ℕ)
  pub write : W → ℕ → ℕ → ℕ → Option (W × Bool)

pub record MmioEntry (W : Type 0) : Type 0 where
  pub base_address : ℕ
  pub length : ℕ
  pub handler : MmioHandler W

-- `e.base_address <= address && address < (e.base_address + e.length)`.
unfoldable pub covers : {W : Type 0} → MmioEntry W → ℕ → Option Bool
covers e address =
    if leb e.base_address address
    then if ltb (e.base_address + e.length) (2 ^ 64)
      then some (ltb address (e.base_address + e.length))
      else none
    else some false

module _ {W : Type 0} where
  unfoldable pub handle_mmio_read : List (MmioEntry W) → ℕ → ℕ → W → Option (W × Option ℕ)
  handle_mmio_read [] address access_width w = some (w, none)
  handle_mmio_read (e ∷ entries) address access_width w =
      let rest = handle_mmio_read entries address access_width w in
      elim (covers e address) [
        | none ↦ none
        | some true ↦ e.handler.read w (address - e.base_address) access_width
        | some false ↦ rest
      ]

  unfoldable pub handle_mmio_write : List (MmioEntry W) → ℕ → ℕ → ℕ → W → Option (W × Bool)
  handle_mmio_write [] address access_width value w = some (w, false)
  handle_mmio_write (e ∷ entries) address access_width value w =
      let rest = handle_mmio_write entries address access_width value w in
      elim (covers e address) [
        | none ↦ none
        | some true ↦ e.handler.write w (address - e.base_address) access_width value
        | some false ↦ rest
      ]

unfoldable pub get_physical_address : Vm → ℕ → Option (Option ℕ)
get_physical_address vm virtual_address =
    translate_guest_physical_address virtual_address vm.ram_virtual_base_address
      vm.ram_physical_base_address vm.ram_size
