-- ===== src/Vm/Dispatched.antt =====
-- src/vm.rs: which device an access of the guest reaches.
use mini_visor_pi.Prelude.{
  ℕ, zero, suc, ◌+◌, ◌-◌, ◌^◌, ◌<◌, ◌≤◌, ◌≡◌, refl, ◌⊎◌, inl, inr, Bool, true, false, Option, none,
  some, List, [], ◌∷◌, ltb, leb, get_elem?, arith, All, Bool-cases, lt→ltb,
}
use mini_visor_pi.Vm.Mmio.{MmioEntry, covers, handle_mmio_read, handle_mmio_write}

module _ {W : Type 0} where
  abbrev pub Holds : MmioEntry W → ℕ → Type 0
  Holds e address = (e.base_address ≤ address) × (address < e.base_address + e.length)

  -- The range of a device ends below 2^64.
  abbrev pub Fits : MmioEntry W → Type 0
  Fits e = e.base_address + e.length < 2 ^ 64

  -- What an access gives: the answer of the first device whose range holds the address, or `missed`
  -- if no range does.
  pub data Dispatched {R : Type 0} (serve : MmioEntry W → R) (missed : R) (address : ℕ)
      : List (MmioEntry W) → R → Type 0 where
    served :
        (k : ℕ) (e : MmioEntry W) (entries : List (MmioEntry W))
        → get_elem? entries k ≡ some e
        → Holds e address
        → ((j : ℕ) (e' : MmioEntry W)
            → j < k
            → get_elem? entries j ≡ some e'
            → Holds e' address
            → ⊥)
        → Dispatched serve missed address entries (serve e)
    unclaimed :
        (entries : List (MmioEntry W))
        → ((j : ℕ) (e' : MmioEntry W) → get_elem? entries j ≡ some e' → Holds e' address → ⊥)
        → Dispatched serve missed address entries missed

  covers-cases :
      (e : MmioEntry W) (address : ℕ)
      → Fits e
      → ((covers e address ≡ some true) × Holds e address)
        ⊎ ((covers e address ≡ some false) × (Holds e address → ⊥))
  unfolding covers
  covers-cases e address fits = elim (Bool-cases (leb e.base_address address)) [
    | inr below ↦ inr (rw below refl, λ h. absurd (ground arith))
    | inl above ↦
        let small : ltb (e.base_address + e.length) (2 ^ 64) ≡ true = lt→ltb _ _ fits in
        elim (Bool-cases (ltb address (e.base_address + e.length))) [
          | inl t ↦ inl (rw (above, small, t) refl, (ground arith, ground arith))
          | inr t ↦ inr (rw (above, small, t) refl, λ h. absurd (ground arith))
        ]
  ]

  module _ {R : Type 0} (serve : MmioEntry W → R) (missed : R) (address : ℕ) where
    first-Dispatched :
        (e : MmioEntry W) (entries : List (MmioEntry W))
        → Holds e address
        → Dispatched serve missed address (e ∷ entries) (serve e)
    first-Dispatched e entries h = served 0 e (e ∷ entries) refl h (λ j e' lt. absurd (omega arith))

    behind-Dispatched :
        (e : MmioEntry W) (entries : List (MmioEntry W)) (r : R)
        → (Holds e address → ⊥)
        → Dispatched serve missed address entries r
        → Dispatched serve missed address (e ∷ entries) r
    behind-Dispatched e entries _ misses (served k x _ there h before) =
        served (suc k) x (e ∷ entries) there h earlier
      where
        earlier :
            (j : ℕ) (e' : MmioEntry W)
            → j < suc k
            → get_elem? (e ∷ entries) j ≡ some e'
            → Holds e' address
            → ⊥
        earlier zero e' lt at_j h' = let same : e ≡ e' = cc in misses (rw same h')
        earlier (suc j) e' lt at_j h' = before j e' (omega arith) at_j h'
    behind-Dispatched e entries _ misses (unclaimed _ none_of) = unclaimed (e ∷ entries) all
      where
        all :
            (j : ℕ) (e' : MmioEntry W) → get_elem? (e ∷ entries) j ≡ some e' → Holds e' address → ⊥
        all zero e' at_j h' = let same : e ≡ e' = cc in misses (rw same h')
        all (suc j) e' at_j h' = none_of j e' at_j h'

  module _ (address access_width : ℕ) (w : W) where
    abbrev pub read_by : MmioEntry W → Option (W × Option ℕ)
    read_by e = e.handler.read w (address - e.base_address) access_width

    abbrev pub write_by : ℕ → MmioEntry W → Option (W × Bool)
    write_by value e = e.handler.write w (address - e.base_address) access_width value

    read-Dispatched :
        (entries : List (MmioEntry W))
        → All Fits entries
        → Dispatched read_by
            (some (w, none))
            address
            entries
            (handle_mmio_read entries address access_width w)
    unfolding handle_mmio_read
    read-Dispatched [] fits = unclaimed [] (λ j e there. cc)
    read-Dispatched (e ∷ entries) fits = elim (covers-cases e address fits.0) [
      | inl (c, h) ↦ rw (handle_mmio_read, c) (first-Dispatched _ _ address e entries h)
      | inr (c, h) ↦
          rw (handle_mmio_read, c)
            (behind-Dispatched _ _ address e entries _ h (read-Dispatched entries fits.1))
    ]

    write-Dispatched :
        (value : ℕ) (entries : List (MmioEntry W))
        → All Fits entries
        → Dispatched
            (write_by value)
            (some (w, false))
            address
            entries
            (handle_mmio_write entries address access_width value w)
    unfolding handle_mmio_write
    write-Dispatched value [] fits = unclaimed [] (λ j e there. cc)
    write-Dispatched value (e ∷ entries) fits = elim (covers-cases e address fits.0) [
      | inl (c, h) ↦ rw (handle_mmio_write, c) (first-Dispatched _ _ address e entries h)
      | inr (c, h) ↦
          rw (handle_mmio_write, c)
            (behind-Dispatched _ _ address e entries _ h (write-Dispatched value entries fits.1))
    ]

-- Where the ranges of the devices end below 2^64, an access of a VM's guest, a read as well as a
-- write, is answered by the first device whose range holds the address, at the offset in that range,
-- and by no device, with an error and no change, exactly if no range holds it.
pub handle_mmio-Dispatched :
    {W : Type 0} (entries : List (MmioEntry W)) (address access_width value : ℕ) (w : W)
    → All Fits entries
    → Dispatched
        (read_by address access_width w)
        (some (w, none))
        address
        entries
        (handle_mmio_read entries address access_width w)
      × Dispatched
          (write_by address access_width w value)
          (some (w, false))
          address
          entries
          (handle_mmio_write entries address access_width value w)
handle_mmio-Dispatched entries address access_width value w fits = (
  read-Dispatched address access_width w entries fits,
  write-Dispatched address access_width w value entries fits,
)
