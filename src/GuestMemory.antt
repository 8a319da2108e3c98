-- ===== src/GuestMemory.antt =====
-- src/guest_memory.rs: an address of the guest's RAM to the address that backs it. A sum past 2^64
-- panics, as in a build with overflow checks: the outer `none`.
use mini_visor_pi.Prelude.{
  ℕ, ◌+◌, ◌-◌, ◌^◌, ◌<◌, ◌≤◌, ◌≡◌, ◌≢◌, true, ◌&&◌, Option, none, some, ltb, leb, if◌then◌else◌,
  arith, Bool-cases, inl, inr,
}

unfoldable pub translate_guest_physical_address : ℕ → ℕ → ℕ → ℕ → Option (Option ℕ)
translate_guest_physical_address virtual_address virtual_base physical_base ram_size =
    if ltb (virtual_base + ram_size) (2 ^ 64)
    then if leb virtual_base virtual_address && ltb virtual_address (virtual_base + ram_size)
      then if ltb (virtual_address - virtual_base + physical_base) (2 ^ 64)
        then some (some (virtual_address - virtual_base + physical_base))
        else none
      else some none
    else none

-- What a translation gives: the byte at the same distance from the other base, or nothing for an
-- address outside the window.
pub data Translated (virtual_base physical_base ram_size address : ℕ)
    : Option (Option ℕ) → Type 0 where
  inside :
      (d : ℕ)
      → d < ram_size
      → address ≡ virtual_base + d
      → Translated virtual_base physical_base ram_size address (some (some (physical_base + d)))
  outside :
      ((d : ℕ) → d < ram_size → address ≢ virtual_base + d)
      → Translated virtual_base physical_base ram_size address (some none)

-- For a RAM window that ends below 2^64 in both address spaces, an address of the window is
-- translated to the byte at the same distance from the start of the RAM that backs it, any other
-- address to none, and the translation does not panic.
pub translate-Translated :
    (address virtual_base physical_base ram_size : ℕ)
    → virtual_base + ram_size < 2 ^ 64
    → physical_base + ram_size ≤ 2 ^ 64
    → Translated virtual_base physical_base ram_size address
        (translate_guest_physical_address address virtual_base physical_base ram_size)
unfolding translate_guest_physical_address
translate-Translated address virtual_base physical_base ram_size fits backed =
    elim (Bool-cases (leb virtual_base address && ltb address (virtual_base + ram_size))) [
      | inl t ↦
          let there : virtual_base ≤ address = ground arith in
          let d : ℕ = address - virtual_base in
          let short : d < ram_size = ground arith in
          let e : address - virtual_base + physical_base ≡ physical_base + d = omega arith in
          let ok_v : ltb (virtual_base + ram_size) (2 ^ 64) ≡ true = ground arith in
          let ok_p : ltb (physical_base + d) (2 ^ 64) ≡ true = ground arith in
          rw (ok_v, t, e, ok_p) (inside d short (omega arith))
      | inr t ↦
          let ok_v : ltb (virtual_base + ram_size) (2 ^ 64) ≡ true = ground arith in
          rw (ok_v, t) (outside (λ d short here. absurd (ground arith)))
    ]
