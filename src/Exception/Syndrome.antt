-- ===== src/Exception/Syndrome.antt =====
-- src/exception.rs: the fields of a data abort's syndrome and address registers.
use mini_visor_pi.Prelude.{
  ℕ, zero, suc, ◌+◌, ◌-◌, ◌*◌, ◌/◌, ◌%◌, ◌^◌, ◌<◌, ◌≡◌, refl, ap, ◌∙◌, not, ◌==◌, if◌then◌else◌,
  get_or, bit_and, arith, Bool-cases, inl, inr, ==_iff,
}
use mini_visor_pi.Prelude.Bits.{shr, shl, bit_and_mask, bit_and_shifted, bit_or_parts, two_pow-pos}
use mini_visor_pi.Vm.{Pcpu}
use mini_visor_pi.Exception.{
  Trap, access_width, register_number, is_64bit_register, fault_address, register_value,
  esr_el2_iss_sas, esr_el2_iss_sf, hpfar_el2_fipa,
}

-- The field of `n` bits from place `k` on.
abbrev pub field : ℕ → ℕ → ℕ → ℕ
field x k n = x / 2 ^ k % 2 ^ n

masked : (x k n : ℕ) → bit_and x ((2 ^ n - 1) * 2 ^ k) ≡ field x k n * 2 ^ k
masked x k n =
    bit_and_shifted k x (2 ^ n - 1) ∙ ap (λ (t : ℕ). t * 2 ^ k) (bit_and_mask n (shr x k))

pub register_number-field : (esr_el2 : ℕ) → register_number esr_el2 ≡ field esr_el2 16 5
unfolding register_number
register_number-field esr_el2 = ap (λ (t : ℕ). shr t 16) (masked esr_el2 16 5) ∙ omega arith

pub access_width-field : (esr_el2 : ℕ) → access_width esr_el2 ≡ 8 * 2 ^ field esr_el2 22 2
unfolding access_width
access_width-field esr_el2 =
    let e : shr (bit_and esr_el2 esr_el2_iss_sas) 22 ≡ field esr_el2 22 2 =
      ap (λ (t : ℕ). shr t 22) (masked esr_el2 22 2) ∙ omega arith in
    rw e (widths (field esr_el2 22 2) (omega arith))
  where
    widths :
        (s : ℕ)
        → s < 4
        → (if s == 0b00 then 8 else if s == 0b01 then 16 else if s == 0b10 then 32 else 64)
          ≡ 8 * 2 ^ s
    widths zero h = refl
    widths (suc zero) h = refl
    widths (suc (suc zero)) h = refl
    widths (suc (suc (suc zero))) h = refl
    widths (suc (suc (suc (suc s)))) h = absurd (omega arith)

-- A flag of the syndrome.
pub flag-field : (x k : ℕ) → not (bit_and x (2 ^ k) == 0) ≡ (field x k 1 == 1)
flag-field x k = elim (Bool-cases (field x k 1 == 1)) [
  | inl t ↦
      let one : field x k 1 ≡ 1 = (==_iff _ _).0 t in
      let e : bit_and x (2 ^ k) ≡ 2 ^ k = digit ∙ ap (λ (d : ℕ). d * 2 ^ k) one ∙ omega arith in
      ground (arith, two_pow-pos k)
  | inr f ↦
      let none_set : field x k 1 ≡ 0 = ground arith in
      let e : bit_and x (2 ^ k) ≡ 0 = digit ∙ ap (λ (d : ℕ). d * 2 ^ k) none_set ∙ omega arith in
      ground arith
]
  where
    digit : bit_and x (2 ^ k) ≡ field x k 1 * 2 ^ k
    digit = ap (bit_and x) (omega arith) ∙ masked x k 1

pub fault_address-fields :
    (t : Trap) → fault_address t ≡ field t.hpfar_el2 4 40 * 2 ^ 12 + t.far_el2 % 2 ^ 12
unfolding fault_address
fault_address-fields t =
    let page : ℕ = field t.hpfar_el2 4 40 in
    let e : shr (bit_and t.hpfar_el2 hpfar_el2_fipa) 4 ≡ page =
      ap (λ (x : ℕ). shr x 4) (masked t.hpfar_el2 4 40) ∙ omega arith in
    let whole : shl 64 page 12 ≡ page * 2 ^ 12 = omega arith in
    let low : bit_and t.far_el2 (2 ^ 12 - 1) ≡ t.far_el2 % 2 ^ 12 = bit_and_mask 12 t.far_el2 in
    rw (e, whole, low) (bit_or_parts 12 page (t.far_el2 % 2 ^ 12) (omega arith))

pub register_value-field :
    (esr_el2 : ℕ) (cpu : Pcpu)
    → register_value esr_el2 cpu ≡ (
        if field esr_el2 15 1 == 1
        then get_or cpu.registers (field esr_el2 16 5) 0
        else get_or cpu.registers (field esr_el2 16 5) 0 % 2 ^ 32)
unfolding register_value is_64bit_register
register_value-field esr_el2 cpu =
    let wide : not (bit_and esr_el2 esr_el2_iss_sf == 0) ≡ (field esr_el2 15 1 == 1) =
      flag-field esr_el2 15 in
    let number = register_number-field esr_el2 in
    let register : ℕ = get_or cpu.registers (field esr_el2 16 5) 0 in
    let low : bit_and register (2 ^ 32 - 1) ≡ register % 2 ^ 32 = bit_and_mask 32 register in
    rw (wide, number, low) refl
