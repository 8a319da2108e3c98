-- ===== src/Prelude/Bits/Step.antt =====
-- `&` and `|` of two words in terms of their halves and their lowest digits.
use Prim.Native.Nat.{
  ℕ, zero, suc, ◌+◌, ◌-◌, ◌*◌, ◌/◌, ◌%◌, ◌≤◌, min, max, bit_and, bit_or, digits, bitwise,
  bit_and-bitwise, bit_or-bitwise,
}
use mathlib.Core.Path.{◌≡◌, refl, ap, ◌∙◌}
use native.Mathlib.Omega.{arith}

module _ (on_zero : ℕ → ℕ) (digit : ℕ → ℕ → ℕ) where
  abbrev run : ℕ → ℕ → ℕ → ℕ
  run fuel x y = digits on_zero digit fuel x y

  -- One more unit of fuel changes nothing once there is enough,
  spare : (fuel x y : ℕ) → x ≤ fuel → run (suc fuel) x y ≡ run fuel x y
  spare (suc fuel) (suc x) y enough =
      ap (λ (t : ℕ). t * 2 + digit (suc x % 2) (y % 2))
        (spare fuel (suc x / 2) (y / 2) (omega arith))
  spare zero (suc x) y enough = absurd (omega arith)
  spare zero zero y enough = refl
  spare (suc fuel) zero y enough = refl

  -- nor do `k` more.
  padded : (k fuel x y : ℕ) → x ≤ fuel → run (k + fuel) x y ≡ run fuel x y
  padded zero fuel x y enough = let same : zero + fuel ≡ fuel = omega arith in rw same refl
  padded (suc k) fuel x y enough =
      let next : suc k + fuel ≡ suc (k + fuel) = omega arith in
      rw next (spare (k + fuel) x y (omega arith) ∙ padded k fuel x y enough)

  halves :
      (x y : ℕ)
      → bitwise on_zero digit (suc x) y
        ≡ digit (suc x % 2) (y % 2) + 2 * bitwise on_zero digit (suc x / 2) (y / 2)
  halves x y =
      let half = suc x / 2 in
      let fuel : x - half + half ≡ x = omega arith in
      let enough = padded (x - half) half half (y / 2) (omega arith) in
      omega (arith, ap (λ t. run t half (y / 2)) fuel, enough)

pub bit_or_step : (x y : ℕ) → bit_or x y ≡ max (x % 2) (y % 2) + 2 * bit_or (x / 2) (y / 2)
bit_or_step zero y = simp bit_or-bitwise (omega arith)
bit_or_step (suc x) y = simp bit_or-bitwise (halves (λ t. t) max x y)

pub bit_and_step : (x y : ℕ) → bit_and x y ≡ min (x % 2) (y % 2) + 2 * bit_and (x / 2) (y / 2)
bit_and_step zero y = simp bit_and-bitwise (omega arith)
bit_and_step (suc x) y = simp bit_and-bitwise (halves (λ t. 0) min x y)
