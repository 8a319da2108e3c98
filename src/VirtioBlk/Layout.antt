-- ===== src/VirtioBlk/Layout.antt =====
-- src/mmio/virtio_blk.rs: where the rings lie.
use mini_visor_pi.Prelude.{
  ℕ, zero, suc, ◌+◌, ◌-◌, ◌*◌, ◌/◌, ◌%◌, ◌^◌, ◌<◌, ◌≤◌, ◌≡◌, refl, ap, ◌∙◌, true, false, some, ltb,
  arith, bit_and, lt→ltb,
}
use native.Mathlib.Nat.{mod-eq_of_lt, div-mul-le_self, lt-div-mul-add}
use mini_visor_pi.Prelude.Bits.{
  complement, bit_and_step, two_pow_suc, two_pow-pos, shr-suc, bit_and_mask,
}
use mini_visor_pi.VirtioBlk.Registers.{
  page_behind, avail_ring_of, used_ring_of, checked_sub, checked_add, checked_mul, then_some,
}

-- `x & !(2^k - 1)`.
rounded_down :
    (k w x : ℕ) → k ≤ w → x < 2 ^ w → bit_and x (complement w (2 ^ k - 1)) ≡ x / 2 ^ k * 2 ^ k
rounded_down zero w x le h =
    let all : complement w (2 ^ 0 - 1) ≡ 2 ^ w - 1 = omega arith in
    let low : x % 2 ^ w ≡ x = mod-eq_of_lt h in rw all (bit_and_mask w x ∙ low ∙ omega arith)
rounded_down (suc k) zero x le h = absurd (omega arith)
rounded_down (suc k) (suc w) x le h =
    let half : complement (suc w) (2 ^ suc k - 1) / 2 ≡ complement w (2 ^ k - 1) =
      omega (arith, two_pow_suc w, two_pow_suc k, two_pow-pos k, two_pow-pos w) in
    omega (
      arith,
      bit_and_step x (complement (suc w) (2 ^ suc k - 1)),
      ap (bit_and (x / 2)) half,
      rounded_down k w (x / 2) (omega arith) (omega (arith, two_pow_suc w)),
      two_pow_suc k,
      two_pow_suc w,
      two_pow-pos k,
      shr-suc x k,
      ap (λ (t : ℕ). t * 2 ^ suc k) (shr-suc x k),
      ap (λ (t : ℕ). x / 2 / 2 ^ k * t) (two_pow_suc k),
    )

checked_add-fits : (a b : ℕ) → a + b < 2 ^ 64 → checked_add a b ≡ some (a + b)
checked_add-fits a b h = let e : ltb (a + b) (2 ^ 64) ≡ true = lt→ltb _ _ h in rw e refl

checked_mul-fits : (a b : ℕ) → a * b < 2 ^ 64 → checked_mul a b ≡ some (a * b)
checked_mul-fits a b h = let e : ltb (a * b) (2 ^ 64) ≡ true = lt→ltb _ _ h in rw e refl

checked_sub-fits : (a b : ℕ) → b ≤ a → checked_sub a b ≡ some (a - b)
checked_sub-fits a b h = let e : ltb a b ≡ false = ground arith in rw e refl

-- The first page behind an address, for pages of 2^k bytes.
page_behind-page :
    (k past : ℕ)
    → k ≤ 64
    → 0 < past
    → past + 2 ^ k < 2 ^ 64
    → page_behind past (2 ^ k) ≡ some ((past - 1) / 2 ^ k * 2 ^ k + 2 ^ k)
unfolding page_behind
page_behind-page k past hk hp fits =
    let last = checked_sub-fits past 1 hp in
    let mask = checked_sub-fits (2 ^ k) 1 (two_pow-pos k) in
    let down = rounded_down k 64 (past - 1) hk (omega arith) in
    let low = div-mul-le_self (past - 1) (2 ^ k) in
    let sum = checked_add-fits ((past - 1) / 2 ^ k * 2 ^ k) (2 ^ k) (omega arith) in
    ap
      (λ o. then_some o (λ last.
        then_some (checked_sub (2 ^ k) 1)
          (λ mask. checked_add (bit_and last (complement 64 mask)) (2 ^ k))))
      last
    ∙ ap (λ o. then_some o (λ mask. checked_add (bit_and (past - 1) (complement 64 mask)) (2 ^ k)))
        mask
    ∙ ap (λ t. checked_add t (2 ^ k)) down
    ∙ sum

-- For pages of 2^k bytes, and a queue that ends, with a page, below 2^64, the available ring follows the
-- descriptors, the used ring starts at a page boundary behind the available ring, and less than a page
-- lies between them.
pub used_ring_of-page :
    (k descriptor queue_size : ℕ)
    → k ≤ 64
    → descriptor + 16 * queue_size + 2 * (3 + queue_size) + 2 ^ k < 2 ^ 64
    → (avail used page : ℕ) × (avail_ring_of descriptor queue_size ≡ some avail)
      × (used_ring_of avail queue_size (2 ^ k) ≡ some used)
      × (avail ≡ descriptor + 16 * queue_size)
      × (used ≡ page * 2 ^ k)
      × (avail + 2 * (3 + queue_size) ≤ used)
      × (used < avail + 2 * (3 + queue_size) + 2 ^ k)
unfolding avail_ring_of used_ring_of
used_ring_of-page k descriptor queue_size hk fits =
    let past : ℕ = descriptor + 16 * queue_size + 2 * (3 + queue_size) in
    let q : ℕ = (past - 1) / 2 ^ k in
    let low = div-mul-le_self (past - 1) (2 ^ k) in
    let avail : ℕ = descriptor + 16 * queue_size in
    let three = checked_add-fits 3 queue_size (omega arith) in
    let bytes = checked_mul-fits 2 (3 + queue_size) (omega arith) in
    let behind = checked_add-fits avail (2 * (3 + queue_size)) (omega arith) in
    let ring =
      ap
        (λ o. then_some o (λ n.
          then_some (checked_mul 2 n)
            (λ bytes. then_some (checked_add avail bytes) (λ past. page_behind past (2 ^ k)))))
        three
      ∙ ap
          (λ o.
            then_some o
              (λ bytes. then_some (checked_add avail bytes) (λ past. page_behind past (2 ^ k))))
          bytes
      ∙ ap (λ o. then_some o (λ past. page_behind past (2 ^ k))) behind
      ∙ page_behind-page k past hk (omega arith) (omega arith) in
    let high : past - 1 < (past - 1) / 2 ^ k * 2 ^ k + 2 ^ k = lt-div-mul-add (two_pow-pos k) in
    (
      descriptor + 16 * queue_size,
      q * 2 ^ k + 2 ^ k,
      q + 1,
      ap (λ o. then_some o (checked_add descriptor)) (checked_mul-fits 16 queue_size (omega arith))
          ∙ checked_add-fits descriptor (16 * queue_size) (omega arith),
      ring,
      refl,
      omega arith,
      omega arith,
      omega arith,
    )
