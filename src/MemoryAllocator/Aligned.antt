-- ===== src/MemoryAllocator/Aligned.antt =====
-- src/memory_allocator.rs: where allocate_with_address_limit places a request in a free entry.
use mini_visor_pi.Prelude.{
  ℕ, zero, suc, ◌+◌, ◌-◌, ◌*◌, ◌/◌, ◌^◌, ◌≤◌, ◌<◌, ◌≡◌, ◌≢◌, refl, inl, inr, ap, sym, ◌∙◌, Option,
  none, some, min, bit_and, arith, ltb, leb, ◌==◌, ==_iff, ==→≢, ltb→lt, lt→ltb, true, false, ◌⊎◌,
  ℕ_discrete, Bool-cases, if◌then◌else◌,
}
use native.Mathlib.Nat.{
  div-mul-le_self, lt-div-mul-add, lt_of_mul-lt-mul_left, mod-eq_of_lt, mul-le-mul_right,
}
use mini_visor_pi.Prelude.Bits.{complement, bit_and_shifted, bit_and_mask, two_pow_suc, two_pow-pos}
use mini_visor_pi.MemoryAllocator.{MemoryEntry}
use mini_visor_pi.MemoryAllocator.Alignment.{align_address_and_available_size}
use mini_visor_pi.MemoryAllocator.Allocate.{place}

two_pow-split : (a w : ℕ) → 2 ^ (a + w) ≡ 2 ^ w * 2 ^ a
two_pow-split zero w = let z : 0 + w ≡ w = omega arith in rw z (omega arith)
two_pow-split (suc a) w =
    let z : suc a + w ≡ suc (a + w) = omega arith in
    rw z (
      omega
        (arith, two_pow_suc (a + w), two_pow-split a w, ap (λ (t : ℕ). 2 ^ w * t) (two_pow_suc a)))

-- `x & !(align_size - 1)` rounds down.
round_down :
    (x a : ℕ) → x < 2 ^ 64 → a ≤ 64 → bit_and x (complement 64 (2 ^ a - 1)) ≡ x / 2 ^ a * 2 ^ a
round_down x a hx ha =
    let w = 64 - a in
    let whole : 2 ^ 64 ≡ 2 ^ w * 2 ^ a =
      let z : a + w ≡ 64 = omega arith in ap (λ t. 2 ^ t) (sym z) ∙ two_pow-split a w in
    let mask : complement 64 (2 ^ a - 1) ≡ (2 ^ w - 1) * 2 ^ a =
      let m = 2 ^ w - 1 in
      let next : m + 1 ≡ 2 ^ w = omega (arith, two_pow-pos w) in
      let scaled : m * 2 ^ a + 2 ^ a ≡ 2 ^ w * 2 ^ a =
        let open' : m * 2 ^ a + 2 ^ a ≡ (m + 1) * 2 ^ a = omega arith in
        open' ∙ ap (λ (t : ℕ). t * 2 ^ a) next in
      omega (arith, whole, scaled, two_pow-pos a) in
    let small : x / 2 ^ a < 2 ^ w =
      lt_of_mul-lt-mul_left (2 ^ a) {m = x / 2 ^ a} {n = 2 ^ w}
        (omega (arith, div-mul-le_self x (2 ^ a), whole, hx)) in
    rw (mask, bit_and_shifted a x (2 ^ w - 1), bit_and_mask w (x / 2 ^ a), mod-eq_of_lt small) refl

-- `address` starts `size` bytes that lie in the free entry and below the limit, aligned.
pub record Fits (e : MemoryEntry) (size align_order address_limit address : ℕ) : Type 0 where
  pub after_start : e.start ≤ address
  pub in_entry : address + size ≤ e.last + 1
  pub below : address + size ≤ address_limit
  pub aligned : (k : ℕ) × (address ≡ k * 2 ^ align_order)

-- Where a request is placed in a free entry; `overflowed` is the panic where the entry starts past the
-- last multiple of the alignment in a word.
pub data Placement (e : MemoryEntry) (size align_order address_limit : ℕ)
    : Option (Option ℕ) → Type 0 where
  placed :
      (address : ℕ)
      → Fits e size align_order address_limit address
      → Placement e size align_order address_limit (some (some address))
  nowhere :
      ((address : ℕ) → ¬ Fits e size align_order address_limit address)
      → Placement e size align_order address_limit (some none)
  overflowed :
      align_order ≢ 0
      → ((k : ℕ) → e.start ≤ k * 2 ^ align_order → 2 ^ 64 ≤ k * 2 ^ align_order)
      → Placement e size align_order address_limit none

module _ (e : MemoryEntry) (size align_order address_limit : ℕ) (range : e.start ≤ e.last)
    (small : e.last < 2 ^ 64) (order : align_order ≤ 63) (pos : 0 < size)
    (limit : 0 < address_limit) (limit_small : address_limit < 2 ^ 64) where
  abbrev last : ℕ
  last = min e.last (address_limit - 1)

  abbrev available : ℕ
  available = if leb e.start last then last - e.start + 1 else 0

  abbrev align_size : ℕ
  align_size = 2 ^ align_order

  available_end : available ≢ 0 → e.start + available ≡ last + 1
  available_end ne = ground arith

  available_none : available ≡ 0 → last < e.start
  available_none z = ground arith

  -- The first multiple of the alignment from the entry's start on.
  abbrev rounded : ℕ
  rounded = (e.start - 1) / align_size * align_size + align_size

  rounded_up : e.start ≢ 0 → e.start ≤ rounded
  rounded_up ne = omega (arith, lt-div-mul-add {a = e.start - 1} (two_pow-pos align_order))

  rounded_least : (k : ℕ) → e.start ≢ 0 → e.start ≤ k * align_size → rounded ≤ k * align_size
  rounded_least k ne h =
      let q = (e.start - 1) / align_size in
      let lt : q < k =
        lt_of_mul-lt-mul_left align_size {m = q} {n = k}
          (omega (arith, div-mul-le_self (e.start - 1) align_size)) in
      let le = mul-le-mul_right {m = q + 1} {n = k} align_size (omega arith) in omega arith

  not_below : {a : ℕ} → ltb a (2 ^ 64) ≡ false → 2 ^ 64 ≤ a
  not_below h = ground arith

  -- What align_address_and_available_size makes of `n` bytes from the entry's start on.
  record Rounds (n : ℕ) (r : ℕ × ℕ) : Type 0 where
    multiple : (k : ℕ) × (r.0 ≡ k * align_size)
    up : e.start ≤ r.0
    least : (k : ℕ) → e.start ≤ k * align_size → r.0 ≤ k * align_size
    room : e.start + n ≤ r.0 + r.1
    exact : r.1 ≢ 0 → r.0 + r.1 ≡ e.start + n

  shift_fits : ltb align_order 64 ≡ true
  shift_fits = lt→ltb _ _ (omega arith)

  -- It rounds, or no multiple of the alignment from the entry's start on fits into a word.
  align-cases :
      (n : ℕ)
      → ((r : ℕ × ℕ) × (align_address_and_available_size e.start n align_order ≡ some r)
          × Rounds n r)
        ⊎ (align_address_and_available_size e.start n align_order ≡ none)
          × ((k : ℕ) → e.start ≤ k * align_size → 2 ^ 64 ≤ k * align_size)
  unfolding align_address_and_available_size
  align-cases n = elim (Bool-cases (e.start == 0)) [
    | inl e0 ↦
        let z = (==_iff _ _).0 e0 in
        inl (
          (0, n),
          rw e0 refl,
          record {
            multiple = (0, omega arith);
            up = omega arith;
            least = λ k h. omega arith;
            room = omega arith;
            exact = λ h. omega arith;
          },
        )
    | inr e0 ↦
        let ne = ==→≢ _ _ e0 in
        let down = round_down (e.start - 1) align_order (omega arith) (omega arith) in
        let up = rounded_up ne in
        let q = (e.start - 1) / align_size in
        let k : rounded ≡ (q + 1) * align_size = omega arith in
        let shifts = shift_fits in
        elim (Bool-cases (ltb rounded (2 ^ 64))) [
          | inr past ↦ inr (
            rw (e0, down, shifts, past) refl,
            λ k h. omega (arith, rounded_least k ne h, not_below past),
          )
          | inl word ↦ elim (Bool-cases (ltb (rounded - e.start) n)) [
            | inl fits ↦ inl (
              (rounded, n - (rounded - e.start)),
              rw (e0, down, shifts, word, fits) refl,
              record {
                multiple = (q + 1, k);
                up = up;
                least = λ k h. rounded_least k ne h;
                room = omega arith;
                exact = λ h. ground arith;
              },
            )
            | inr over ↦ inl (
              (rounded, 0),
              rw (e0, down, shifts, word, over) refl,
              record {
                multiple = (q + 1, k);
                up = up;
                least = λ k h. rounded_least k ne h;
                room = ground arith;
                exact = λ h. absurd (h refl);
              },
            )
          ]
        ]
  ]

  cap : last + 1 ≤ address_limit
  cap = omega arith

  within : (a : ℕ) → Fits e size align_order address_limit a → a + size ≤ last + 1
  within a f = omega (arith, f.in_entry, f.below)

  too_small : available < size → (a : ℕ) → ¬ Fits e size align_order address_limit a
  too_small lt a f = elim (ℕ_discrete available 0) [
    | yes z ↦ omega (arith, within a f, f.after_start, available_none z)
    | no ne ↦ omega (arith, within a f, f.after_start, available_end ne)
  ]

  -- The place that allocate_with_address_limit finds in a free entry is aligned, not below the entry's
  -- start, and its bytes lie in the entry and below the address limit; it finds none only if no
  -- address is such a place, and it panics only if an alignment is asked for and no multiple of it
  -- from the entry's start on is below 2 ^ 64. The entry's range is in order and below 2 ^ 64, the request is not empty,
  -- the limit is not 0 and a word, and the alignment is at most 2 ^ 63.
  pub place-Placement :
      Placement e size align_order address_limit (place e size align_order address_limit)
  unfolding place
  place-Placement = elim (Bool-cases (ltb available size)) [
    | inl lt ↦ rw lt (nowhere (too_small (ltb→lt _ _ lt)))
    | inr enough ↦
        let ge : size ≤ available = ground arith in
        let end = available_end (omega arith) in
        elim (Bool-cases (align_order == 0)) [
          | inl e0 ↦
              let z = (==_iff _ _).0 e0 in
              rw (enough, e0)
                (placed e.start (record {
                  after_start = omega arith;
                  in_entry = omega arith;
                  below = omega (arith, cap);
                  aligned = (e.start, rw z (omega arith));
                }))
          | inr e0 ↦ elim (align-cases available) [
            | inr (past, none_left) ↦ rw (enough, e0, past) (overflowed (==→≢ _ _ e0) none_left)
            | inl (r, rounds, a) ↦ elim (Bool-cases (ltb r.1 size)) [
              | inl lt ↦
                  rw (enough, e0, rounds, lt)
                    (nowhere (λ p f.
                      let m = f.aligned in
                      let least = a.least m.0 (omega (arith, f.after_start, m.1)) in
                      omega (arith, within p f, a.room, m.1, ltb→lt _ _ lt)))
              | inr ok' ↦
                  let le : size ≤ r.1 = ground arith in
                  let exact = a.exact (omega arith) in
                  rw (enough, e0, rounds, ok')
                    (placed r.0 (record {
                      after_start = a.up;
                      in_entry = omega arith;
                      below = omega (arith, cap);
                      aligned = a.multiple;
                    }))
            ]
          ]
        ]
  ]
