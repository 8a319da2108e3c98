-- ===== src/Paging/Complete.antt =====
-- src/paging.rs: a walk ends where nothing is left to map, or at the end of its table.
use mini_visor_pi.Prelude.{
  ℕ, zero, suc, ◌+◌, ◌-◌, ◌*◌, ◌/◌, ◌%◌, ◌^◌, ◌<◌, ◌≤◌, ◌≡◌, ◌⊎◌, ◌&&◌, refl, ap, ◌∙◌, Bool, Option,
  none, some, leb, ltb, ◌==◌, arith, Bool-cases, inl, inr, ==_iff,
}
use native.Mathlib.Nat.{
  div-mul-le_self, lt-div-mul-add, mod-lt, div-eq_of_lt-le, div-add-mod', lt_of_mul-lt-mul_left,
}
use mini_visor_pi.Prelude.Bits.{two_pow_suc, two_pow-pos}
use mini_visor_pi.Paging.{page_size, is_table_descriptor}
use mini_visor_pi.Paging.Map.{
  Mapping, Mapped, ok, failed, panicked, and_then, advance, map_page, unless_done, map_pages,
  fits_block, map_block, next_table, linked_table, descend, map_tables, map_address_stage2_level,
}

-- If the result is a mapping, nothing is left, or the address is in the first page from `goal` on.
abbrev pub Ends : {A : Type 0} → ℕ → Mapped A → Type 0
Ends goal (ok s) =
    (s.remaining_size ≡ 0)
    ⊎ (goal ≤ s.intermediate_physical_address) × (s.intermediate_physical_address < goal + 4096)
Ends goal (failed s) = Unit
Ends goal panicked = Unit

Ends-eq : {A : Type 0} (a b : ℕ) (r : Mapped A) → a ≡ b → Ends a r → Ends b r
Ends-eq a b r e h = rw (← e) h

-- The bytes that a descriptor covers.
abbrev pub span : ℕ → ℕ
span depth = 2 ^ (12 + 9 * depth)

pub span-suc : (depth : ℕ) → span (suc depth) ≡ 512 * span depth
span-suc depth =
    let k = 12 + 9 * depth in
    let e : span (suc depth) ≡ 2 ^ suc (suc (suc (suc (suc (suc (suc (suc (suc k)))))))) =
      ap (λ (t : ℕ). 2 ^ t) (omega arith) in
    omega (
      arith,
      e,
      two_pow_suc k,
      two_pow_suc (suc k),
      two_pow_suc (suc (suc k)),
      two_pow_suc (suc (suc (suc k))),
      two_pow_suc (suc (suc (suc (suc k)))),
      two_pow_suc (suc (suc (suc (suc (suc k))))),
      two_pow_suc (suc (suc (suc (suc (suc (suc k)))))),
      two_pow_suc (suc (suc (suc (suc (suc (suc (suc k))))))),
      two_pow_suc (suc (suc (suc (suc (suc (suc (suc (suc k)))))))),
    )

pub span-le : (depth : ℕ) → 4096 ≤ span depth
span-le zero = omega arith
span-le (suc depth) = omega (arith, span-suc depth, span-le depth)

module _ {A : Type 0} (allocate_page : A → A × Option ℕ) (permission : ℕ) (is_device : Bool) where
  pub advance-Ends :
      (size goal : ℕ) (s : Mapping A)
      → goal ≤ s.intermediate_physical_address + size
      → s.intermediate_physical_address + size < goal + 4096
      → Ends goal (advance allocate_page permission is_device size s)
  unfolding advance
  advance-Ends size goal s low high =
      elim (Bool-cases (
        ltb (s.physical_address + size) (2 ^ 64)
        && ltb (s.intermediate_physical_address + size) (2 ^ 64)
        && leb size s.remaining_size)) [
          | inl t ↦ rw (advance, t) (inr (low, high))
          | inr f ↦ rw (advance, f) tt
        ]

  -- One round and the rest of a loop.
  round-Ends :
      (middle goal : ℕ) (first : Mapped A) (rest : Mapping A → Mapped A)
      → Ends middle first
      → ((s : Mapping A)
          → middle ≤ s.intermediate_physical_address
          → s.intermediate_physical_address < middle + 4096
          → Ends goal (rest s))
      → Ends goal (
          and_then allocate_page permission is_device first
            (unless_done allocate_page permission is_device rest))
  round-Ends middle goal (failed s) rest h after = tt
  round-Ends middle goal panicked rest h after = tt
  round-Ends middle goal (ok s) rest h after = elim (Bool-cases (s.remaining_size == 0)) [
    | inl t ↦ rw (unless_done, t) (inl ((==_iff _ _).0 t))
    | inr f ↦
        rw (unless_done, f)
          (elim h [ inl none_left ↦ absurd (ground arith) | inr (low, high) ↦ after s low high ])
  ]

  map_pages-Ends :
      (table_address n index q : ℕ) (s : Mapping A)
      → q * 4096 ≤ s.intermediate_physical_address
      → s.intermediate_physical_address < q * 4096 + 4096
      → Ends ((q + n) * 4096) (map_pages allocate_page permission is_device table_address n index s)
  unfolding map_pages
  map_pages-Ends table_address zero index q s low high = inr (omega arith, omega arith)
  map_pages-Ends table_address (suc n) index q s low high =
      round-Ends ((q + 1) * 4096) ((q + suc n) * 4096)
        (map_page allocate_page permission is_device table_address index s)
        (map_pages allocate_page permission is_device table_address n (index + 1))
        (advance-Ends page_size ((q + 1) * 4096) _ (omega arith) (omega arith))
        (λ s' low' high'.
          Ends-eq ((q + 1 + n) * 4096) ((q + suc n) * 4096) _ (omega arith)
            (map_pages-Ends table_address n (index + 1) (q + 1) s' low' (omega arith)))

  module _ (lower : ℕ → Mapping A → Mapped A) (size : ℕ) (page_le : 4096 ≤ size)
      (ends : (t q : ℕ) (s : Mapping A)
        → q * size ≤ s.intermediate_physical_address
        → s.intermediate_physical_address < q * size + size
        → Ends ((q + 1) * size) (lower t s)) where
    linked-Ends :
        (address : ℕ) (a : A × Option ℕ) (q : ℕ) (s : Mapping A)
        → q * size ≤ s.intermediate_physical_address
        → s.intermediate_physical_address < q * size + size
        → let t = linked_table allocate_page permission is_device address a s in
          Ends ((q + 1) * size) (and_then allocate_page permission is_device t.0 (lower t.1))
    linked-Ends address (a, none) q s low high = tt
    linked-Ends address (a, some table) q s low high = ends table q _ low high

    pub descend-Ends :
        (address q : ℕ) (s : Mapping A)
        → q * size ≤ s.intermediate_physical_address
        → s.intermediate_physical_address < q * size + size
        → Ends ((q + 1) * size) (descend allocate_page permission is_device lower address s)
    unfolding next_table
    descend-Ends address q s low high = elim (Bool-cases (is_table_descriptor (s.memory address))) [
      | inl t ↦ rw (descend, next_table, t) (ends _ q s low high)
      | inr f ↦
          rw (descend, next_table, f) (linked-Ends address (allocate_page s.allocator) q s low high)
    ]

  -- A block starts at a multiple of its size.
  pub block_start :
      (depth q : ℕ) (s : Mapping A)
      → q * span depth ≤ s.intermediate_physical_address
      → s.intermediate_physical_address < q * span depth + span depth
      → s.intermediate_physical_address % span depth ≡ 0
      → s.intermediate_physical_address ≡ q * span depth
  block_start depth q s low high aligned =
      let i = s.intermediate_physical_address in
      let e : i / span depth ≡ q = div-eq_of_lt-le {k = q} (span depth) low (omega arith) in
      let scaled : i / span depth * span depth ≡ q * span depth =
        ap (λ (t : ℕ). t * span depth) e in
      omega (arith, scaled, aligned, div-add-mod' i (span depth))

  module _ (lower : ℕ → Mapping A → Mapped A) (depth : ℕ)
      (ends : (t q : ℕ) (s : Mapping A)
        → q * span depth ≤ s.intermediate_physical_address
        → s.intermediate_physical_address < q * span depth + span depth
        → Ends ((q + 1) * span depth) (lower t s)) where
    abbrev B : ℕ
    B = span depth

    map_tables-Ends :
        (table_address n index q : ℕ) (s : Mapping A)
        → q * B ≤ s.intermediate_physical_address
        → s.intermediate_physical_address < q * B + B
        → (n ≡ 0 → s.intermediate_physical_address < q * B + 4096)
        → Ends
            ((q + n) * B)
            (map_tables allocate_page permission is_device lower depth table_address n index s)
    unfolding map_tables
    map_tables-Ends table_address zero index q s low high first =
        inr (omega arith, omega (arith, first refl))
    map_tables-Ends table_address (suc n) index q s low high first =
        let page_le = span-le depth in
        let rest =
          map_tables allocate_page permission is_device lower depth table_address n (index + 1) in
        let next : B * q + B ≡ (q + 1) * B = omega arith in
        let after : (s' : Mapping A)
            → (q + 1) * B ≤ s'.intermediate_physical_address
            → s'.intermediate_physical_address < (q + 1) * B + 4096
            → Ends ((q + suc n) * B) (rest s') =
          λ s' low' high'.
            Ends-eq ((q + 1 + n) * B) ((q + suc n) * B) _ (ap (λ (t : ℕ). t * B) (omega arith)) (
              map_tables-Ends table_address n (index + 1) (q + 1) s' low' (omega arith)
                (λ e. high')) in
        elim (Bool-cases (fits_block allocate_page permission is_device depth B s)) [
          | inl t ↦
              let start = block_start depth q s low high (ground arith) in
              rw (map_tables, t)
                (round-Ends ((q + 1) * B) ((q + suc n) * B)
                  (map_block allocate_page permission is_device B table_address index s) rest
                  (advance-Ends B ((q + 1) * B) _ (omega arith) (omega arith)) after)
          | inr f ↦
              rw (map_tables, f)
                (round-Ends ((q + 1) * B) ((q + suc n) * B)
                  (descend allocate_page permission is_device lower (table_address + 8 * index) s)
                  rest (descend-Ends lower B page_le ends (table_address + 8 * index) q s low high)
                  after)
        ]

  -- A table of 512 descriptors covers what one descriptor of the level above does.
  pub lower-Ends :
      (depth : ℕ) (lower : ℕ → Mapping A → Mapped A)
      → ((t : ℕ) (s : Mapping A)
          → let q = s.intermediate_physical_address / span depth in
            Ends ((q + (512 - q % 512)) * span depth) (lower t s))
      → (t q : ℕ) (s : Mapping A) → q * span (suc depth) ≤ s.intermediate_physical_address
      → s.intermediate_physical_address < q * span (suc depth) + span (suc depth)
      → Ends ((q + 1) * span (suc depth)) (lower t s)
  lower-Ends depth lower whole t q s low high =
      let i = s.intermediate_physical_address in
      let b = span depth in
      let q' = i / b in
      let pos : 0 < b = two_pow-pos (12 + 9 * depth) in
      let wide : q * span (suc depth) ≡ b * (q * 512) =
        ap (λ (x : ℕ). q * x) (span-suc depth) ∙ omega arith in
      let last : q * span (suc depth) + span (suc depth) ≡ b * (q * 512 + 512) =
        omega (arith, wide, span-suc depth) in
      let from : q * 512 < q' + 1 =
        lt_of_mul-lt-mul_left b {m = q * 512} {n = q' + 1}
          (omega (arith, lt-div-mul-add {a = i} pos)) in
      let to : q' < q * 512 + 512 =
        lt_of_mul-lt-mul_left b {m = q'} {n = q * 512 + 512} (omega (arith, div-mul-le_self i b)) in
      let end : q' + (512 - q' % 512) ≡ (q + 1) * 512 = omega arith in
      let scaled : (q + 1) * 512 * b ≡ (q + 1) * span (suc depth) =
        omega (arith, ap (λ (x : ℕ). (q + 1) * x) (span-suc depth)) in
      Ends-eq ((q' + (512 - q' % 512)) * b) ((q + 1) * span (suc depth)) _
        (ap (λ (x : ℕ). x * b) end ∙ scaled) (whole t s)

  -- The descriptors that are left in a table of the level below are those of its number above.
  pub below_number :
      (depth q : ℕ) (s : Mapping A) (k : ℕ)
      → (q * span (suc depth) ≤ s.intermediate_physical_address)
        × (s.intermediate_physical_address < q * span (suc depth) + span (suc depth))
      → k < 512 - s.intermediate_physical_address / span depth % 512
      → (s.intermediate_physical_address / span depth + k) / 512 ≡ q
  below_number depth q s k (low, high) lt =
      let i = s.intermediate_physical_address in
      let b = span depth in
      let q' = i / b in
      let pos : 0 < b = two_pow-pos (12 + 9 * depth) in
      let wide : q * span (suc depth) ≡ b * (q * 512) =
        ap (λ (x : ℕ). q * x) (span-suc depth) ∙ omega arith in
      let last : q * span (suc depth) + span (suc depth) ≡ b * (q * 512 + 512) =
        omega (arith, wide, span-suc depth) in
      let from : q * 512 < q' + 1 =
        lt_of_mul-lt-mul_left b {m = q * 512} {n = q' + 1}
          (omega (arith, lt-div-mul-add {a = i} pos)) in
      let to : q' < q * 512 + 512 =
        lt_of_mul-lt-mul_left b {m = q'} {n = q * 512 + 512} (omega (arith, div-mul-le_self i b)) in
      omega arith

  -- With a table of `num` descriptors at hand the walk goes on to the end of that table.
  pub map_level-Ends :
      (depth num table_address : ℕ) (s : Mapping A)
      → 0 < num
      → let q = s.intermediate_physical_address / span depth in
        Ends
          ((q + (num - q % num)) * span depth)
          (map_address_stage2_level allocate_page permission is_device depth num table_address s)
  unfolding map_address_stage2_level
  map_level-Ends zero num table_address s pos =
      let i = s.intermediate_physical_address in
      map_pages-Ends table_address _ _ (i / 4096) s (div-mul-le_self i 4096) (omega arith)
  map_level-Ends (suc depth) num table_address s pos =
      let i = s.intermediate_physical_address in
      let b = span (suc depth) in
      let below : i / b % num < num = mod-lt (i / b) pos in
      map_tables-Ends (map_address_stage2_level allocate_page permission is_device depth 512)
        (suc depth)
        (lower-Ends depth (map_address_stage2_level allocate_page permission is_device depth 512)
          (λ t s'. map_level-Ends depth 512 t s' (omega arith)))
        table_address _ _ (i / b) s (div-mul-le_self i b)
        (lt-div-mul-add {a = i} (two_pow-pos (12 + 9 * suc depth))) (λ e. absurd (omega arith))
