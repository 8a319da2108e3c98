-- ===== src/Paging/Progress.antt =====
-- src/paging.rs: the walk that maps a range accounts for every byte of it.
use mini_visor_pi.Prelude.{
  ℕ, zero, suc, ◌+◌, ◌-◌, ◌*◌, ◌/◌, sym, ◌%◌, ◌^◌, ◌<◌, ◌≤◌, ◌≡◌, refl, ap, ◌∙◌, Bool, true, false,
  Option, none, some, arith, Bool-cases, inl, inr,
}
use mathlib.Core.Path.{subst}
use native.Mathlib.Nat.{div-mul-le_self, lt-div-mul-add, mod-eq_of_lt, mod-add-mod}
use mini_visor_pi.Prelude.Bits.{two_pow_suc, two_pow-pos}
use mini_visor_pi.Paging.{page_size, is_table_descriptor, page_descriptor, block_descriptor}
use mini_visor_pi.Paging.Complete.{
  Ends, span, span-le, advance-Ends, descend-Ends, block_start, lower-Ends, below_number,
  map_level-Ends,
}
use mini_visor_pi.Paging.Map.{
  Mapping, Mapped, and_then, map_page, map_pages, fits_block, map_block, next_table, linked_table,
  descend, map_tables, map_address_stage2_level,
}
use mini_visor_pi.Paging.Reached.{
  Ready, Holds, moved, linked, slot, moved-runs, moved-Balanced, Reached, page, block, link, Serves,
  pointed, made, Accounted, mapped, stopped, nothing, Accounted-after, round-Accounted,
}

pow-past_page : (k : ℕ) → 2 ^ (12 + k) ≡ 4096 * 2 ^ k
pow-past_page zero = refl
pow-past_page (suc k) =
    let e : 2 ^ (12 + suc k) ≡ 2 ^ suc (12 + k) = ap (λ (t : ℕ). 2 ^ t) (omega arith) in
    omega (arith, e, two_pow_suc (12 + k), two_pow_suc k, pow-past_page k)

plus_zero : (q : ℕ) → q + 0 ≡ q
plus_zero q = omega arith

plus_suc : (q k : ℕ) → q + suc k ≡ q + 1 + k
plus_suc q k = omega arith

module _ {A : Type 0} (allocate_page : A → A × Option ℕ) (permission : ℕ) (is_device : Bool)
    (s0 : Mapping A) (depth0 root num0 : ℕ) where
  abbrev Here : Mapping A → Type 0
  Here = Reached allocate_page permission is_device s0 depth0 root num0

  abbrev Served : ℕ → ℕ → ℕ → ℕ → Type 0
  Served = Serves allocate_page permission is_device s0 depth0 root num0

  abbrev Ended : Mapping A → Mapped A → Type 0
  Ended = Accounted allocate_page permission is_device s0 depth0 root num0

  -- The slots from `index` on are those of the descriptors from number `q` on.
  abbrev Slots : ℕ → ℕ → ℕ → ℕ → Type 0
  Slots num n index q = (k : ℕ) → k < n → (q + k) % num ≡ index + k

  Slots-next : (num n index q : ℕ) → Slots num (suc n) index q → Slots num n (index + 1) (q + 1)
  Slots-next num n index q slots k lt =
      ap (λ (t : ℕ). t % num) (omega arith) ∙ slots (suc k) (omega arith) ∙ omega arith

  slot-eq :
      (table num n index q : ℕ) → Slots num (suc n) index q → table + 8 * index ≡ slot table num q
  slot-eq table num n index q slots =
      let e : q % num ≡ index =
        ap (λ (t : ℕ). t % num) (omega arith) ∙ slots 0 (omega arith) ∙ omega arith in
      omega arith

  page-Accounted :
      (table num index q : ℕ) (s : Mapping A)
      → table + 8 * index ≡ slot table num q
      → Here s
      → Served 0 table num q
      → Holds 0 q s
      → Ready s
      → 0 < s.remaining_size
      → Ended s (map_page allocate_page permission is_device table index s)
  page-Accounted table num index q s same w serves holds r left =
      let hw = r.whole_pages in
      let address = slot table num q in
      let value = page_descriptor s.physical_address permission is_device in
      let le : 4096 ≤ s.remaining_size = omega arith in
      let run = moved-runs allocate_page permission is_device 4096 address value s r le in
      rw (same, run)
        (mapped (moved 4096 address value s)
          (moved-Balanced allocate_page permission is_device 4096 address value s r refl le)
          (page table num q s w serves holds le))

  map_pages-Accounted :
      (table num n index q : ℕ) (s : Mapping A)
      → Slots num n index q
      → ((k : ℕ) → k < n → Served 0 table num (q + k))
      → Holds 0 q s
      → Here s
      → Ready s
      → 0 < s.remaining_size
      → Ended s (map_pages allocate_page permission is_device table n index s)
  unfolding map_pages
  map_pages-Accounted table num zero index q s slots serves holds w r left =
      mapped s (nothing allocate_page permission is_device s0 depth0 root num0 s r) w
  map_pages-Accounted table num (suc n) index q s slots serves holds w r left =
      let here : Served 0 table num q =
        subst (λ (t : ℕ). Served 0 table num t) (plus_zero q) (serves 0 (omega arith)) in
      round-Accounted allocate_page permission is_device s0 depth0 root num0 ((q + 1) * 4096) s
        (map_page allocate_page permission is_device table index s)
        (map_pages allocate_page permission is_device table n (index + 1)) r
        (page-Accounted table num index q s (slot-eq table num n index q slots) w here holds r left)
        (advance-Ends allocate_page permission is_device page_size ((q + 1) * 4096) _ (omega arith)
          (omega arith))
        (λ s' w' r' left' low high.
          map_pages-Accounted table num n (index + 1) (q + 1) s' (Slots-next num n index q slots)
            (λ k lt.
              subst (λ (t : ℕ). Served 0 table num t) (plus_suc q k) (serves (suc k) (omega arith)))
            (low, omega arith) w' r' left')

  block-Accounted :
      (depth table num index q : ℕ) (s : Mapping A)
      → table + 8 * index ≡ slot table num q
      → Here s
      → Served depth table num q
      → Holds depth q s
      → Ready s
      → fits_block allocate_page permission is_device depth (span depth) s ≡ true
      → Ended s (map_block allocate_page permission is_device (span depth) table index s)
  block-Accounted depth table num index q s same w serves holds r fits =
      let size = span depth in
      let address = slot table num q in
      let value = block_descriptor s.physical_address permission is_device in
      let le : size ≤ s.remaining_size = ground arith in
      let run = moved-runs allocate_page permission is_device size address value s r le in
      rw (same, run)
        (mapped (moved size address value s)
          (moved-Balanced allocate_page permission is_device size address value s r
            (omega (arith, pow-past_page (9 * depth))) le)
          (block depth table num q s w serves holds (ground arith) le (ground arith)
            (ground arith)))

  -- What the walk of the next level does with a table for the descriptors below number `q`.
  abbrev Lower : ℕ → (ℕ → Mapping A → Mapped A) → Type 0
  Lower depth lower =
      (t q : ℕ) (s : Mapping A)
      → ((q' : ℕ) → q' / 512 ≡ q → Served depth t 512 q')
      → Holds (suc depth) q s
      → Here s
      → Ready s
      → 0 < s.remaining_size
      → Ended s (lower t s)

  module _ (depth : ℕ) (lower : ℕ → Mapping A → Mapped A) (accounts : Lower depth lower) where
    enter-Accounted :
        (table num q : ℕ) (a : A × Option ℕ) (s : Mapping A)
        → Served (suc depth) table num q
        → Holds (suc depth) q s
        → Here s
        → Ready s
        → 0 < s.remaining_size
        → is_table_descriptor (s.memory (slot table num q)) ≡ false
        → allocate_page s.allocator ≡ a
        → let t = linked_table allocate_page permission is_device (slot table num q) a s in
          Ended s (and_then allocate_page permission is_device t.0 (lower t.1))
    enter-Accounted table num q (a, none) s serves holds w r left empty answer =
        stopped s a (nothing allocate_page permission is_device s0 depth0 root num0 s r) w answer
    enter-Accounted table num q (a, some t) s serves holds w r left empty answer =
        Accounted-after allocate_page permission is_device s0 depth0 root num0 s
          (linked (slot table num q) t a s) _
          (record { physical = refl; intermediate = refl; pages_left = r.whole_pages })
          (accounts t q (linked (slot table num q) t a s)
            (λ q' e. made depth table num q q' t a s w serves answer e) holds
            (link depth table num q t a s w serves holds empty answer)
            (record {
              whole_pages = r.whole_pages;
              physical_fits = r.physical_fits;
              intermediate_fits = r.intermediate_fits;
            })
            left)

    descend-Accounted :
        (table num index q : ℕ) (s : Mapping A)
        → table + 8 * index ≡ slot table num q
        → Served (suc depth) table num q
        → Holds (suc depth) q s
        → Here s
        → Ready s
        → 0 < s.remaining_size
        → Ended s (descend allocate_page permission is_device lower (table + 8 * index) s)
    unfolding next_table
    descend-Accounted table num index q s same serves holds w r left =
        elim (Bool-cases (is_table_descriptor (s.memory (slot table num q)))) [
          | inl t ↦
              rw (same, next_table, t)
                (accounts _ q s (λ q' e. pointed depth table num q q' s w serves t e) holds w r
                  left)
          | inr f ↦
              rw (same, next_table, f)
                (enter-Accounted table num q (allocate_page s.allocator) s serves holds w r left f
                  refl)
        ]

    module _
        (ends : (t q : ℕ) (s : Mapping A)
          → q * span (suc depth) ≤ s.intermediate_physical_address
          → s.intermediate_physical_address < q * span (suc depth) + span (suc depth)
          → Ends ((q + 1) * span (suc depth)) (lower t s)) where
      map_tables-Accounted :
          (table num n index q : ℕ) (s : Mapping A)
          → Slots num n index q
          → ((k : ℕ) → k < n → Served (suc depth) table num (q + k))
          → Holds (suc depth) q s
          → Here s
          → Ready s
          → 0 < s.remaining_size
          → Ended s
              (map_tables allocate_page permission is_device lower (suc depth) table n index s)
      unfolding map_tables
      map_tables-Accounted table num zero index q s slots serves holds w r left =
          mapped s (nothing allocate_page permission is_device s0 depth0 root num0 s r) w
      map_tables-Accounted table num (suc n) index q s slots serves holds w r left =
          let d = suc depth in
          let b = span d in
          let page_le = span-le d in
          let here : Served d table num q =
            subst (λ (t : ℕ). Served d table num t) (plus_zero q) (serves 0 (omega arith)) in
          let same = slot-eq table num n index q slots in
          let rest = map_tables allocate_page permission is_device lower d table n (index + 1) in
          let after : (s' : Mapping A)
              → Here s'
              → Ready s'
              → 0 < s'.remaining_size
              → (q + 1) * b ≤ s'.intermediate_physical_address
              → s'.intermediate_physical_address < (q + 1) * b + 4096
              → Ended s' (rest s') =
            λ s' w' r' left' low high.
              map_tables-Accounted table num n (index + 1) (q + 1) s'
                (Slots-next num n index q slots)
                (λ k lt.
                  subst (λ (t : ℕ). Served d table num t) (plus_suc q k)
                    (serves (suc k) (omega arith)))
                (low, omega arith) w' r' left' in
          elim (Bool-cases (fits_block allocate_page permission is_device d b s)) [
            | inl t ↦
                let from =
                  block_start allocate_page permission is_device d q s holds.0 holds.1
                    (ground arith) in
                rw (map_tables, t)
                  (round-Accounted allocate_page permission is_device s0 depth0 root num0
                    ((q + 1) * b) s _ rest r
                    (block-Accounted d table num index q s same w here holds r t)
                    (advance-Ends allocate_page permission is_device b ((q + 1) * b) _ (omega arith)
                      (omega arith))
                    after)
            | inr f ↦
                rw (map_tables, f)
                  (round-Accounted allocate_page permission is_device s0 depth0 root num0
                    ((q + 1) * b) s _ rest r
                    (descend-Accounted table num index q s same here holds w r left)
                    (descend-Ends allocate_page permission is_device lower b page_le ends
                      (table + 8 * index) q s holds.0 holds.1)
                    after)
          ]

  Slots-level : (num q : ℕ) → 0 < num → Slots num (num - q % num) (q % num) q
  Slots-level num q pos k lt = sym (mod-add-mod q num k) ∙ mod-eq_of_lt (omega arith)

  pub map_level-Accounted :
      (depth num table : ℕ) (s : Mapping A)
      → 0 < num
      → ((k : ℕ)
          → k < num - s.intermediate_physical_address / span depth % num
          → Serves allocate_page permission is_device s0 depth0 root num0 depth table num
              (s.intermediate_physical_address / span depth + k))
      → Reached allocate_page permission is_device s0 depth0 root num0 s
      → Ready s
      → 0 < s.remaining_size
      → Accounted allocate_page permission is_device s0 depth0 root num0 s
          (map_address_stage2_level allocate_page permission is_device depth num table s)
  unfolding map_address_stage2_level
  map_level-Accounted zero num table s pos serves w r left =
      let i = s.intermediate_physical_address in
      map_pages-Accounted table num _ _ (i / 4096) s (Slots-level num (i / 4096) pos) serves
        (div-mul-le_self i 4096, omega arith) w r left
  map_level-Accounted (suc depth) num table s pos serves w r left =
      let i = s.intermediate_physical_address in
      let b = span (suc depth) in
      let level = map_address_stage2_level allocate_page permission is_device depth 512 in
      map_tables-Accounted depth level
        (λ t q s' serves' holds' w' r' left'.
          map_level-Accounted depth 512 t s' (omega arith)
            (λ k lt.
              serves' _ (below_number allocate_page permission is_device depth q s' k holds' lt))
            w' r' left')
        (lower-Ends allocate_page permission is_device depth level
          (λ t s'. map_level-Ends allocate_page permission is_device depth 512 t s' (omega arith)))
        table num _ _ (i / b) s (Slots-level num (i / b) pos) serves
        (div-mul-le_self i b, lt-div-mul-add {a = i} (two_pow-pos (12 + 9 * suc depth))) w r left
