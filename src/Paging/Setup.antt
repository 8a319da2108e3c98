-- ===== src/Paging/Setup.antt =====
-- src/paging.rs: the geometry of Stage 2 translation, new tables, and the mapping of a range.
use mini_visor_pi.Prelude.{
  ℕ, zero, suc, ◌+◌, ◌-◌, ◌*◌, ◌^◌, ◌<◌, ◌≡◌, refl, Bool, true, false, Option, none, some, ◌==◌,
  if◌then◌else◌, bit_and, bit_or, arith, Bool-cases, inl, inr, ==_iff,
}
use mini_visor_pi.Prelude.Bits.{shr, bit_and_mask}
use mini_visor_pi.Prelude.Panics.{◌>>=◌}
use mini_visor_pi.Paging.{number_of_concatenated_page_tables}
use mini_visor_pi.Paging.Map.{Mapping, Mapped, failed, panicked, clear, map_address_stage2_level}

-- T0SZ and the initial lookup level for a physical address range.
unfoldable pub geometry_of : ℕ → ℕ × ℕ
geometry_of ps =
    if ps == 0b000
    then (32, 1)
    else if ps == 0b001
    then (28, 1)
    else if ps == 0b010
    then (24, 1)
    else if ps == 0b011
    then (22, 1)
    else if ps == 0b100
    then (20, 0)
    else (16, 0)

abbrev pub parange : ℕ → ℕ
parange id_aa64mmfr0_el1 = bit_and id_aa64mmfr0_el1 0b1111

-- The value of VTCR_EL2 for a physical address range.
unfoldable pub vtcr_for : ℕ → ℕ
vtcr_for ps =
    let geometry = geometry_of ps in
    let sl0 = if geometry.1 == 1 then 0b01 else 0b10 in
    bit_or
      (bit_or
        (bit_or
          (bit_or (bit_or (bit_or (bit_or (2 ^ 31) (ps * 2 ^ 16)) (0 * 2 ^ 14)) (0b11 * 2 ^ 12))
            (0b11 * 2 ^ 10))
          (0b11 * 2 ^ 8))
        (sl0 * 2 ^ 6))
      (geometry.0 * 2 ^ 0)

unfoldable pub vtcr_of : ℕ → ℕ
vtcr_of id_aa64mmfr0_el1 = vtcr_for (parange id_aa64mmfr0_el1)

abbrev pub vtcr_sl0 : ℕ → ℕ
vtcr_sl0 vtcr_el2 = shr (bit_and vtcr_el2 (0b11 * 2 ^ 6)) 6

abbrev pub vtcr_t0sz : ℕ → ℕ
vtcr_t0sz vtcr_el2 = shr (bit_and vtcr_el2 0b111111) 0

-- The initial lookup level that SL0 stands for.
unfoldable pub level_of : ℕ → ℕ
level_of sl0 = if sl0 == 0b00 then 2 else if sl0 == 0b01 then 1 else if sl0 == 0b10 then 0 else 3

-- The initial lookup level and the number of descriptors of the first table, from VTCR_EL2.
unfoldable pub first_table : ℕ → Option (ℕ × ℕ)
first_table vtcr_el2 =
    let level = level_of (vtcr_sl0 vtcr_el2) in
    do
      tables ← number_of_concatenated_page_tables (vtcr_t0sz vtcr_el2) level
      some (level, tables * 512)

-- The same match stands a second time where a table is created.
unfoldable pub table_geometry_of : ℕ → ℕ × ℕ
table_geometry_of ps =
    if ps == 0b000
    then (32, 1)
    else if ps == 0b001
    then (28, 1)
    else if ps == 0b010
    then (24, 1)
    else if ps == 0b011
    then (22, 1)
    else if ps == 0b100
    then (20, 0)
    else (16, 0)

-- The size and the alignment, in binary digits, of the first table of a new translation regime.
unfoldable pub new_table_pages : ℕ → Option (ℕ × ℕ)
new_table_pages ps =
    let geometry = table_geometry_of ps in
    do
      tables ← number_of_concatenated_page_tables geometry.0 geometry.1
      some (tables, 12 + tables - 1)

module _ {A : Type 0} (allocate_pages : A → ℕ → ℕ → A × Option ℕ) where
  abbrev pub new_table : (ℕ → ℕ) → ℕ → A × Option ℕ → Option (A × (ℕ → ℕ) × ℕ)
  new_table memory tables (a, none) = none
  new_table memory tables (a, some table) = some (a, clear memory table (tables * 512), table)

  -- A failed allocation panics in `unwrap`.
  unfoldable pub create_stage2_translation_table : ℕ → A → (ℕ → ℕ) → Option (A × (ℕ → ℕ) × ℕ)
  create_stage2_translation_table id_aa64mmfr0_el1 a memory = do
    pages ← new_table_pages (parange id_aa64mmfr0_el1)
    new_table memory pages.0 (allocate_pages a pages.0 pages.1)

  abbrev pub one_page : A → A × Option ℕ
  one_page a = allocate_pages a 1 12

  abbrev pub permission_bits : Bool → Bool → ℕ
  permission_bits is_readable is_writable =
      bit_or ((if is_writable then 1 else 0) * 2) (if is_readable then 1 else 0)

  abbrev pub map_from : Option (ℕ × ℕ) → ℕ → Bool → ℕ → Mapping A → Mapped A
  map_from none permission is_device table_address s = panicked
  map_from (some first) permission is_device table_address s =
      map_address_stage2_level one_page permission is_device (3 - first.0) first.1 table_address s

  -- Whether the TLB is flushed afterwards is left out.
  unfoldable pub map_address_stage2_internal : ℕ → ℕ → Bool → Bool → Bool → Mapping A → Mapped A
  map_address_stage2_internal vtcr_el2 table_address is_readable is_writable is_device s =
      if bit_and s.remaining_size (2 ^ 12 - 1) == 0
      then map_from (first_table vtcr_el2) (permission_bits is_readable is_writable) is_device
          table_address s
      else failed s

  abbrev pub map_address_stage2 : ℕ → ℕ → Bool → Bool → Mapping A → Mapped A
  map_address_stage2 vtcr_el2 table_address is_readable is_writable s =
      map_address_stage2_internal vtcr_el2 table_address is_readable is_writable false s

  abbrev pub map_device_stage2 : ℕ → ℕ → Bool → Bool → Mapping A → Mapped A
  map_device_stage2 vtcr_el2 table_address is_readable is_writable s =
      map_address_stage2_internal vtcr_el2 table_address is_readable is_writable true s

-- The geometry that a mapping reads from VTCR_EL2 is that of the table that was created.
Agrees : ℕ → Type 0
Agrees ps =
    first_table (vtcr_for ps)
    ≡ (new_table_pages ps >>= λ pages. some ((table_geometry_of ps).1, pages.0 * 512))

unfoldable pub AllBelow : (ℕ → Type 0) → ℕ → Type 0
AllBelow P zero = Unit
AllBelow P (suc n) = P n × AllBelow P n

pub below : (P : ℕ → Type 0) (n k : ℕ) → k < n → AllBelow P n → P k
unfolding AllBelow
below P zero k h all = absurd (omega arith)
below P (suc n) k h (last, rest) = elim (Bool-cases (k == n)) [
  | inl t ↦ let e : k ≡ n = (==_iff k n).0 t in rw e last
  | inr f ↦ below P n k (ground arith) rest
]

all_agree : AllBelow Agrees 16
unfolding AllBelow Agrees first_table vtcr_for new_table_pages geometry_of table_geometry_of
    number_of_concatenated_page_tables level_of
all_agree = (
  refl,
  (
    refl,
    (
      refl,
      (
        refl,
        (
          refl,
          (
            refl,
            (refl, (refl, (refl, (refl, (refl, (refl, (refl, (refl, (refl, (refl, tt)))))))))),
          ),
        ),
      ),
    ),
  ),
)

-- The table that is created has exactly the descriptors that a mapping walks, at the level that it
-- starts from: VTCR_EL2 gives back what the table was made for, whatever address range the processor
-- reports.
pub first_table-new_table_pages :
    (id_aa64mmfr0_el1 : ℕ)
    → let ps = parange id_aa64mmfr0_el1 in
      first_table (vtcr_of id_aa64mmfr0_el1)
      ≡ (new_table_pages ps >>= λ pages. some ((table_geometry_of ps).1, pages.0 * 512))
unfolding Agrees vtcr_of
first_table-new_table_pages id_aa64mmfr0_el1 =
    below Agrees 16 (parange id_aa64mmfr0_el1) (omega (arith, bit_and_mask 4 id_aa64mmfr0_el1))
      all_agree
