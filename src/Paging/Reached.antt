-- ===== src/Paging/Reached.antt =====
-- src/paging.rs: the states that the walk of a range reaches.
use mini_visor_pi.Prelude.{
  ℕ, suc, ◌+◌, ◌-◌, ◌*◌, ◌/◌, ◌%◌, ◌^◌, ◌<◌, ◌≤◌, ◌≡◌, refl, ◌∙◌, Bool, true, false, Option, none,
  some, leb, ltb, ◌==◌, arith, Bool-cases, inl, inr,
}
use mini_visor_pi.Paging.{
  is_table_descriptor, get_next_level_table_address, page_descriptor, block_descriptor,
  table_descriptor,
}
use mini_visor_pi.Paging.Complete.{Ends, span}
use mini_visor_pi.Paging.Map.{
  Mapping, Mapped, ok, failed, and_then, advance, unless_done, write_descriptor, store, clear,
}

-- The slot of the descriptor of number `q` in a table of `num` descriptors.
abbrev pub slot : ℕ → ℕ → ℕ → ℕ
slot table num q = table + 8 * (q % num)

module _ {A : Type 0} where
  -- Whole pages are left, and both ranges end below 2^64.
  pub record Ready (s : Mapping A) : Type 0 where
    pub whole_pages : s.remaining_size % 4096 ≡ 0
    pub physical_fits : s.physical_address + s.remaining_size < 2 ^ 64
    pub intermediate_fits : s.intermediate_physical_address + s.remaining_size < 2 ^ 64

  -- Both addresses went up by what the size went down.
  pub record Balanced (s s' : Mapping A) : Type 0 where
    pub physical : s'.physical_address + s'.remaining_size ≡ s.physical_address + s.remaining_size
    pub intermediate :
        s'.intermediate_physical_address + s'.remaining_size
        ≡ s.intermediate_physical_address + s.remaining_size
    pub pages_left : s'.remaining_size % 4096 ≡ 0

  Balanced-Ready : (s s' : Mapping A) → Ready s → Balanced s s' → Ready s'
  Balanced-Ready s s' r b = record {
    whole_pages = b.pages_left;
    physical_fits = let h = r.physical_fits in let e = b.physical in omega arith;
    intermediate_fits = let h = r.intermediate_fits in let e = b.intermediate in omega arith;
  }

  Balanced-trans : (s s' s'' : Mapping A) → Balanced s s' → Balanced s' s'' → Balanced s s''
  Balanced-trans s s' s'' b b' = record {
    physical = b'.physical ∙ b.physical;
    intermediate = b'.intermediate ∙ b.intermediate;
    pages_left = b'.pages_left;
  }

-- A descriptor of number `q` in the intermediate address space, at a depth, is for the current address.
abbrev pub Holds : {A : Type 0} → ℕ → ℕ → Mapping A → Type 0
Holds depth q s =
    (q * span depth ≤ s.intermediate_physical_address)
    × (s.intermediate_physical_address < q * span depth + span depth)

module _ {A : Type 0} where
  -- `size` bytes are mapped by the descriptor `value` at `address`.
  abbrev pub moved : ℕ → ℕ → ℕ → Mapping A → Mapping A
  moved size address value s = record s {
    physical_address = s.physical_address + size;
    intermediate_physical_address = s.intermediate_physical_address + size;
    remaining_size = s.remaining_size - size;
    memory = store s.memory address value;
  }

  abbrev pub linked : ℕ → ℕ → A → Mapping A → Mapping A
  linked address table a s = record s {
    memory = store (clear s.memory table 512) address (table_descriptor table);
    allocator = a;
  }

module _ {A : Type 0} (allocate_page : A → A × Option ℕ) (permission : ℕ) (is_device : Bool) where
  pub moved-runs :
      (size address value : ℕ) (s : Mapping A)
      → Ready s
      → size ≤ s.remaining_size
      → advance allocate_page permission is_device size
          (write_descriptor allocate_page permission is_device address value s)
        ≡ ok (moved size address value s)
  unfolding advance
  moved-runs size address value s r le =
      let hp = r.physical_fits in
      let hi = r.intermediate_fits in
      let fits_p : ltb (s.physical_address + size) (2 ^ 64) ≡ true = ground arith in
      let fits_i : ltb (s.intermediate_physical_address + size) (2 ^ 64) ≡ true = ground arith in
      let fits_r : leb size s.remaining_size ≡ true = ground arith in
      rw (fits_p, fits_i, fits_r) refl

  pub moved-Balanced :
      (size address value : ℕ) (s : Mapping A)
      → Ready s
      → size % 4096 ≡ 0
      → size ≤ s.remaining_size
      → Balanced s (moved size address value s)
  moved-Balanced size address value s r pages le =
      let hw = r.whole_pages in
      record { physical = omega arith; intermediate = omega arith; pages_left = omega arith }

  module _ (s0 : Mapping A) (depth0 root num0 : ℕ) where
    mutual
      -- The states that the walk of a range reaches from `s0`, by writes alone: the descriptor of the
      -- page or of the block at the current addresses, in the slot for the intermediate address of a
      -- table that serves it, with the physical address, the permission and the memory type asked for;
      -- or a new cleared table, linked where there was none.
      pub data Reached : Mapping A → Type 0 where
        start : Reached s0
        page :
            (table num q : ℕ) (s : Mapping A)
            → Reached s
            → Serves 0 table num q
            → Holds 0 q s
            → 4096 ≤ s.remaining_size
            → Reached (
                moved 4096
                  (slot table num q)
                  (page_descriptor s.physical_address permission is_device)
                  s)
        block :
            (depth table num q : ℕ) (s : Mapping A)
            → Reached s
            → Serves depth table num q
            → Holds depth q s
            → depth ≤ 2
            → span depth ≤ s.remaining_size
            → s.physical_address % span depth ≡ 0
            → s.intermediate_physical_address % span depth ≡ 0
            → Reached (
                moved
                  (span depth)
                  (slot table num q)
                  (block_descriptor s.physical_address permission is_device)
                  s)
        link :
            (depth table num q new_table : ℕ) (a : A) (s : Mapping A)
            → Reached s
            → Serves (suc depth) table num q
            → Holds (suc depth) q s
            → is_table_descriptor (s.memory (slot table num q)) ≡ false
            → allocate_page s.allocator ≡ (a, some new_table)
            → Reached (linked (slot table num q) new_table a s)

      -- The tables for the descriptor of number `q` at a depth: the first one, and below a table for
      -- the number `q / 512` the table that its descriptor points to, or the one made for it.
      pub data Serves : ℕ → ℕ → ℕ → ℕ → Type 0 where
        first : (q : ℕ) → Serves depth0 root num0 q
        pointed :
            (depth table num q q' : ℕ) (s : Mapping A)
            → Reached s
            → Serves (suc depth) table num q
            → is_table_descriptor (s.memory (slot table num q)) ≡ true
            → q' / 512 ≡ q
            → Serves depth (get_next_level_table_address (s.memory (slot table num q))) 512 q'
        made :
            (depth table num q q' new_table : ℕ) (a : A) (s : Mapping A)
            → Reached s
            → Serves (suc depth) table num q
            → allocate_page s.allocator ≡ (a, some new_table)
            → q' / 512 ≡ q
            → Serves depth new_table 512 q'

    -- No panic, every byte accounted for, and only writes of the walk. An error is one of the
    -- allocator, at once.
    pub data Accounted (s : Mapping A) : Mapped A → Type 0 where
      mapped : (s' : Mapping A) → Balanced s s' → Reached s' → Accounted s (ok s')
      stopped :
          (s' : Mapping A) (a : A)
          → Balanced s s'
          → Reached s'
          → allocate_page s'.allocator ≡ (a, none)
          → Accounted s (failed (record s' { allocator = a }))

    pub nothing : (s : Mapping A) → Ready s → Balanced s s
    nothing s r = record { physical = refl; intermediate = refl; pages_left = r.whole_pages }

    pub Accounted-after :
        (s s' : Mapping A) (r : Mapped A) → Balanced s s' → Accounted s' r → Accounted s r
    Accounted-after s s' _ b (mapped s'' b' w) = mapped s'' (Balanced-trans s s' s'' b b') w
    Accounted-after s s' _ b (stopped s'' a b' w e) =
        stopped s'' a (Balanced-trans s s' s'' b b') w e

    -- A round and the rest of a loop.
    pub round-Accounted :
        (middle : ℕ) (s : Mapping A) (first' : Mapped A) (rest : Mapping A → Mapped A)
        → Ready s
        → Accounted s first'
        → Ends middle first'
        → ((s' : Mapping A)
            → Reached s'
            → Ready s'
            → 0 < s'.remaining_size
            → middle ≤ s'.intermediate_physical_address
            → s'.intermediate_physical_address < middle + 4096
            → Accounted s' (rest s'))
        → Accounted s (
            and_then allocate_page permission is_device first'
              (unless_done allocate_page permission is_device rest))
    round-Accounted middle s _ rest r (stopped s' a b w e) ends after = stopped s' a b w e
    round-Accounted middle s _ rest r (mapped s' b w) ends after =
        elim (Bool-cases (s'.remaining_size == 0)) [
          | inl t ↦ rw (unless_done, t) (mapped s' b w)
          | inr f ↦
              let left : 0 < s'.remaining_size = ground arith in
              rw (unless_done, f)
                (elim ends [
                  | inl none_left ↦ absurd (omega arith)
                  | inr (low, high) ↦
                      Accounted-after s s' _ b (after s' w (Balanced-Ready s s' r b) left low high)
                ])
        ]
