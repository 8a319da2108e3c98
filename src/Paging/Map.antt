-- ===== src/Paging/Map.antt =====
-- src/paging.rs, _map_address_stage2: the walk that fills the tables. Memory is a function from the
-- address of a descriptor to its value. The page allocator is a parameter: from its state and a
-- request for a page it gives the next state and an address, or none. A sum past 2^64 and a
-- difference below 0 panic, as in a build with overflow checks.
use mini_visor_pi.Prelude.{
  ℕ, zero, suc, ◌+◌, ◌-◌, ◌*◌, ◌/◌, ◌%◌, ◌^◌, Bool, ◌&&◌, Option, none, some, leb, ltb, ◌==◌,
  if◌then◌else◌,
}
use mini_visor_pi.Paging.{
  page_size, page_descriptor, block_descriptor, table_descriptor, is_table_descriptor,
  get_next_level_table_address,
}

pub record Mapping (A : Type 0) : Type 0 where
  pub physical_address : ℕ
  pub intermediate_physical_address : ℕ
  pub remaining_size : ℕ
  pub memory : ℕ → ℕ
  pub allocator : A

pub data Mapped (A : Type 0) : Type 0 where
  ok : Mapping A → Mapped A
  failed : Mapping A → Mapped A
  panicked : Mapped A

abbrev pub store : (ℕ → ℕ) → ℕ → ℕ → ℕ → ℕ
store memory address value a = if a == address then value else memory a

-- `for d in table { d.init(); }` for `n` descriptors.
abbrev pub clear : (ℕ → ℕ) → ℕ → ℕ → ℕ → ℕ
clear memory table_address n a =
    if leb table_address a && ltb a (table_address + 8 * n) then 0 else memory a

module _ {A : Type 0} (allocate_page : A → A × Option ℕ) (permission : ℕ) (is_device : Bool) where
  abbrev pub and_then : Mapped A → (Mapping A → Mapped A) → Mapped A
  and_then (ok s) f = f s
  and_then (failed s) f = failed s
  and_then panicked f = panicked

  abbrev pub write_descriptor : ℕ → ℕ → Mapping A → Mapping A
  write_descriptor address value s = record s { memory = store s.memory address value }

  -- The two addresses and the size, moved by what was mapped.
  unfoldable pub advance : ℕ → Mapping A → Mapped A
  advance size s =
      if ltb (s.physical_address + size) (2 ^ 64)
        && ltb (s.intermediate_physical_address + size) (2 ^ 64)
        && leb size s.remaining_size
      then ok (record s {
        physical_address = s.physical_address + size;
        intermediate_physical_address = s.intermediate_physical_address + size;
        remaining_size = s.remaining_size - size;
      })
      else panicked

  abbrev pub map_page : ℕ → ℕ → Mapping A → Mapped A
  map_page table_address index s = advance page_size (
      write_descriptor (table_address + 8 * index)
        (page_descriptor s.physical_address permission is_device) s)

  -- `if *remaining_size == 0 { break; }` before the next round.
  abbrev pub unless_done : (Mapping A → Mapped A) → Mapping A → Mapped A
  unless_done next s = if s.remaining_size == 0 then ok s else next s

  -- The loop at level 3 over `n` descriptors from `index` on.
  unfoldable pub map_pages : ℕ → ℕ → ℕ → Mapping A → Mapped A
  map_pages table_address zero index s = ok s
  map_pages table_address (suc n) index s =
      and_then (map_page table_address index s)
        (unless_done (map_pages table_address n (index + 1)))

  abbrev pub fits_block : ℕ → ℕ → Mapping A → Bool
  fits_block depth block_size s =
      leb depth 2
      && leb block_size s.remaining_size
      && (s.physical_address % block_size == 0)
      && (s.intermediate_physical_address % block_size == 0)

  abbrev pub map_block : ℕ → ℕ → ℕ → Mapping A → Mapped A
  map_block block_size table_address index s = advance block_size (
      write_descriptor (table_address + 8 * index)
        (block_descriptor s.physical_address permission is_device) s)

  -- A new table, and the descriptor that points to it.
  abbrev pub linked_table : ℕ → A × Option ℕ → Mapping A → Mapped A × ℕ
  linked_table address (a, none) s = (failed (record s { allocator = a }), 0)
  linked_table address (a, some table) s = (
    ok (record s {
      memory = store (clear s.memory table 512) address (table_descriptor table);
      allocator = a;
    }),
    table,
  )

  -- The table of the next level that the descriptor at `address` points to.
  unfoldable pub next_table : ℕ → Mapping A → Mapped A × ℕ
  next_table address s =
      if is_table_descriptor (s.memory address)
      then (ok s, get_next_level_table_address (s.memory address))
      else linked_table address (allocate_page s.allocator) s

  abbrev pub descend : (ℕ → Mapping A → Mapped A) → ℕ → Mapping A → Mapped A
  descend lower address s = let t = next_table address s in and_then t.0 (lower t.1)

  -- The loop above level 3. `lower` maps at the next level, and `depth` is 3 - level.
  unfoldable pub map_tables : (ℕ → Mapping A → Mapped A) → ℕ → ℕ → ℕ → ℕ → Mapping A → Mapped A
  map_tables lower depth table_address zero index s = ok s
  map_tables lower depth table_address (suc n) index s =
      let block_size = 2 ^ (12 + 9 * depth) in
      let rest = unless_done (map_tables lower depth table_address n (index + 1)) in
      if fits_block depth block_size s
      then and_then (map_block block_size table_address index s) rest
      else and_then (descend lower (table_address + 8 * index) s) rest

  -- `(ipa >> shift) & (num_of_descriptors - 1)`: the number of descriptors is a power of two.
  abbrev pub index_of : ℕ → ℕ → Mapping A → ℕ
  index_of depth num_of_descriptors s =
      s.intermediate_physical_address / 2 ^ (12 + 9 * depth) % num_of_descriptors

  unfoldable pub map_address_stage2_level : ℕ → ℕ → ℕ → Mapping A → Mapped A
  map_address_stage2_level zero num_of_descriptors table_address s =
      let index = index_of 0 num_of_descriptors s in
      map_pages table_address (num_of_descriptors - index) index s
  map_address_stage2_level (suc depth) num_of_descriptors table_address s =
      let index = index_of (suc depth) num_of_descriptors s in
      map_tables (map_address_stage2_level depth 512) (suc depth) table_address
        (num_of_descriptors - index) index s
