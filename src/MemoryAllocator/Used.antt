-- ===== src/MemoryAllocator/Used.antt =====
-- src/memory_allocator.rs, define_used_memory: takes a range out of the free entry that contains its
-- start.
use mini_visor_pi.Prelude.{
  ℕ, zero, suc, ◌+◌, not, ◌&&◌, Option, none, some, ltb, leb, ◌==◌, if◌then◌else◌,
}
use mini_visor_pi.MemoryAllocator.{
  no_memory, invalid_request, Alloc, ◌>>=◌, pure, panic, fail, diverge, state, put, entry, linked,
  sub, add, get_end_address, get_size, set_range, delete, create_memory_entry, chain_after_me,
  is_first_entry, pool_size,
}
use mini_visor_pi.MemoryAllocator.Alignment.{align_address_and_size}
use mini_visor_pi.MemoryAllocator.FreeList.{chain_entry_to_free_list, unchain_entry_from_free_list}

-- The loop of search_entry_containing_address_mut, from entry `k` on.
unfoldable pub search_containing : ℕ → ℕ → ℕ → Alloc (Option ℕ)
search_containing zero k address = diverge
search_containing (suc fuel) k address = do
  e ← entry k
  (if ltb e.start address && ltb e.last address
      then elim (linked e.next) [ none ↦ pure none | some t ↦ search_containing fuel t address ]
      else pure (if leb e.start address && leb address e.last then some k else none))

unfoldable pub search_entry_containing_address_mut : ℕ → Alloc (Option ℕ)
unfolding search_containing
search_entry_containing_address_mut address = do
  s ← state
  elim (linked s.first_entry) [ none ↦ pure none | some k ↦ search_containing pool_size k address ]

-- The whole entry is used.
unfoldable pub delete_entry : ℕ → Alloc (Unit {0})
unfolding unchain_entry_from_free_list delete
delete_entry k = do
  e ← entry k
  s ← state
  _ ←
      (if is_first_entry e
        then elim (linked e.next) [
          | none ↦ put (record s { first_entry = none })
          | some n ↦ (do next_entry ← entry n; put (record s { first_entry = some next_entry.id }))
        ]
        else pure tt)
  _ ← unchain_entry_from_free_list k
  delete k

-- The entry shrinks to a range, and moves to the free list of its new size.
unfoldable pub shrink : ℕ → ℕ → ℕ → Alloc (Unit {0})
unfolding get_size set_range chain_entry_to_free_list
shrink k start last = do
  old_size ← get_size k
  _ ← set_range k start last
  chain_entry_to_free_list k (some old_size)

unfoldable chain_before : ℕ → Option ℕ → Alloc (Unit {0})
unfolding chain_after_me
chain_before k none = pure tt
chain_before k (some next) = chain_after_me k next

-- A range inside the entry is used: the part after it becomes an entry of its own.
unfoldable pub split_entry : ℕ → ℕ → ℕ → Alloc (Unit {0})
unfolding create_memory_entry get_size set_range chain_after_me chain_before
    chain_entry_to_free_list
split_entry k start size = do
  new_entry ← create_memory_entry
  old_size ← get_size k
  e ← entry k
  after ← add start size
  _ ← set_range new_entry after e.last
  before ← sub start 1
  _ ← set_range k e.start before
  e' ← entry k
  _ ← chain_before new_entry (linked e'.next)
  _ ← chain_after_me k new_entry
  _ ← chain_entry_to_free_list k (some old_size)
  chain_entry_to_free_list new_entry none

-- The four cases of the range in the entry.
unfoldable pub carve : ℕ → ℕ → ℕ → Alloc (Unit {0})
unfolding get_end_address delete_entry shrink split_entry get_size set_range
    chain_entry_to_free_list
carve k start size = do
  e ← entry k
  last ← get_end_address start size
  (if e.start == start
      then (if e.last == last
          then delete_entry k
          else (do after ← add start size; shrink k after e.last))
      else if e.last == start
      then (if not (size == 1) then fail invalid_request else (do
        before ← sub start 1
        _ ← set_range k e.start before
        now ← get_size k
        old_size ← add now 1
        chain_entry_to_free_list k (some old_size)))
      else if e.last == last
      then (do before ← sub start 1; shrink k e.start before)
      else split_entry k start size)

-- Past the entry's end nothing is free: only what lies inside it is taken.
unfoldable pub use_entry : ℕ → ℕ → ℕ → Alloc (Unit {0})
unfolding get_end_address carve
use_entry k start size = do
  e ← entry k
  last ← get_end_address start size
  room ← (if ltb e.last last then sub e.last start else pure 0)
  let taken = if ltb e.last last then room + 1 else size
  _ ← carve k start taken
  s ← state
  left ← sub s.free_size taken
  put (record s { free_size = left })

-- define_used_memory with align_order 0.
unfoldable pub define_used_range : ℕ → ℕ → Option ℕ → Alloc (Unit {0})
unfolding search_entry_containing_address_mut use_entry
define_used_range start size target_entry = do
  s ← state
  (if size == 0
      then fail invalid_request
      else if ltb s.free_size size
      then fail no_memory
      else elim target_entry [
        | some k ↦ use_entry k start size
        | none ↦ (do
          found ← search_entry_containing_address_mut start
          elim found [ none ↦ fail invalid_request | some k ↦ use_entry k start size ])
      ])

unfoldable pub define_used_memory : ℕ → ℕ → ℕ → Option ℕ → Alloc (Unit {0})
unfolding define_used_range align_address_and_size
define_used_memory start size align_order target_entry = do
  s ← state
  (if size == 0
      then fail invalid_request
      else if ltb s.free_size size
      then fail no_memory
      else if not (align_order == 0)
      then elim (align_address_and_size start size align_order) [
        | none ↦ panic
        | some aligned ↦ define_used_range aligned.0 aligned.1 target_entry
      ]
      else define_used_range start size target_entry)
