-- ===== src/Tests/Memory.antt =====
-- src/memory_allocator.rs at concrete inputs.
use mini_visor_pi.Prelude.{
  ℕ, ◌≡◌, refl, true, Option, none, some, List, [], ◌∷◌, arith, if◌then◌else◌,
}
use mini_visor_pi.MemoryAllocator.{
  MemoryEntry, Run, ok, failed, panicked, unfinished, Alloc, ◌>>=◌, new, new_entry,
  create_memory_entry,
}
use mini_visor_pi.MemoryAllocator.Allocate.{allocate, place}
use mini_visor_pi.MemoryAllocator.Free.{free}
use mini_visor_pi.MemoryAllocator.Alignment.{size_to_page_order}
use mini_visor_pi.MemoryAllocator.Order.{IsOrder, size_to_page_order-IsOrder}
use mini_visor_pi.MemoryAllocator.Aligned.{Placement, place-Placement}
use mini_visor_pi.MemoryAllocator.Creation.{Created, create_memory_entry-Created}

size_to_page_order-IsOrder_example : IsOrder 11 0 5000 (size_to_page_order 5000)
size_to_page_order-IsOrder_example = size_to_page_order-IsOrder 5000

create_memory_entry-Created_example : Created new (create_memory_entry new)
create_memory_entry-Created_example = create_memory_entry-Created new

abbrev some_entry : MemoryEntry
some_entry = record new_entry { start = 0x1800; last = 0x7FFF; enabled = true }

place-Placement_example : Placement some_entry 256 12 0x4000 (place some_entry 256 12 0x4000)
place-Placement_example =
    place-Placement some_entry 256 12 0x4000 (omega arith) (omega arith) (omega arith) (omega arith)
      (omega arith) (omega arith)

-- The ranges of the entries in use.
abbrev ranges : List MemoryEntry → List (ℕ × ℕ)
ranges [] = []
ranges (e ∷ pool) = let rest = ranges pool in if e.enabled then (e.start, e.last) ∷ rest else rest

abbrev free_ranges : Run (Unit {0}) → Option (ℕ × List (ℕ × ℕ))
free_ranges (ok _ s) = some (s.free_size, ranges s.memory_entry_pool)
free_ranges (failed _ s) = none
free_ranges panicked = none
free_ranges unfinished = none

-- A byte range is freed, allocated from, and freed again.
abbrev exact_frees : Alloc (Unit {0})
exact_frees = do _ ← free 0 1024; first ← allocate 128 0; free first 128

exact_frees_run : free_ranges (exact_frees new) ≡ some (1024, (0, 1023) ∷ [])
unfolding free allocate new
exact_frees_run = refl

-- The free of bytes 150 to 249 overlaps the entry of bytes 100 to 199, which is not the first one.
abbrev overlapping_free : Alloc (Unit {0})
overlapping_free = do _ ← free 0 10; _ ← free 100 100; _ ← free 300 100; free 150 100

-- The entry then ends at byte 251, and 262 bytes count as free.
overlapping_free_run :
    free_ranges (overlapping_free new) ≡ some (262, (0, 9) ∷ (100, 251) ∷ (300, 399) ∷ [])
unfolding free new
overlapping_free_run = refl
