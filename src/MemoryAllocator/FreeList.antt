-- ===== src/MemoryAllocator/FreeList.antt =====
-- src/memory_allocator.rs: the free lists, sorted by size.
use mini_visor_pi.Prelude.{
  ℕ, zero, suc, Bool, true, false, ◌||◌, Option, none, some, leb, ◌==◌, if◌then◌else◌, get_or, set,
}
use mini_visor_pi.MemoryAllocator.{
  Alloc, ◌>>=◌, pure, panic, diverge, state, put, entry, linked, set_list_next, set_list_prev,
  get_size, unchain_from_freelist, pool_size,
}
use mini_visor_pi.MemoryAllocator.Alignment.{size_to_page_order}

abbrev pub is_link : Option ℕ → ℕ → Bool
is_link none id = false
is_link (some n) id = n == id

abbrev pub is_some : Option ℕ → Bool
is_some none = false
is_some (some n) = true

abbrev pub list_head : ℕ → Alloc (Option ℕ)
list_head order = do s ← state; pure (get_or s.free_list order none)

abbrev pub set_list_head : ℕ → Option ℕ → Alloc (Unit {0})
set_list_head order head = do s ← state; put (record s { free_list = set s.free_list order head })

-- If the entry heads the list of `order`, its successor does from now on.
abbrev pub leave_head : ℕ → ℕ → Alloc (Unit {0})
leave_head order k = do
  e ← entry k
  head ← list_head order
  (if is_link head e.id then set_list_head order e.list_next else pure tt)

unfoldable pub unchain_entry_from_free_list : ℕ → Alloc (Unit {0})
unfolding get_size size_to_page_order unchain_from_freelist
unchain_entry_from_free_list k = do
  size ← get_size k
  _ ← leave_head (size_to_page_order size) k
  unchain_from_freelist k

-- The loop that finds the place of entry `k` after `list_entry`.
unfoldable pub insert_after : ℕ → ℕ → ℕ → ℕ → Alloc (Unit {0})
unfolding get_size
insert_after zero list_entry k size = diverge
insert_after (suc fuel) list_entry k size = do
  l ← entry list_entry
  e ← entry k
  elim (linked l.list_next) [
    | none ↦ (do _ ← set_list_next list_entry (some e.id); set_list_prev k (some l.id))
    | some n ↦ (do
      next_size ← get_size n
      next_entry ← entry n
      let later = insert_after fuel n k size
      (if leb size next_size
          then (do
            _ ← set_list_next list_entry (some e.id)
            _ ← set_list_prev k (some l.id)
            _ ← set_list_next k (some next_entry.id)
            set_list_prev n (some e.id))
          else later))
  ]

-- Puts entry `k`, which is in no list, into the list of its size.
unfoldable pub enter_list : ℕ → ℕ → Alloc (Unit {0})
unfolding insert_after get_size size_to_page_order
enter_list k size = do
  e ← entry k
  head ← list_head (size_to_page_order size)
  (if is_some e.list_next || is_some e.list_prev then panic else elim (linked head) [
    | none ↦ set_list_head (size_to_page_order size) (some e.id)
    | some h ↦ (do
      head_size ← get_size h
      head_entry ← entry h
      let later = insert_after pool_size h k size
      (if leb size head_size
          then (do
            _ ← set_list_prev h (some e.id)
            _ ← set_list_next k (some head_entry.id)
            set_list_head (size_to_page_order size) (some e.id))
          else later))
  ])

unfoldable pub chain_entry_to_free_list : ℕ → Option ℕ → Alloc (Unit {0})
unfolding enter_list get_size size_to_page_order unchain_from_freelist
chain_entry_to_free_list k none = do size ← get_size k; enter_list k size
chain_entry_to_free_list k (some old_size) = do
  size ← get_size k
  (if old_size == size then pure tt else (do
    _ ← leave_head (size_to_page_order old_size) k
    _ ← unchain_from_freelist k
    enter_list k size))
