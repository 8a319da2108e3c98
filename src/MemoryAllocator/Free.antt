-- ===== src/MemoryAllocator/Free.antt =====
-- src/memory_allocator.rs, define_free_memory and free.
use mini_visor_pi.Prelude.{
  ℕ, zero, suc, ◌+◌, ◌*◌, max, Bool, not, ◌&&◌, ◌||◌, Option, none, some, ltb, leb, ◌==◌,
  if◌then◌else◌,
}
use mini_visor_pi.MemoryAllocator.{
  MemoryEntry, invalid_request, Alloc, ◌>>=◌, pure, fail, panic, diverge, state, put, entry, linked,
  sub, add, get_end_address, get_memory_entry, get_size, set_range, delete, create_memory_entry,
  chain_after_me, set_prev_entry, set_next_entry, is_first_entry, pool_size,
}
use mini_visor_pi.MemoryAllocator.FreeList.{chain_entry_to_free_list, unchain_entry_from_free_list}

-- The loop of search_entry_previous_address_mut, from entry `k` on.
unfoldable pub search_previous : ℕ → ℕ → ℕ → Alloc (Option ℕ)
search_previous zero k address = diverge
search_previous (suc fuel) k address = do
  e ← entry k
  (if ltb e.start address
      then elim (linked e.next) [
        | some t ↦ search_previous fuel t address
        | none ↦ pure (if leb e.last address then some k else linked e.previous)
      ]
      else pure (linked e.previous))

-- The entry before an address, or the first one. Without a first entry `unwrap` panics.
unfoldable pub entry_before : ℕ → Alloc ℕ
unfolding search_previous get_memory_entry
entry_before address = do
  s ← state
  found ← elim (linked s.first_entry) [
    | none ↦ pure none
    | some k ↦ search_previous pool_size k address
  ]
  elim found [
    | some k ↦ pure k
    | none ↦ elim s.first_entry [ none ↦ panic | some i ↦ get_memory_entry i ]
  ]

abbrev pub grow_free_size : ℕ → Alloc (Unit {0})
grow_free_size size = do
  s ← state
  total ← add s.free_size size
  put (record s { free_size = total })

-- The entry is before or after the new one, and no entry follows it.
unfoldable pub link_at_end : ℕ → ℕ → Alloc (Unit {0})
unfolding chain_after_me
link_at_end k new_entry = do
  e ← entry k
  n ← entry new_entry
  (if ltb e.last n.start
      then chain_after_me k new_entry
      else (do _ ← link_previous e n; chain_after_me new_entry k))
  where
    link_previous : MemoryEntry → MemoryEntry → Alloc (Unit {0})
    link_previous e n = elim (linked e.previous) [
      | some p ↦ (do
        prev_entry ← entry p
        (if ltb prev_entry.last e.start then chain_after_me p new_entry else panic))
      | none ↦ (do s ← state; put (record s { first_entry = some n.id }))
    ]

-- The new entry goes before entry `k`, or between it and the entry `next` that follows.
unfoldable pub link_between : ℕ → ℕ → ℕ → Alloc (Unit {0})
unfolding chain_after_me set_prev_entry set_next_entry
link_between k next new_entry = do
  e ← entry k
  n ← entry new_entry
  (if ltb n.last e.start then (do _ ← link_previous e n; chain_after_me new_entry k) else (do
    _ ← set_prev_entry next new_entry
    _ ← set_next_entry new_entry next
    chain_after_me k new_entry))
  where
    link_previous : MemoryEntry → MemoryEntry → Alloc (Unit {0})
    link_previous e n = elim (linked e.previous) [
      | some p ↦ (do
        prev_entry ← entry p
        (if ltb prev_entry.last n.start then chain_after_me p new_entry else panic))
      | none ↦ (do s ← state; put (record s { first_entry = some n.id }))
    ]

-- The range becomes an entry of its own.
unfoldable pub add_entry : ℕ → Option ℕ → ℕ → ℕ → ℕ → ℕ → Alloc (Unit {0})
unfolding create_memory_entry set_range link_at_end link_between chain_entry_to_free_list
add_entry k next start last size old_size = do
  new_entry ← create_memory_entry
  _ ← set_range new_entry start last
  _ ← link_new next new_entry
  _ ← grow_free_size size
  _ ← chain_entry_to_free_list k (some old_size)
  chain_entry_to_free_list new_entry none
  where
    link_new : Option ℕ → ℕ → Alloc (Unit {0})
    link_new none new_entry = link_at_end k new_entry
    link_new (some n) new_entry = link_between k n new_entry

-- The range joins the entry before it; the result says so.
unfoldable pub join_previous : ℕ → ℕ → ℕ → Alloc Bool
unfolding set_range
join_previous k start last = do
  e ← entry k
  address_after_entry ← add e.last 1
  past ← add last 1
  _ ← (if address_after_entry == start then set_range k e.start last else pure tt)
  e' ← entry k
  let at_front = is_first_entry e' && (e'.start == past)
  _ ← (if at_front then set_range k start e'.last else pure tt)
  pure ((address_after_entry == start) || at_front)

-- The range joins the entry after it, and that entry joins the one before when they touch.
unfoldable pub join_next : ℕ → ℕ → ℕ → ℕ → ℕ → Bool → Alloc Bool
unfolding get_size set_range chain_entry_to_free_list unchain_entry_from_free_list delete
join_next k next start last address_after_entry processed = do
  n ← entry next
  past ← add last 1
  old_size ← get_size next
  _ ←
      (if n.start == past
        then (do _ ← set_range next start n.last; chain_entry_to_free_list next (some old_size))
        else pure tt)
  let processed' = processed || (n.start == past)
  n' ← entry next
  e ← entry k
  touch ← add e.last 1
  _ ←
      (if (n'.start == touch) || (processed' && leb n'.start address_after_entry)
        then (do
          _ ← set_range k e.start (max e.last n'.last)
          _ ← unchain_entry_from_free_list next
          delete next)
        else pure tt)
  pure processed'

-- The end of define_free_memory: the range joined a neighbour, or becomes an entry.
unfoldable pub finish_free : ℕ → Option ℕ → ℕ → ℕ → ℕ → ℕ → Bool → Alloc (Unit {0})
unfolding add_entry chain_entry_to_free_list
finish_free k next start last size old_size processed =
    if processed
    then (do _ ← grow_free_size size; chain_entry_to_free_list k (some old_size))
    else add_entry k next start last size old_size

-- `fuel` bounds the calls that free what an entry does not cover.
unfoldable pub define_free_memory : ℕ → ℕ → ℕ → Alloc (Unit {0})
unfolding entry_before get_end_address get_size join_previous join_next finish_free
define_free_memory zero start size = diverge
define_free_memory (suc fuel) start size = do
  k ← (if size == 0 then fail invalid_request else entry_before start)
  e ← entry k
  last ← get_end_address start size
  (if leb e.start start && leb last e.last
      then fail invalid_request
      else if leb start e.last && not (is_first_entry e)
      then (do
        from ← add e.last 1
        uncovered ← sub last e.last
        define_free_memory fuel from (uncovered + 2))
      else if e.last == last
      then (do
        covered ← get_size k
        uncovered ← sub size covered
        define_free_memory fuel start uncovered)
      else (do
        old_size ← get_size k
        address_after_entry ← add e.last 1
        processed ← join_previous k start last
        e' ← entry k
        elim (linked e'.next) [
          | none ↦ finish_free k none start last size old_size processed
          | some next ↦ (do
            n ← entry next
            (if leb n.start start
                then (if processed
                    then panic
                    else if leb last n.last
                    then fail invalid_request
                    else (do
                      from ← add n.last 1
                      uncovered ← sub last n.last
                      define_free_memory fuel from uncovered))
                else (do
                  joined ← join_next k next start last address_after_entry processed
                  finish_free k (some next) start last size old_size joined)))
        ]))

unfoldable pub free : ℕ → ℕ → Alloc (Unit {0})
unfolding create_memory_entry get_end_address set_range chain_entry_to_free_list define_free_memory
free start size = do
  s ← state
  (if s.free_size == 0
      then (do
        first_entry ← create_memory_entry
        last ← get_end_address start size
        _ ← set_range first_entry start last
        _ ← chain_entry_to_free_list first_entry none
        e ← entry first_entry
        s' ← state
        put (record s' { first_entry = some e.id; free_size = size }))
      else define_free_memory (2 * pool_size) start size)
