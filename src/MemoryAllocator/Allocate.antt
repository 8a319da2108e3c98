-- ===== src/MemoryAllocator/Allocate.antt =====
-- src/memory_allocator.rs, allocate_with_address_limit and reserve_memory.
use mini_visor_pi.Prelude.{
  ℕ, zero, suc, ◌+◌, ◌-◌, ◌^◌, Option, none, some, ltb, leb, min, ◌==◌, if◌then◌else◌, get_or,
}
use mini_visor_pi.MemoryAllocator.{
  MemoryEntry, no_memory, invalid_request, Alloc, ◌>>=◌, pure, fail, panic, diverge, state, entry,
  linked, get_memory_entry, num_of_free_list, pool_size,
}
use mini_visor_pi.MemoryAllocator.Alignment.{size_to_page_order, align_address_and_available_size}
use mini_visor_pi.MemoryAllocator.Used.{define_used_memory}

-- Where in the entry a request is placed: below the limit, and aligned. The outer `none` is a panic.
unfoldable pub place : MemoryEntry → ℕ → ℕ → ℕ → Option (Option ℕ)
unfolding align_address_and_available_size
place e size align_order address_limit =
    let last = min e.last (address_limit - 1) in
    let available_size = if leb e.start last then last - e.start + 1 else 0 in
    if ltb available_size size
    then some none
    else if align_order == 0
    then some (some e.start)
    else elim (align_address_and_available_size e.start available_size align_order) [
      | none ↦ none
      | some aligned ↦ if ltb aligned.1 size then some none else some (some aligned.0)
    ]

-- The first entry of a free list, from entry `k` on, that has a place.
unfoldable pub search_list : ℕ → ℕ → ℕ → ℕ → ℕ → Alloc (Option (ℕ × ℕ))
unfolding place
search_list zero k size align_order address_limit = diverge
search_list (suc fuel) k size align_order address_limit = do
  e ← entry k
  elim (place e size align_order address_limit) [
    | none ↦ panic
    | some found ↦ elim found [
      | some address ↦ pure (some (k, address))
      | none ↦ elim (linked e.list_next) [
        | none ↦ pure none
        | some n ↦ search_list fuel n size align_order address_limit
      ]
    ]
  ]

-- The free lists, `n` of them from `order` on.
unfoldable pub search_lists : ℕ → ℕ → ℕ → ℕ → ℕ → Alloc (Option (ℕ × ℕ))
unfolding search_list get_memory_entry
search_lists zero order size align_order address_limit = pure none
search_lists (suc n) order size align_order address_limit = do
  s ← state
  let rest = search_lists n (order + 1) size align_order address_limit
  elim (get_or s.free_list order none) [
    | none ↦ rest
    | some index ↦ (do
      k ← get_memory_entry index
      found ← search_list pool_size k size align_order address_limit
      elim found [ none ↦ rest | some place ↦ pure (some place) ])
  ]

unfoldable pub allocate_with_address_limit : ℕ → ℕ → ℕ → Alloc ℕ
unfolding search_lists size_to_page_order define_used_memory
allocate_with_address_limit size align_order address_limit = do
  s ← state
  let page_order = size_to_page_order size
  (if size == 0 then fail invalid_request else if ltb s.free_size size then fail no_memory else (do
    found ← search_lists (num_of_free_list - page_order) page_order size align_order address_limit
    elim found [
      | none ↦ fail no_memory
      | some (k, address) ↦ (do _ ← define_used_memory address size 0 (some k); pure address)
    ]))

unfoldable pub allocate : ℕ → ℕ → Alloc ℕ
unfolding allocate_with_address_limit
allocate size align_order = allocate_with_address_limit size align_order (2 ^ 64 - 1)

unfoldable pub allocate_below : ℕ → ℕ → ℕ → Alloc ℕ
unfolding allocate_with_address_limit
allocate_below size align_order address_limit =
    allocate_with_address_limit size align_order address_limit

unfoldable pub reserve_memory : ℕ → ℕ → ℕ → Alloc (Unit {0})
unfolding define_used_memory
reserve_memory start_address size align_order =
    define_used_memory start_address size align_order none
