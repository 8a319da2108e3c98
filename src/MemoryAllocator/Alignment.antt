-- ===== src/MemoryAllocator/Alignment.antt =====
-- src/memory_allocator.rs, size_to_page_order and the alignment of requests, with overflow checks.
use mini_visor_pi.Prelude.{
  ℕ, zero, suc, ◌+◌, ◌-◌, ◌^◌, bit_and, ltb, ◌==◌, if◌then◌else◌, not, ◌&&◌, Option, none, some,
}
use mini_visor_pi.Prelude.Bits.{complement}
use mini_visor_pi.MemoryAllocator.{num_of_free_list}

-- The loop of size_to_page_order; `n` more orders can be tried.
unfoldable pub order_from : ℕ → ℕ → ℕ → ℕ
order_from zero order size = order
order_from (suc n) order size =
    let next = order_from n (order + 1) size in if ltb (2 ^ (order + 12)) size then next else order

unfoldable pub size_to_page_order : ℕ → ℕ
unfolding order_from
size_to_page_order size = order_from (num_of_free_list - 1) 0 size

-- `none`: the shift, a sum or a difference overflows, which panics.
unfoldable pub align_address_and_size : ℕ → ℕ → ℕ → Option (ℕ × ℕ)
align_address_and_size address size align_order =
    let align_size = 2 ^ align_order in
    let mask = complement 64 (align_size - 1) in
    let aligned_address = bit_and address mask in
    let sum = size + (address - aligned_address) in
    let aligned_size = bit_and (sum - 1) mask + align_size in
    if ltb align_order 64 && ltb 0 sum && ltb sum (2 ^ 64) && ltb aligned_size (2 ^ 64)
    then some (aligned_address, aligned_size)
    else none

-- `none`: the shift or the sum overflows, which panics.
unfoldable pub align_address_and_available_size : ℕ → ℕ → ℕ → Option (ℕ × ℕ)
align_address_and_available_size start size align_order =
    let align_size = 2 ^ align_order in
    let mask = complement 64 (align_size - 1) in
    let aligned_address = bit_and (start - 1) mask + align_size in
    if start == 0
    then some (0, size)
    else if not (ltb align_order 64 && ltb aligned_address (2 ^ 64))
    then none
    else if ltb (aligned_address - start) size
    then some (aligned_address, size - (aligned_address - start))
    else some (aligned_address, 0)
