-- ===== src/MemoryAllocator/Order.antt =====
-- src/memory_allocator.rs, size_to_page_order: the free list of a size.
use mini_visor_pi.Prelude.{
  ℕ, zero, suc, ◌+◌, ◌^◌, ◌≤◌, ◌<◌, inl, inr, arith, ltb, ltb→lt, Bool-cases, ℕ_discrete,
}
use mini_visor_pi.MemoryAllocator.Alignment.{order_from, size_to_page_order}

-- `r` is the least order from `order` on whose pages hold the size, or the last of `n` more orders.
pub record IsOrder (n order size r : ℕ) : Type 0 where
  pub low : order ≤ r
  pub high : r ≤ order + n
  pub holds : r < order + n → size ≤ 2 ^ (r + 12)
  pub least : (i : ℕ) → order ≤ i → i < r → 2 ^ (i + 12) < size

order_from-IsOrder : (n order size : ℕ) → IsOrder n order size (order_from n order size)
unfolding order_from
order_from-IsOrder zero order size = record {
  low = omega arith;
  high = omega arith;
  holds = λ h. absurd (omega arith);
  least = λ i lo hi. absurd (omega arith);
}
order_from-IsOrder (suc n) order size = elim (Bool-cases (ltb (2 ^ (order + 12)) size)) [
  | inl e ↦
      let ih = order_from-IsOrder n (order + 1) size in
      rw e (record {
        low = omega (arith, ih.low);
        high = omega (arith, ih.high);
        holds = λ h. ih.holds (omega arith);
        least = λ i lo hi. elim (ℕ_discrete i order) [
          | yes same ↦ rw same (ltb→lt _ _ e)
          | no ne ↦ ih.least i (omega arith) hi
        ];
      })
  | inr e ↦ rw e (record {
    low = omega arith;
    high = omega arith;
    holds = λ h. ground arith;
    least = λ i lo hi. absurd (omega arith);
  })
]

-- A size belongs to the first of the twelve free lists whose order of pages (of 4096 bytes) holds it,
-- and to the last one if none does.
pub size_to_page_order-IsOrder : (size : ℕ) → IsOrder 11 0 size (size_to_page_order size)
unfolding size_to_page_order
size_to_page_order-IsOrder size = order_from-IsOrder 11 0 size
