-- ===== src/Prelude/Search.antt =====
-- `for i in 0..n { if test(i) { return i } }`: the first index that passes a test.
use mini_visor_pi.Prelude.{
  ℕ, zero, suc, ◌+◌, ◌≤◌, ◌<◌, ◌≡◌, inl, inr, Bool, true, false, Option, none, some, arith,
  Bool-cases, if◌then◌else◌, ◌==◌,
}

module _ (test : ℕ → Bool) where
  -- `n` indices are left, from `i` on.
  first_from : ℕ → ℕ → Option ℕ
  first_from zero i = none
  first_from (suc n) i = let rest = first_from n (i + 1) in if test i then some i else rest

  unfoldable pub first_index : ℕ → Option ℕ
  unfolding first_from
  first_index n = first_from n 0

  -- What a search over the indices from `i` up to `hi` gives.
  pub data Found (i hi : ℕ) : Option ℕ → Type 0 where
    found :
        (k : ℕ)
        → i ≤ k
        → k < hi
        → test k ≡ true
        → ((j : ℕ) → i ≤ j → j < k → test j ≡ false)
        → Found i hi (some k)
    missing : ((j : ℕ) → i ≤ j → j < hi → test j ≡ false) → Found i hi none

  extend_miss :
      (i k : ℕ)
      → test i ≡ false
      → ((j : ℕ) → i + 1 ≤ j → j < k → test j ≡ false)
      → (j : ℕ) → i ≤ j
      → j < k
      → test j ≡ false
  extend_miss i k here later j lo hi = elim (Bool-cases (i == j)) [
    | inl e ↦ let e' : i ≡ j = ground arith in rw (← e') here
    | inr e ↦ later j (ground arith) hi
  ]

  extend-Found : (i hi : ℕ) (r : Option ℕ) → test i ≡ false → Found (i + 1) hi r → Found i hi r
  extend-Found i hi r here (found k lo lt yes_k before) =
      found k (omega arith) lt yes_k (extend_miss i k here before)
  extend-Found i hi r here (missing all) = missing (extend_miss i hi here all)

  first_from-Found : (n i hi : ℕ) → i + n ≡ hi → Found i hi (first_from n i)
  unfolding first_from
  first_from-Found zero i hi e = missing (λ j lo lt. absurd (omega arith))
  first_from-Found (suc n) i hi e = elim (Bool-cases (test i)) [
    | inl t ↦ rw t (found i (omega arith) (omega arith) t (λ j lo lt. absurd (omega arith)))
    | inr t ↦
        rw t
          (extend-Found i hi (first_from n (i + 1)) t (first_from-Found n (i + 1) hi (omega arith)))
  ]

  pub first_index-Found : (n : ℕ) → Found 0 n (first_index n)
  unfolding first_index
  first_index-Found n = first_from-Found n 0 n (omega arith)
