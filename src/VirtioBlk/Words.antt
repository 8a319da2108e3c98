-- ===== src/VirtioBlk/Words.antt =====
-- Little-endian words in a memory of bytes.
use mini_visor_pi.Prelude.{
  ℕ, zero, suc, ◌+◌, ◌*◌, ◌/◌, ◌%◌, ◌^◌, ◌<◌, ◌≤◌, ◌≡◌, refl, ◌∙◌, true, false, ◌==◌, if◌then◌else◌,
  arith, ==-true,
}
use native.Mathlib.Nat.{pow-suc}

-- A word of `n` bytes.
unfoldable pub read_word : ℕ → (ℕ → ℕ) → ℕ → ℕ
read_word zero memory address = 0
read_word (suc n) memory address = memory address % 256 + 256 * read_word n memory (address + 1)

unfoldable pub write_word : ℕ → (ℕ → ℕ) → ℕ → ℕ → ℕ → ℕ
write_word zero memory address v a = memory a
write_word (suc n) memory address v a =
    if a == address then v % 256 else write_word n memory (address + 1) (v / 256) a

pub write_word-before :
    (n : ℕ) (memory : ℕ → ℕ) (address v a : ℕ)
    → a < address
    → write_word n memory address v a ≡ memory a
unfolding write_word
write_word-before zero memory address v a lt = refl
write_word-before (suc n) memory address v a lt =
    let e : (a == address) ≡ false = ground arith in
    rw e (write_word-before n memory (address + 1) (v / 256) a (omega arith))

pub write_word-behind :
    (n : ℕ) (memory : ℕ → ℕ) (address v a : ℕ)
    → address + n ≤ a
    → write_word n memory address v a ≡ memory a
unfolding write_word
write_word-behind zero memory address v a le = refl
write_word-behind (suc n) memory address v a le =
    let e : (a == address) ≡ false = ground arith in
    rw e (write_word-behind n memory (address + 1) (v / 256) a (omega arith))

-- Reading sees only the bytes of the word.
pub read_word-same :
    (n : ℕ) (m m' : ℕ → ℕ) (address : ℕ)
    → ((a : ℕ) → address ≤ a → a < address + n → m a ≡ m' a)
    → read_word n m address ≡ read_word n m' address
unfolding read_word
read_word-same zero m m' address same = refl
read_word-same (suc n) m m' address same =
    let first = same address (omega arith) (omega arith) in
    let rest =
      read_word-same n m m' (address + 1) (λ a le lt. same a (omega arith) (omega arith)) in
    rw (first, rest) refl

pub read_word-write_word :
    (n : ℕ) (memory : ℕ → ℕ) (address v : ℕ)
    → v < 256 ^ n
    → read_word n (write_word n memory address v) address ≡ v
unfolding read_word write_word
read_word-write_word zero memory address v small = omega arith
read_word-write_word (suc n) memory address v small =
    let here : (address == address) ≡ true = ==-true _ _ refl in
    let rest : read_word n (write_word (suc n) memory address v) (address + 1) ≡ v / 256 =
      read_word-same n (write_word (suc n) memory address v)
        (write_word n memory (address + 1) (v / 256)) (address + 1) later
      ∙ read_word-write_word n memory (address + 1) (v / 256) (omega (arith, pow-suc 256 n)) in
    omega (arith, first, rest)
  where
    first : write_word (suc n) memory address v address ≡ v % 256
    first = let here : (address == address) ≡ true = ==-true _ _ refl in rw (write_word, here) refl

    later :
        (a : ℕ)
        → address + 1 ≤ a
        → a < address + 1 + n
        → write_word (suc n) memory address v a ≡ write_word n memory (address + 1) (v / 256) a
    later a le lt = let e : (a == address) ≡ false = ground arith in rw (write_word, e) refl
