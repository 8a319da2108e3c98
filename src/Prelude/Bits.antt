-- ===== src/Prelude/Bits.antt =====
-- Binary digits of a word, and what `&`, `|`, `!` and the shifts do to each of them.
mod Step
pub use Step.{bit_and_step, bit_or_step}
use Prim.Native.Nat.{
  ℕ, zero, suc, ◌+◌, ◌-◌, ◌*◌, ◌/◌, ◌%◌, ◌^◌, ◌≤◌, ◌<◌, min, max, bit_and, bit_or, bit_and-bitwise,
}
use mathlib.Core.Path.{◌≡◌, refl, ap, ap₂, ◌∙◌, sym}
use mathlib.Core.Logic.{◌≢◌}
use native.Mathlib.Nat.{pow-suc, one-le-pow, div-div-eq-div-mul, div-add-mod}
use native.Mathlib.Omega.{arith}
use mini_visor_pi.Prelude.Tests.{◌==◌, if◌then◌else◌}

-- x >> k.
abbrev pub shr : ℕ → ℕ → ℕ
shr x k = x / 2 ^ k

-- x << k in a register of w bits.
abbrev pub shl : ℕ → ℕ → ℕ → ℕ
shl w x k = x * 2 ^ k % 2 ^ w

-- !x for a word x of w bits.
abbrev pub complement : ℕ → ℕ → ℕ
complement w x = 2 ^ w - 1 - x

-- The digit of x at place i.
pub bit : ℕ → ℕ → ℕ
bit x zero = x % 2
bit x (suc i) = bit (x / 2) i

pub two_pow_suc : (n : ℕ) → 2 ^ suc n ≡ 2 * 2 ^ n
two_pow_suc n = omega (arith, pow-suc 2 n)

pub bit-zero-place : (x : ℕ) → bit x 0 ≡ x % 2
unfolding bit
bit-zero-place x = refl

pub bit-suc : (x i : ℕ) → bit x (suc i) ≡ bit (x / 2) i
unfolding bit
bit-suc x i = refl

pub bit-zero : (i : ℕ) → bit 0 i ≡ 0
unfolding bit
bit-zero zero = refl
bit-zero (suc i) = bit-zero i

pub bit-le : (x i : ℕ) → bit x i ≤ 1
unfolding bit
bit-le x zero = omega arith
bit-le x (suc i) = bit-le (x / 2) i

pub bit-bit_and : (a b i : ℕ) → bit (bit_and a b) i ≡ min (bit a i) (bit b i)
unfolding bit
bit-bit_and a b zero = omega (arith, bit_and_step a b)
bit-bit_and a b (suc i) =
    let half : bit_and a b / 2 ≡ bit_and (a / 2) (b / 2) = omega (arith, bit_and_step a b) in
    ap (λ t. bit t i) half ∙ bit-bit_and (a / 2) (b / 2) i

pub bit-bit_or : (a b i : ℕ) → bit (bit_or a b) i ≡ max (bit a i) (bit b i)
unfolding bit
bit-bit_or a b zero = omega (arith, bit_or_step a b)
bit-bit_or a b (suc i) =
    let half : bit_or a b / 2 ≡ bit_or (a / 2) (b / 2) = omega (arith, bit_or_step a b) in
    ap (λ t. bit t i) half ∙ bit-bit_or (a / 2) (b / 2) i

pub two_pow-pos : (w : ℕ) → 0 < 2 ^ w
two_pow-pos w = one-le-pow w 2 (omega arith)

pub two_pow-lt : (k w : ℕ) → k < w → 2 ^ k < 2 ^ w
two_pow-lt k zero h = absurd (omega arith)
two_pow-lt zero (suc w) h = omega (arith, two_pow_suc w, two_pow-pos w)
two_pow-lt (suc k) (suc w) h =
    omega (arith, two_pow_suc w, two_pow_suc k, two_pow-lt k w (omega arith))

pub shr-suc : (x k : ℕ) → shr x (suc k) ≡ shr (x / 2) k
shr-suc x k = ap (λ t. x / t) (two_pow_suc k) ∙ sym (div-div-eq-div-mul x 2 (2 ^ k))

pub shr-mod_two : (x k : ℕ) → shr x k % 2 ≡ bit x k
unfolding bit
shr-mod_two x zero = omega arith
shr-mod_two x (suc k) = omega (arith, shr-suc x k, shr-mod_two (x / 2) k)

-- The low digits of x from those of x / 2.
pub mod_step : (x n : ℕ) → x % 2 ^ suc n ≡ x / 2 % 2 ^ n * 2 + x % 2
mod_step x n = omega (
  arith,
  div-add-mod x (2 ^ suc n),
  div-add-mod (x / 2) (2 ^ n),
  shr-suc x n,
  ap (λ (t : ℕ). t * (x / 2 / 2 ^ n)) (two_pow_suc n),
  ap (λ (t : ℕ). 2 ^ suc n * t) (shr-suc x n),
)

lt_two_pow : (a : ℕ) → a < 2 ^ a
lt_two_pow zero = omega arith
lt_two_pow (suc a) = omega (arith, two_pow_suc a, lt_two_pow a)

-- Words of w bits with the same digits are equal.
pub eq_of_bits : (w a b : ℕ) → a < 2 ^ w → b < 2 ^ w → ((i : ℕ) → i < w → bit a i ≡ bit b i) → a ≡ b
unfolding bit
eq_of_bits zero a b ha hb same = omega arith
eq_of_bits (suc w) a b ha hb same = omega (
  arith,
  same 0 (omega arith),
  eq_of_bits w (a / 2) (b / 2) (omega (arith, two_pow_suc w)) (omega (arith, two_pow_suc w))
      (λ i l. same (suc i) (omega arith)),
)

-- Numbers with the same digits are equal.
pub eq_of_place : (a b : ℕ) → ((i : ℕ) → bit a i ≡ bit b i) → a ≡ b
eq_of_place a b same =
    eq_of_bits (a + b) a b (below a (a + b) (omega arith)) (below b (a + b) (omega arith))
      (λ i l. same i)
  where
    below : (c w : ℕ) → c ≤ w → c < 2 ^ w
    below c w h = ground (arith, lt_two_pow w)

pub bit-complement : (w x i : ℕ) → x < 2 ^ w → i < w → bit (complement w x) i ≡ 1 - bit x i
unfolding bit
bit-complement zero x i h l = absurd (omega arith)
bit-complement (suc w) x zero h l = omega (arith, two_pow_suc w, two_pow-pos w)
bit-complement (suc w) x (suc i) h l =
    let half : complement (suc w) x / 2 ≡ complement w (x / 2) =
      omega (arith, two_pow_suc w, two_pow-pos w) in
    ap (λ t. bit t i) half ∙ bit-complement w (x / 2) i (omega (arith, two_pow_suc w)) (omega arith)

pub bit_past : (w x i : ℕ) → x < 2 ^ w → w ≤ i → bit x i ≡ 0
unfolding bit
bit_past zero x i h l = let e : x ≡ 0 = omega arith in ap (λ t. bit t i) e ∙ bit-zero i
bit_past (suc w) x zero h l = absurd (omega arith)
bit_past (suc w) x (suc i) h l = bit_past w (x / 2) i (omega (arith, two_pow_suc w)) (omega arith)

pub bit-two_pow : (k i : ℕ) → bit (2 ^ k) i ≡ (if k == i then 1 else 0)
unfolding bit
bit-two_pow zero zero = refl
bit-two_pow zero (suc i) = ground (arith, bit-zero i)
bit-two_pow (suc k) zero = ground (arith, two_pow_suc k)
bit-two_pow (suc k) (suc i) =
    let half : 2 ^ suc k / 2 ≡ 2 ^ k = omega (arith, two_pow_suc k) in
    ap (λ t. bit t i) half ∙ bit-two_pow k i ∙ ground arith

bit_and-zero : (a : ℕ) → bit_and a 0 ≡ 0
bit_and-zero a = eq_of_place (bit_and a 0) 0 (λ i. bit-bit_and a 0 i ∙ omega (arith, bit-zero i))

-- (x >> k) & 1.
pub bit_and-shr-one : (x k : ℕ) → bit_and (shr x k) 1 ≡ bit x k
bit_and-shr-one x k =
    omega (arith, bit_and_step (shr x k) 1, bit_and-zero (shr x k / 2), shr-mod_two x k)

-- x & (1 << k).
pub bit_and-two_pow : (x k : ℕ) → bit_and x (2 ^ k) ≡ bit x k * 2 ^ k
unfolding bit
bit_and-two_pow x zero = omega (arith, bit_and_step x 1, bit_and-zero (x / 2))
bit_and-two_pow x (suc k) = omega (
  arith,
  bit_and_step x (2 ^ suc k),
  two_pow_suc k,
  ap (bit_and (x / 2)) half,
  bit_and-two_pow (x / 2) k,
  ap (λ (t : ℕ). bit (x / 2) k * t) (two_pow_suc k),
)
  where
    half : 2 ^ suc k / 2 ≡ 2 ^ k
    half = omega (arith, two_pow_suc k)

-- x & (2^n - 1).
pub bit_and_mask : (n x : ℕ) → bit_and x (2 ^ n - 1) ≡ x % 2 ^ n
bit_and_mask zero x = omega (arith, bit_and-zero x)
bit_and_mask (suc n) x = omega (
  arith,
  bit_and_step x (2 ^ suc n - 1),
  ap (bit_and (x / 2)) half,
  bit_and_mask n (x / 2),
  mod_step x n,
  two_pow_suc n,
  two_pow-pos n,
)
  where
    half : (2 ^ suc n - 1) / 2 ≡ 2 ^ n - 1
    half = omega (arith, two_pow_suc n, two_pow-pos n)

bit_or-zero : (a : ℕ) → bit_or a 0 ≡ a
bit_or-zero a = eq_of_place (bit_or a 0) a (λ i. bit-bit_or a 0 i ∙ omega (arith, bit-zero i))

-- `|` of parts that do not overlap is their sum.
pub bit_or_parts : (n high low : ℕ) → low < 2 ^ n → bit_or (high * 2 ^ n) low ≡ high * 2 ^ n + low
bit_or_parts zero high low h = let e : low ≡ 0 = omega arith in rw (e, bit_or-zero) (omega arith)
bit_or_parts (suc n) high low h = omega (
  arith,
  bit_or_step (high * 2 ^ suc n) low,
  twice,
  ap (λ t. bit_or t (low / 2)) half,
  bit_or_parts n high (low / 2) (omega (arith, two_pow_suc n)),
)
  where
    twice : high * 2 ^ suc n ≡ 2 * (high * 2 ^ n)
    twice = omega (arith, ap (λ (t : ℕ). high * t) (two_pow_suc n))

    half : high * 2 ^ suc n / 2 ≡ high * 2 ^ n
    half = omega (arith, twice)

pub bit_or-lt : (w a b : ℕ) → a < 2 ^ w → b < 2 ^ w → bit_or a b < 2 ^ w
bit_or-lt zero a b ha hb =
    let ea : a ≡ 0 = omega arith in let eb : b ≡ 0 = omega arith in rw (ea, eb) (omega arith)
bit_or-lt (suc w) a b ha hb = omega (
  arith,
  bit_or_step a b,
  two_pow_suc w,
  bit_or-lt w (a / 2) (b / 2) (omega (arith, two_pow_suc w)) (omega (arith, two_pow_suc w)),
)

pub bit_and-le : (a b : ℕ) → bit_and a b ≤ a
bit_and-le a b = bound a a b (omega arith)
  where
    bound : (f a b : ℕ) → a ≤ f → bit_and a b ≤ a
    bound zero zero b h = omega (arith, bit_and-bitwise 0 b)
    bound zero (suc a) b h = absurd (omega arith)
    bound (suc f) zero b h = omega (arith, bit_and-bitwise 0 b)
    bound (suc f) (suc a) b h =
        omega (arith, bit_and_step (suc a) b, bound f (suc a / 2) (b / 2) (omega arith))

pub bit-set : (x k i : ℕ) → bit (bit_or x (2 ^ k)) i ≡ (if k == i then 1 else bit x i)
bit-set x k i = ground (arith, bit-bit_or x (2 ^ k) i, bit-two_pow k i, bit-le x i)

pub bit-clear :
    (w x k i : ℕ)
    → k < w
    → i < w
    → bit (bit_and x (complement w (2 ^ k))) i ≡ (if k == i then 0 else bit x i)
bit-clear w x k i hk hi = ground (
  arith,
  bit-bit_and x (complement w (2 ^ k)) i,
  bit-complement w (2 ^ k) i (two_pow-lt k w hk) hi,
  bit-two_pow k i,
  bit-le x i,
)

pub bit_or_comm : (a b : ℕ) → bit_or a b ≡ bit_or b a
bit_or_comm a b =
    eq_of_place (bit_or a b) (bit_or b a) (λ i. omega (arith, bit-bit_or a b i, bit-bit_or b a i))

pub bit_or_assoc : (a b c : ℕ) → bit_or (bit_or a b) c ≡ bit_or a (bit_or b c)
bit_or_assoc a b c = eq_of_place (bit_or (bit_or a b) c) (bit_or a (bit_or b c)) (λ i. omega (
  arith,
  bit-bit_or (bit_or a b) c i,
  bit-bit_or a b i,
  bit-bit_or a (bit_or b c) i,
  bit-bit_or b c i,
))

-- A mask that starts at place k.
pub bit_and_shifted : (k x m : ℕ) → bit_and x (m * 2 ^ k) ≡ bit_and (shr x k) m * 2 ^ k
bit_and_shifted zero x m = rw (scaled m, whole) (sym (scaled (bit_and x m)))
  where
    scaled : (t : ℕ) → t * 2 ^ 0 ≡ t
    scaled t = omega arith

    whole : shr x 0 ≡ x
    whole = omega arith
bit_and_shifted (suc k) x m = omega (
  arith,
  bit_and_step x (m * 2 ^ suc k),
  ap (λ (t : ℕ). m * t) (two_pow_suc k),
  ap (bit_and (x / 2)) half,
  bit_and_shifted k (x / 2) m,
  ap (λ t. bit_and t m) (shr-suc x k),
  ap (λ (t : ℕ). bit_and (shr (x / 2) k) m * t) (two_pow_suc k),
  ap (λ (t : ℕ). t * 2 ^ suc k) (ap (λ t. bit_and t m) (shr-suc x k)),
)
  where
    half : m * 2 ^ suc k / 2 ≡ m * 2 ^ k
    half = omega (arith, ap (λ (t : ℕ). m * t) (two_pow_suc k))

-- `|` with digits from place k on leaves those below alone.
pub mod-bit_or_above : (k x m : ℕ) → bit_or x (m * 2 ^ k) % 2 ^ k ≡ x % 2 ^ k
mod-bit_or_above zero x m = omega arith
mod-bit_or_above (suc k) x m = omega (
  arith,
  mod_step (bit_or x (m * 2 ^ suc k)) k,
  mod_step x k,
  bit_or_step x (m * 2 ^ suc k),
  ap (λ (t : ℕ). m * t) (two_pow_suc k),
  ap (λ t. bit_or (x / 2) t % 2 ^ k) half,
  ap (λ t. t % 2 ^ k) whole,
  mod-bit_or_above k (x / 2) m,
)
  where
    half : m * 2 ^ suc k / 2 ≡ m * 2 ^ k
    half = omega (arith, ap (λ (t : ℕ). m * t) (two_pow_suc k))

    whole : bit_or x (m * 2 ^ suc k) / 2 ≡ bit_or (x / 2) (m * 2 ^ suc k / 2)
    whole = omega (arith, bit_or_step x (m * 2 ^ suc k))
