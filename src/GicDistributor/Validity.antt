-- ===== src/GicDistributor/Validity.antt =====
-- The shape of the Distributor's arrays, and the accesses of src/mmio/gicv2.rs that stay inside them.
use mini_visor_pi.Prelude.{
  ℕ, ◌≤◌, ◌<◌, ◌≡◌, ◌≢◌, refl, ap, ◌∙◌, ◌⊎◌, none, some, List, length, get_or, set, arith, All,
  All-get_or, All-set, length-set, get_or-set_self, get_or-set_ne, get_or-set_view, inl, inr,
  get_elem?-eq-get_or, get_elem?-none, lt→ltb, ltb→lt, ltb, ◌==◌, if◌then◌else◌, Bool-cases,
}
use mini_visor_pi.GicDistributor.{
  GicDistributorMmio, BankedRegisters, BitArray, WordArray, group_bits, enable_bits, pending_bits,
  active_bits, priority_words, configuration_words, new_banked, new, banked_bits, set_banked_bits,
  shared_bits, set_shared_bits, banked_words, set_banked_words, shared_words, set_shared_words,
  banked_word_count, set_at, target_to_cpu_index,
}
use mini_visor_pi.GicDistributor.Registers.{
  bit_register, set_bit_register, word_register, set_word_register,
}
pub mod Pending
pub mod Words

pub record IsValidBank (b : BankedRegisters) : Type 0 where
  pub priority_count : length b.priority ≡ 8
  pub configuration_count : length b.configuration ≡ 2

pub record IsValid (d : GicDistributorMmio) : Type 0 where
  pub group_count : length d.group ≡ 32
  pub enable_count : length d.enable ≡ 32
  pub pending_count : length d.pending ≡ 32
  pub active_count : length d.active ≡ 32
  pub priority_count : length d.priority ≡ 255
  pub configuration_count : length d.configuration ≡ 64
  pub target_count : length d.target ≡ 255
  pub banked_count : length d.banked ≡ 8
  pub banks : All IsValidBank d.banked

-- A new Distributor has the sizes that its declaration gives the arrays.
pub new-IsValid : (own_target : ℕ) → IsValid (new own_target)
unfolding new
new-IsValid own_target = omega arith

pub target_to_cpu_index-lt : (t : ℕ) → target_to_cpu_index t < 8
unfolding target_to_cpu_index
target_to_cpu_index-lt t = omega arith

abbrev pub bank : GicDistributorMmio → ℕ → BankedRegisters
bank d cpu = get_or d.banked cpu new_banked

-- The register that an index names, and the Distributor with another value in it.
unfoldable pub bits_at : BitArray → GicDistributorMmio → ℕ → ℕ → ℕ
bits_at a d cpu index =
    if index == 0 then banked_bits a (bank d cpu) else get_or (shared_bits a d) index 0

unfoldable pub put_bits : BitArray → GicDistributorMmio → ℕ → ℕ → ℕ → GicDistributorMmio
put_bits a d cpu index v =
    if index == 0
    then record d { banked = set d.banked cpu (set_banked_bits a (bank d cpu) v) }
    else set_shared_bits a d (set (shared_bits a d) index v)

shared_bits-length :
    (a : BitArray) (d : GicDistributorMmio) → IsValid d → length (shared_bits a d) ≡ 32
shared_bits-length group_bits d v = v.group_count
shared_bits-length enable_bits d v = v.enable_count
shared_bits-length pending_bits d v = v.pending_count
shared_bits-length active_bits d v = v.active_count

set_at_lem {ℓ} :
    {A : Type ℓ} (xs : List A) (i : ℕ) (v : A) → i < length xs → set_at xs i v ≡ some (set xs i v)
set_at_lem xs i v h = rw (lt→ltb i (length xs) h)

module _ (a : BitArray) (d : GicDistributorMmio) (cpu index : ℕ) (v : IsValid d) (hc : cpu < 8)
    (hi : index < 32) where
  pub bit_register-some : bit_register a d cpu index ≡ some (bits_at a d cpu index)
  unfolding bit_register bits_at
  bit_register-some = ground (
    arith,
    get_elem?-eq-get_or d.banked cpu new_banked (omega arith),
    get_elem?-eq-get_or (shared_bits a d) index 0 (omega (arith, shared_bits-length a d v)),
  )

  pub set_bit_register-some :
      (x : ℕ) → set_bit_register a d cpu index x ≡ some (put_bits a d cpu index x)
  unfolding set_bit_register put_bits
  set_bit_register-some x =
      ground
        (arith, get_elem?-eq-get_or d.banked cpu new_banked (omega arith), shared_bits-length a d v)

put_banked-IsValidBank :
    (a : BitArray) (b : BankedRegisters) (x : ℕ)
    → IsValidBank b
    → IsValidBank (set_banked_bits a b x)
put_banked-IsValidBank group_bits b x v = record {
  priority_count = v.priority_count;
  configuration_count = v.configuration_count;
}
put_banked-IsValidBank enable_bits b x v = record {
  priority_count = v.priority_count;
  configuration_count = v.configuration_count;
}
put_banked-IsValidBank pending_bits b x v = record {
  priority_count = v.priority_count;
  configuration_count = v.configuration_count;
}
put_banked-IsValidBank active_bits b x v = record {
  priority_count = v.priority_count;
  configuration_count = v.configuration_count;
}

new_banked-IsValidBank : IsValidBank new_banked
new_banked-IsValidBank = omega arith

pub bank-IsValidBank : (d : GicDistributorMmio) (cpu : ℕ) → IsValid d → IsValidBank (bank d cpu)
bank-IsValidBank d cpu v =
    All-get_or IsValidBank d.banked cpu new_banked v.banks new_banked-IsValidBank

pub with_banked-IsValid :
    (d : GicDistributorMmio) (cpu : ℕ) (b : BankedRegisters)
    → IsValid d
    → IsValidBank b
    → IsValid (record d { banked = set d.banked cpu b })
with_banked-IsValid d cpu b v vb = record {
  group_count = v.group_count;
  enable_count = v.enable_count;
  pending_count = v.pending_count;
  active_count = v.active_count;
  priority_count = v.priority_count;
  configuration_count = v.configuration_count;
  target_count = v.target_count;
  banked_count = length-set d.banked cpu b ∙ v.banked_count;
  banks = All-set IsValidBank d.banked cpu b v.banks vb;
}

with_shared-IsValid :
    (a : BitArray) (d : GicDistributorMmio) (l : List ℕ)
    → IsValid d
    → length l ≡ 32
    → IsValid (set_shared_bits a d l)
with_shared-IsValid group_bits d l v e = ground arith
with_shared-IsValid enable_bits d l v e = ground arith
with_shared-IsValid pending_bits d l v e = ground arith
with_shared-IsValid active_bits d l v e = ground arith

pub put_bits-IsValid :
    (a : BitArray) (d : GicDistributorMmio) (cpu index x : ℕ)
    → IsValid d
    → IsValid (put_bits a d cpu index x)
unfolding put_bits
put_bits-IsValid a d cpu index x v = elim (Bool-cases (index == 0)) [
  | inl e ↦ rw e (
      with_banked-IsValid d cpu _ v
        (put_banked-IsValidBank a (bank d cpu) x (bank-IsValidBank d cpu v)))
  | inr e ↦ rw e (
      with_shared-IsValid a d _ v (length-set (shared_bits a d) index x ∙ shared_bits-length a d v))
]

banked_bits-set :
    (a : BitArray) (b : BankedRegisters) (x : ℕ) → banked_bits a (set_banked_bits a b x) ≡ x
banked_bits-set group_bits b x = refl
banked_bits-set enable_bits b x = refl
banked_bits-set pending_bits b x = refl
banked_bits-set active_bits b x = refl

shared_bits-set :
    (a : BitArray) (d : GicDistributorMmio) (l : List ℕ) → shared_bits a (set_shared_bits a d l) ≡ l
shared_bits-set group_bits d l = refl
shared_bits-set enable_bits d l = refl
shared_bits-set pending_bits d l = refl
shared_bits-set active_bits d l = refl

banked-set_shared :
    (a : BitArray) (d : GicDistributorMmio) (l : List ℕ) → (set_shared_bits a d l).banked ≡ d.banked
banked-set_shared group_bits d l = refl
banked-set_shared enable_bits d l = refl
banked-set_shared pending_bits d l = refl
banked-set_shared active_bits d l = refl

-- A register reads back what was put there.
pub bits_at-put_bits :
    (a : BitArray) (d : GicDistributorMmio) (cpu index x : ℕ)
    → IsValid d
    → cpu < 8
    → index < 32
    → bits_at a (put_bits a d cpu index x) cpu index ≡ x
unfolding put_bits bits_at
bits_at-put_bits a d cpu index x v hc hi = elim (Bool-cases (index == 0)) [
  | inl e ↦ rw e (
      ap (banked_bits a)
        (get_or-set_self d.banked cpu (set_banked_bits a (bank d cpu) x) new_banked (omega arith))
      ∙ banked_bits-set a (bank d cpu) x)
  | inr e ↦ rw e (
      ap (λ l. get_or l index 0) (shared_bits-set a d (set (shared_bits a d) index x))
      ∙ get_or-set_self (shared_bits a d) index x 0 (omega (arith, shared_bits-length a d v)))
]

shared_bits-with_banked :
    (a : BitArray) (d : GicDistributorMmio) (l : List BankedRegisters)
    → shared_bits a (record d { banked = l }) ≡ shared_bits a d
shared_bits-with_banked group_bits d l = refl
shared_bits-with_banked enable_bits d l = refl
shared_bits-with_banked pending_bits d l = refl
shared_bits-with_banked active_bits d l = refl

-- Another register of the same array, or another pCPU's bank, is left alone.
pub bits_at-put_other :
    (a : BitArray) (d : GicDistributorMmio) (cpu cpu' index index' x : ℕ)
    → (index ≢ index') ⊎ (index ≡ 0) × (cpu ≢ cpu')
    → bits_at a (put_bits a d cpu index x) cpu' index' ≡ bits_at a d cpu' index'
unfolding put_bits bits_at
bits_at-put_other a d cpu cpu' index index' x other = elim (Bool-cases (index == 0)) [
  | inl e ↦ elim (Bool-cases (index' == 0)) [
    | inl e' ↦
        rw (e, e')
          (ap (banked_bits a) (
            get_or-set_ne d.banked cpu cpu' (set_banked_bits a (bank d cpu) x) new_banked
              (ground arith)))
    | inr e' ↦
        rw (e, e')
          (ap (λ l. get_or l index' 0)
            (shared_bits-with_banked a d (set d.banked cpu (set_banked_bits a (bank d cpu) x))))
  ]
  | inr e ↦ elim (Bool-cases (index' == 0)) [
    | inl e' ↦
        rw (e, e')
          (ap (λ l. banked_bits a (get_or l cpu' new_banked))
            (banked-set_shared a d (set (shared_bits a d) index x)))
    | inr e' ↦
        rw (e, e')
          (ap (λ l. get_or l index' 0) (shared_bits-set a d (set (shared_bits a d) index x))
            ∙ get_or-set_ne (shared_bits a d) index index' x 0 (ground arith))
  ]
]

-- A pCPU's bank is left alone by a write for another one.
pub bank-put_other :
    (a : BitArray) (d : GicDistributorMmio) (cpu cpu' index x : ℕ)
    → cpu ≢ cpu'
    → bank (put_bits a d cpu index x) cpu' ≡ bank d cpu'
unfolding put_bits
bank-put_other a d cpu cpu' index x other = elim (Bool-cases (index == 0)) [
  | inl e ↦
      rw e (get_or-set_ne d.banked cpu cpu' (set_banked_bits a (bank d cpu) x) new_banked other)
  | inr e ↦
      rw e
        (ap (λ l. get_or l cpu' new_banked) (banked-set_shared a d (set (shared_bits a d) index x)))
]

module _ (d : GicDistributorMmio) (cpu index : ℕ) (v : IsValid d) (hc : cpu < 8) where
  pub priority_register-some :
      index < 255 → (r : ℕ) × (word_register priority_words d cpu index ≡ some r)
  unfolding word_register
  priority_register-some hi = elim (Bool-cases (ltb index 8)) [
    | inl small ↦ (
      get_or (bank d cpu).priority index 0,
      ground (
        arith,
        small,
        get_elem?-eq-get_or d.banked cpu new_banked (omega arith),
        get_elem?-eq-get_or (bank d cpu).priority index 0,
        bank-IsValidBank d cpu v,
      ),
    )
    | inr large ↦ (
      get_or d.priority index 0,
      ground (arith, large, get_elem?-eq-get_or d.priority index 0 (omega arith)),
    )
  ]

  -- The array has 255 registers.
  pub priority_register-none : 255 ≤ index → word_register priority_words d cpu index ≡ none
  unfolding word_register
  priority_register-none hi = rw (get_elem?-none d.priority index (omega arith)) (ground arith)
