-- ===== src/GicDistributor/Validity/Words.antt =====
-- src/mmio/gicv2.rs: the arrays of words, the priorities and the configuration.
use mini_visor_pi.Prelude.{
  ℕ, ◌<◌, ◌≡◌, ◌≢◌, refl, ◌∙◌, some, List, length, get_or, set, arith, length-set, get_or-set_ne,
  inl, inr, get_elem?-eq-get_or, ltb→lt, ltb, if◌then◌else◌, Bool-cases,
}
use mini_visor_pi.GicDistributor.{
  GicDistributorMmio, BankedRegisters, WordArray, priority_words, configuration_words, new_banked,
  banked_words, set_banked_words, shared_words, set_shared_words, banked_word_count,
}
use mini_visor_pi.GicDistributor.Registers.{word_register, set_word_register}
use mini_visor_pi.GicDistributor.Validity.{
  IsValidBank, IsValid, bank, bank-IsValidBank, with_banked-IsValid,
}

set_banked_words-IsValidBank :
    (a : WordArray) (b : BankedRegisters) (i x : ℕ)
    → IsValidBank b
    → IsValidBank (set_banked_words a b (set (banked_words a b) i x))
set_banked_words-IsValidBank priority_words b i x v = record {
  priority_count = length-set b.priority i x ∙ v.priority_count;
  configuration_count = v.configuration_count;
}
set_banked_words-IsValidBank configuration_words b i x v = record {
  priority_count = v.priority_count;
  configuration_count = length-set b.configuration i x ∙ v.configuration_count;
}

abbrev pub word_count : WordArray → ℕ
word_count priority_words = 255
word_count configuration_words = 64

-- The registers that an index names, and a Distributor with another value in one.
unfoldable pub put_words : WordArray → GicDistributorMmio → ℕ → ℕ → ℕ → GicDistributorMmio
put_words a d cpu index x =
    if ltb index (banked_word_count a)
    then record d {
      banked =
          set d.banked cpu
            (set_banked_words a (bank d cpu) (set (banked_words a (bank d cpu)) index x));
    }
    else set_shared_words a d (set (shared_words a d) index x)

banked_words-length :
    (a : WordArray) (b : BankedRegisters)
    → IsValidBank b
    → length (banked_words a b) ≡ banked_word_count a
banked_words-length priority_words b v = v.priority_count
banked_words-length configuration_words b v = v.configuration_count

shared_words-length :
    (a : WordArray) (d : GicDistributorMmio) → IsValid d → length (shared_words a d) ≡ word_count a
shared_words-length priority_words d v = v.priority_count
shared_words-length configuration_words d v = v.configuration_count

module _ (a : WordArray) (d : GicDistributorMmio) (cpu index x : ℕ) (v : IsValid d) where
  pub set_word_register-some :
      cpu < 8
      → index < word_count a
      → set_word_register a d cpu index x ≡ some (put_words a d cpu index x)
  unfolding set_word_register put_words
  set_word_register-some hc hi = ground (
    arith,
    get_elem?-eq-get_or d.banked cpu new_banked (omega arith),
    banked_words-length a (bank d cpu) (bank-IsValidBank d cpu v),
    shared_words-length a d v,
  )

  pub put_words-IsValid : IsValid (put_words a d cpu index x)
  unfolding put_words
  put_words-IsValid = elim (Bool-cases (ltb index (banked_word_count a))) [
    | inl e ↦ rw e (
        with_banked-IsValid d cpu _ v
          (set_banked_words-IsValidBank a (bank d cpu) index x (bank-IsValidBank d cpu v)))
    | inr e ↦ rw e (
        with_words a (set (shared_words a d) index x)
          (length-set _ index x ∙ shared_words-length a d v))
  ]
    where
      with_words :
          (a : WordArray) (l : List ℕ) → length l ≡ word_count a → IsValid (set_shared_words a d l)
      with_words priority_words l e = ground arith
      with_words configuration_words l e = ground arith

  pub bank-put_words_other :
      (cpu' : ℕ) → cpu ≢ cpu' → bank (put_words a d cpu index x) cpu' ≡ bank d cpu'
  unfolding put_words
  bank-put_words_other cpu' ne = elim (Bool-cases (ltb index (banked_word_count a))) [
    | inl e ↦ rw e (get_or-set_ne d.banked cpu cpu' _ new_banked ne)
    | inr e ↦ rw e (same a (set (shared_words a d) index x))
  ]
    where
      same : (a : WordArray) (l : List ℕ) → bank (set_shared_words a d l) cpu' ≡ bank d cpu'
      same priority_words l = refl
      same configuration_words l = refl

  pub word_register-some :
      cpu < 8 → index < word_count a → (r : ℕ) × (word_register a d cpu index ≡ some r)
  unfolding word_register
  word_register-some hc hi = elim (Bool-cases (ltb index (banked_word_count a))) [
    | inl e ↦ (
      get_or (banked_words a (bank d cpu)) index 0,
      rw (e, get_elem?-eq-get_or d.banked cpu new_banked (omega (arith, v.banked_count)))
          (get_elem?-eq-get_or (banked_words a (bank d cpu)) index 0 (
            omega (
              arith,
              banked_words-length a (bank d cpu) (bank-IsValidBank d cpu v),
              ltb→lt _ _ e,
            ))),
    )
    | inr e ↦ (
      get_or (shared_words a d) index 0,
      rw e (
          get_elem?-eq-get_or (shared_words a d) index 0
            (omega (arith, shared_words-length a d v))),
    )
  ]
