-- ===== src/GicDistributor/Banking.antt =====
-- src/mmio/gicv2.rs, write: it stays inside the arrays, and a pCPU's write leaves the SGI/PPI settings
-- of the other pCPUs alone.
use mini_visor_pi.Prelude.{
  ℕ, ◌-◌, ◌*◌, ◌/◌, ◌%◌, ◌^◌, ◌≤◌, ◌<◌, ◌≡◌, ◌≢◌, refl, ap, ◌∙◌, Bool, true, false, ◌&&◌, Option,
  some, length, set, length-set, arith, inl, inr, ◌==◌, if◌then◌else◌, ltb, Bool-cases, bit_or,
  get_elem?-eq-get_or, lt→ltb,
}
use mini_visor_pi.GicDistributor.{
  GicDistributorMmio, BitArray, WordArray, priority_words, target_to_cpu_index,
}
use mini_visor_pi.GicDistributor.Registers.{set_bit_register, set_word_register}
use mini_visor_pi.GicDistributor.Trigger.{Platform}
use mini_visor_pi.GicDistributor.Validity.{
  IsValid, bank, bits_at, put_bits-IsValid, bank-put_other, bit_register-some,
  set_bit_register-some, target_to_cpu_index-lt,
}
use mini_visor_pi.GicDistributor.Validity.Pending.{without_pending}
use mini_visor_pi.GicDistributor.Validity.Words.{
  word_register-some, set_word_register-some, word_count, put_words-IsValid, bank-put_words_other,
}
use mini_visor_pi.GicDistributor.Mmio.{
  Register, ctlr, typer, pidr2, unknown, sgir, igroupr, isenabler, icenabler, ispendr, icpendr,
  isactiver, icactiver, icfgr, ipriorityr, itargetsr, decode, within, write_priority, write_target,
  or_bits, clear_bits, keep_gich,
}

-- The register that `decode` gives for an offset has its index in range.
pub data InRange (offset : ℕ) : Register → Type 0 where
  in_igroupr : (i : ℕ) → i < 32 → InRange offset (igroupr i)
  in_icenabler : (i : ℕ) → i < 32 → InRange offset (icenabler i)
  in_icpendr : (i : ℕ) → i < 32 → InRange offset (icpendr i)
  in_isactiver : (i : ℕ) → i < 32 → InRange offset (isactiver i)
  in_icactiver : (i : ℕ) → i < 32 → InRange offset (icactiver i)
  in_icfgr : (i : ℕ) → i < 64 → InRange offset (icfgr i)
  in_isenabler : (i : ℕ) → i < 32 → (i ≡ 31 → offset ≡ 0x17C) → InRange offset (isenabler i)
  in_ispendr : (i : ℕ) → i < 32 → (i ≡ 31 → offset ≡ 0x27C) → InRange offset (ispendr i)
  in_ipriorityr : (i b : ℕ) → i < 255 → InRange offset (ipriorityr i b)
  in_itargetsr : (i b : ℕ) → i < 255 → InRange offset (itargetsr i b)
  in_ctlr : InRange offset ctlr
  in_typer : InRange offset typer
  in_pidr2 : InRange offset pidr2
  in_unknown : InRange offset unknown
  in_sgir : InRange offset sgir

module _ (offset : ℕ) (word : Bool) where
  branch :
      (test : Bool) (r r' : Register)
      → (test ≡ true → InRange offset r)
      → InRange offset r'
      → InRange offset (if test then r else r')
  branch true r r' h k = h refl
  branch false r r' h k = k

  bounds : (lo hi : ℕ) → within lo hi offset ≡ true → (lo ≤ offset) × (offset ≤ hi)
  bounds lo hi h = ground arith

  word_bounds : (lo hi : ℕ) → within lo hi offset && word ≡ true → (lo ≤ offset) × (offset ≤ hi)
  word_bounds lo hi h = ground arith

-- Every index that `decode` gives lies inside its array.
pub decode-InRange : (offset access_width : ℕ) → InRange offset (decode offset access_width)
unfolding decode
decode-InRange offset access_width =
    go _ _ _ (λ h. in_ctlr)
      (go _ _ _ (λ h. in_typer)
        (go _ _ _ (λ h. in_igroupr ((offset - 0x0080) / 4) (omega (arith, in_word 0x0080 0x00FC h)))
          (go _ _ _
            (λ h.
              in_isenabler ((offset - 0x0100) / 4) (omega (arith, in_word 0x0100 0x017C h))
                (λ e. omega (arith, in_word 0x0100 0x017C h)))
            (go _ _ _
              (λ h. in_icenabler ((offset - 0x0180) / 4) (omega (arith, in_word 0x0180 0x01FC h)))
              (go _ _ _
                (λ h.
                  in_ispendr ((offset - 0x0200) / 4) (omega (arith, in_word 0x0200 0x027C h))
                    (λ e. omega (arith, in_word 0x0200 0x027C h)))
                (go _ _ _
                  (λ h. in_icpendr ((offset - 0x0280) / 4) (omega (arith, in_word 0x0280 0x02FC h)))
                  (go _ _ _
                    (λ h.
                      in_isactiver ((offset - 0x0300) / 4) (omega (arith, in_word 0x0300 0x037C h)))
                    (go _ _ _
                      (λ h.
                        in_icactiver ((offset - 0x0380) / 4)
                          (omega (arith, in_word 0x0380 0x03FC h)))
                      (go _ _ _
                        (λ h.
                          in_ipriorityr ((offset - 0x0400) / 4) ((offset - 0x0400) % 4)
                            (omega (arith, in_bytes 0x0400 0x07FB h)))
                        (go _ _ _
                          (λ h.
                            in_itargetsr ((offset - 0x0800) / 4) ((offset - 0x0800) % 4)
                              (omega (arith, in_bytes 0x0800 0x0BFB h)))
                          (go _ _ _
                            (λ h.
                              in_icfgr ((offset - 0x0C00) / 4)
                                (omega (arith, in_word 0x0C00 0x0CFC h)))
                            (go _ _ _ (λ h. in_sgir)
                              (go _ _ _ (λ h. in_pidr2) in_unknown)))))))))))))
  where
    word : Bool
    word = access_width == 32

    go :
        (test : Bool) (r r' : Register)
        → (test ≡ true → InRange offset r)
        → InRange offset r'
        → InRange offset (if test then r else r')
    go = branch offset word

    in_word : (lo hi : ℕ) → within lo hi offset && word ≡ true → (lo ≤ offset) × (offset ≤ hi)
    in_word = word_bounds offset word

    in_bytes : (lo hi : ℕ) → within lo hi offset ≡ true → (lo ≤ offset) × (offset ≤ hi)
    in_bytes = bounds offset word

-- A valid Distributor whose banks, but for pending bits, are as before for every pCPU but `cpu`.
pub record Kept (cpu : ℕ) (p p' : Platform) : Type 0 where
  pub valid : IsValid p'.dist
  pub settings :
      (c : ℕ) → cpu ≢ c → without_pending (bank p'.dist c) ≡ without_pending (bank p.dist c)

unfoldable pub Runs : ℕ → Platform → Option Platform → Type 0
Runs cpu p m = (p' : Platform) × (m ≡ some p') × Kept cpu p p'

pub Kept-trans : {cpu : ℕ} {p q r : Platform} → Kept cpu p q → Kept cpu q r → Kept cpu p r
Kept-trans k l = record { valid = l.valid; settings = λ c ne. l.settings c ne ∙ k.settings c ne }

pub Kept-refl : (cpu : ℕ) (p : Platform) → IsValid p.dist → Kept cpu p p
Kept-refl cpu p v = record { valid = v; settings = λ c ne. refl }

module _ (t : ℕ) where
  abbrev cpu : ℕ
  cpu = target_to_cpu_index t

  Runs-dist :
      (p : Platform) (m : Option GicDistributorMmio) (d : GicDistributorMmio)
      → m ≡ some d
      → IsValid d
      → ((c : ℕ) → cpu ≢ c → bank d c ≡ bank p.dist c)
      → Runs cpu p (keep_gich p m)
  unfolding Runs
  Runs-dist p m d e v same = (
    record p { dist = d },
    rw e,
    record { valid = v; settings = λ c ne. ap without_pending (same c ne) },
  )

  pub Runs-put_bits :
      (a : BitArray) (p : Platform) (i x : ℕ)
      → IsValid p.dist
      → i < 32
      → Runs cpu p (keep_gich p (set_bit_register a p.dist cpu i x))
  Runs-put_bits a p i x v hi =
      Runs-dist p _ _ (set_bit_register-some a p.dist cpu i v (target_to_cpu_index-lt t) hi x)
        (put_bits-IsValid a p.dist cpu i x v) (λ c ne. bank-put_other a p.dist cpu c i x ne)

  or_bits-eq :
      (a : BitArray) (p : Platform) (i x : ℕ)
      → IsValid p.dist
      → i < 32
      → or_bits a cpu p.dist i x
        ≡ set_bit_register a p.dist cpu i (bit_or (bits_at a p.dist cpu i) (x % 2 ^ 32))
  unfolding or_bits
  or_bits-eq a p i x v hi = rw (bit_register-some a p.dist cpu i v (target_to_cpu_index-lt t) hi)

  pub Runs-or_bits :
      (a : BitArray) (p : Platform) (i x : ℕ)
      → IsValid p.dist
      → i < 32
      → Runs cpu p (keep_gich p (or_bits a cpu p.dist i x))
  Runs-or_bits a p i x v hi = rw (or_bits-eq a p i x v hi) (Runs-put_bits a p i _ v hi)

  pub Runs-clear_bits :
      (a : BitArray) (p : Platform) (i x : ℕ)
      → IsValid p.dist
      → i < 32
      → Runs cpu p (keep_gich p (clear_bits a cpu p.dist i x))
  unfolding clear_bits
  Runs-clear_bits a p i x v hi =
      rw (bit_register-some a p.dist cpu i v (target_to_cpu_index-lt t) hi)
        (Runs-put_bits a p i _ v hi)

  pub Runs-put_words :
      (a : WordArray) (p : Platform) (i x : ℕ)
      → IsValid p.dist
      → i < word_count a
      → Runs cpu p (keep_gich p (set_word_register a p.dist cpu i x))
  Runs-put_words a p i x v hi =
      Runs-dist p _ _ (set_word_register-some a p.dist cpu i x v (target_to_cpu_index-lt t) hi)
        (put_words-IsValid a p.dist cpu i x v) (bank-put_words_other a p.dist cpu i x v)

  pub Runs-write_priority :
      (p : Platform) (i b w x : ℕ)
      → IsValid p.dist
      → i < 255
      → Runs cpu p (keep_gich p (write_priority cpu p.dist i b w x))
  unfolding write_priority
  Runs-write_priority p i b w x v hi = elim (Bool-cases (w == 8)) [
    | inl e ↦
        let (r, read) =
          word_register-some priority_words p.dist cpu i 0 v (target_to_cpu_index-lt t) hi in
        rw (e, read) (Runs-put_words priority_words p i _ v hi)
    | inr e ↦ elim (Bool-cases ((b == 0) && (w == 32))) [
      | inl f ↦ rw (e, f) (Runs-put_words priority_words p i _ v hi)
      | inr f ↦ rw (e, f) (Runs-dist p _ p.dist refl v (λ c ne. refl))
    ]
  ]

  with_target-IsValid :
      (d : GicDistributorMmio) (i x : ℕ)
      → IsValid d
      → IsValid (record d { target = set d.target i x })
  with_target-IsValid d i x v = ground (arith, length-set d.target i x)

  pub Runs-write_target :
      (p : Platform) (i b w x : ℕ)
      → IsValid p.dist
      → i < 255
      → Runs cpu p (keep_gich p (write_target p.dist i b w x))
  unfolding write_target
  Runs-write_target p i b w x v hi = elim (Bool-cases (ltb (i * 4) 32)) [
    | inl e ↦ rw e (Runs-dist p _ p.dist refl v (λ c ne. refl))
    | inr e ↦ elim (Bool-cases (w == 8)) [
      | inl f ↦
          rw
            (e, f, get_elem?-eq-get_or p.dist.target i 0 (omega (arith, v.target_count)), in_target)
            (Runs-dist p _ _ refl (with_target-IsValid p.dist i _ v) (λ c ne. refl))
      | inr f ↦ elim (Bool-cases ((b == 0) && (w == 32))) [
        | inl g ↦
            rw (e, f, g, in_target)
              (Runs-dist p _ _ refl (with_target-IsValid p.dist i _ v) (λ c ne. refl))
        | inr g ↦ rw (e, f, g) (Runs-dist p _ p.dist refl v (λ c ne. refl))
      ]
    ]
  ]
    where
      in_target : ltb i (length p.dist.target) ≡ true
      in_target = lt→ltb i _ (omega (arith, v.target_count))
