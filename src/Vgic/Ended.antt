-- ===== src/Vgic/Ended.antt =====
-- src/vgic.rs, the loop of maintenance_interrupt_handler over the List Registers.
use mini_visor_pi.Prelude.{
  ℕ, zero, suc, ◌+◌, ◌/◌, ◌%◌, ◌≤◌, ◌<◌, ◌≡◌, ◌≢◌, refl, sym, ap, ◌∙◌, ◌⊎◌, inl, inr, Bool, false,
  some, arith, bit_and, get_or-set_view, get_or-set_self, get_or-set_ne, length, length-set, ◌==◌,
  ==_iff, ==→≢, Bool-cases, ℕ_discrete,
}
use mini_visor_pi.Prelude.Bits.{bit, bit_and_mask, bit-suc, bit-le, bit_and-two_pow}
use mini_visor_pi.VgicLr.{gich_lr_virtual_id}
use mini_visor_pi.ListRegisters.{get_gich_lr, set_gich_lr}
use mini_visor_pi.GicDistributor.{
  GicDistributorMmio, BankedRegisters, pending_bits, active_bits, new_banked, set_banked_bits,
}
use mini_visor_pi.GicDistributor.Validity.{IsValid, bank, bits_at, put_bits}
use mini_visor_pi.GicDistributor.Flags.{
  flag, set_flag, set_flag-IsValid, flag-set_flag, flag-set_flag_other, flag-set_pending,
  change_pending_status_of-some, change_active_status-some,
}
use mini_visor_pi.GicDistributor.Trigger.{Platform}
use mini_visor_pi.Vgic.{end_interrupt, end_interrupts}

-- A change of an active bit is not seen among the pending bits.
bits_at-put_active :
    (d : GicDistributorMmio) (cpu cpu' index index' x : ℕ)
    → bits_at pending_bits (put_bits active_bits d cpu index x) cpu' index'
      ≡ bits_at pending_bits d cpu' index'
unfolding bits_at put_bits
bits_at-put_active d cpu cpu' index index' x = elim (Bool-cases (index == 0)) [
  | inl e ↦ elim (Bool-cases (index' == 0)) [
    | inl e' ↦
        rw (e, e')
          (get_or-set_view (λ (b : BankedRegisters). b.pending) d.banked cpu cpu'
            (set_banked_bits active_bits (bank d cpu) x) new_banked refl)
    | inr e' ↦ rw (e, e') refl
  ]
  | inr e ↦ rw e refl
]

flag-set_active :
    (d : GicDistributorMmio) (cpu int_id : ℕ) (on : Bool) (cpu' id' : ℕ)
    → flag pending_bits (set_flag active_bits d cpu int_id on) cpu' id'
      ≡ flag pending_bits d cpu' id'
unfolding flag set_flag
flag-set_active d cpu int_id on cpu' id' =
    ap (λ r. bit r (id' % 32)) (bits_at-put_active d cpu cpu' (int_id / 32) (id' / 32) _)

-- The INTID in List Register `k`.
abbrev pub register_id : Platform → ℕ → ℕ
register_id p k = bit_and (get_gich_lr p.gich k) gich_lr_virtual_id

-- Neither pending nor active on a pCPU.
abbrev pub IsQuiet : Platform → ℕ → ℕ → Type 0
IsQuiet p cpu id = (flag pending_bits p.dist cpu id ≡ 0) × (flag active_bits p.dist cpu id ≡ 0)

-- What the loop leaves of `n` List Registers from `i` on, when `eoi` has their end-of-interrupt bits.
pub record Ended (cpu i n eoi : ℕ) (p p' : Platform) : Type 0 where
  pub valid : IsValid p'.dist
  pub freed : (j : ℕ) → j < n → bit eoi j ≡ 1 → get_gich_lr p'.gich (i + j) ≡ 0
  pub cleared : (j : ℕ) → j < n → bit eoi j ≡ 1 → IsQuiet p' cpu (register_id p (i + j))
  pub kept :
      (j : ℕ) → j < n → bit eoi j ≡ 0 → get_gich_lr p'.gich (i + j) ≡ get_gich_lr p.gich (i + j)
  pub outside : (k : ℕ) → (k < i) ⊎ (i + n ≤ k) → get_gich_lr p'.gich k ≡ get_gich_lr p.gich k
  pub quiet : (id : ℕ) → IsQuiet p cpu id → IsQuiet p' cpu id
  pub size : length p'.gich.lrs ≡ length p.gich.lrs

-- One register.
record Step (cpu i eoi : ℕ) (p q : Platform) : Type 0 where
  sound : IsValid q.dist
  first : bit eoi 0 ≡ 1 → (get_gich_lr q.gich i ≡ 0) × IsQuiet q cpu (register_id p i)
  stays : bit eoi 0 ≡ 0 → get_gich_lr q.gich i ≡ get_gich_lr p.gich i
  others : (k : ℕ) → i ≢ k → get_gich_lr q.gich k ≡ get_gich_lr p.gich k
  still : (id : ℕ) → IsQuiet p cpu id → IsQuiet q cpu id
  length_same : length q.gich.lrs ≡ length p.gich.lrs

module _ (cpu : ℕ) (hc : cpu < 8) where
  end_interrupt-Step :
      (i eoi : ℕ) (p : Platform)
      → i < length p.gich.lrs
      → bit eoi 0 ≡ 1
      → IsValid p.dist
      → (q : Platform) × (end_interrupt cpu i p ≡ some q) × Step cpu i eoi p q
  unfolding end_interrupt
  end_interrupt-Step i eoi p hi on v =
      let id = register_id p i in
      let small : id < 1024 = omega (arith, bit_and_mask 10 (get_gich_lr p.gich i)) in
      let d = set_flag pending_bits p.dist cpu id false in
      let vd = set_flag-IsValid pending_bits p.dist cpu id false v in
      let d' = set_flag active_bits d cpu id false in
      let off : IsQuiet (record p { dist = d' }) cpu id = (
        flag-set_active d cpu id false cpu id
            ∙ flag-set_flag pending_bits p.dist cpu id v hc small false,
        flag-set_flag active_bits d cpu id vd hc small false,
      ) in
      (
        record p { dist = d'; gich = set_gich_lr p.gich i 0 },
        rw
            (
              change_pending_status_of-some p.dist cpu id v hc small false,
              change_active_status-some d cpu id vd hc small false,
            )
            refl,
        record {
          sound = set_flag-IsValid active_bits d cpu id false vd;
          first = λ e. (get_or-set_self p.gich.lrs i 0 0 hi, off);
          stays = λ e. absurd (omega arith);
          others = λ k ne. get_or-set_ne p.gich.lrs i k 0 0 ne;
          still = λ id' q. elim (ℕ_discrete id id') [
            | yes e ↦ (
              ap (λ t. flag pending_bits d' cpu t) (sym e) ∙ off.0,
              ap (λ t. flag active_bits d' cpu t) (sym e) ∙ off.1,
            )
            | no ne ↦ (
              flag-set_active d cpu id false cpu id'
                  ∙ flag-set_flag_other pending_bits p.dist cpu id v hc small false cpu id' (inl ne)
                  ∙ q.0,
              flag-set_flag_other active_bits d cpu id vd hc small false cpu id' (inl ne)
                  ∙ flag-set_pending active_bits p.dist cpu id false cpu id' (λ e. cc)
                  ∙ q.1,
            )
          ];
          length_same = length-set p.gich.lrs i 0;
        },
      )

  idle-Step : (i eoi : ℕ) (p : Platform) → bit eoi 0 ≡ 0 → IsValid p.dist → Step cpu i eoi p p
  idle-Step i eoi p off v = record {
    sound = v;
    first = λ e. absurd (omega arith);
    stays = λ e. refl;
    others = λ k ne. refl;
    still = λ id q. q;
    length_same = refl;
  }

  -- A register and then the rest.
  Step-Ended :
      (n i eoi : ℕ) (p q r : Platform)
      → Step cpu i eoi p q
      → Ended cpu (i + 1) n (eoi / 2) q r
      → Ended cpu i (suc n) eoi p r
  Step-Ended n i eoi p q r s t = record {
    valid = t.valid;
    freed = freed;
    cleared = cleared;
    kept = kept;
    outside = λ k out.
        t.outside k (elim out [ inl l ↦ inl (omega arith) | inr l ↦ inr (omega arith) ])
        ∙ s.others k (λ e. elim out [ inl l ↦ omega arith | inr l ↦ omega arith ]);
    quiet = λ id z. t.quiet id (s.still id z);
    size = t.size ∙ s.length_same;
  }
    where
      here : i + 0 ≡ i
      here = omega arith

      there : (j : ℕ) → i + suc j ≡ i + 1 + j
      there j = omega arith

      freed : (j : ℕ) → j < suc n → bit eoi j ≡ 1 → get_gich_lr r.gich (i + j) ≡ 0
      freed zero h on = rw here (t.outside i (inl (omega arith)) ∙ (s.first on).0)
      freed (suc j) h on = rw (there j) (t.freed j (omega arith) (sym (bit-suc eoi j) ∙ on))

      same : (j : ℕ) → get_gich_lr q.gich (i + 1 + j) ≡ get_gich_lr p.gich (i + 1 + j)
      same j = s.others (i + 1 + j) (λ e. omega arith)

      cleared : (j : ℕ) → j < suc n → bit eoi j ≡ 1 → IsQuiet r cpu (register_id p (i + j))
      cleared zero h on = rw here (t.quiet (register_id p i) (s.first on).1)
      cleared (suc j) h on =
          rw (there j, ← same j) (t.cleared j (omega arith) (sym (bit-suc eoi j) ∙ on))

      kept :
          (j : ℕ)
          → j < suc n
          → bit eoi j ≡ 0
          → get_gich_lr r.gich (i + j) ≡ get_gich_lr p.gich (i + j)
      kept zero h off = rw here (t.outside i (inl (omega arith)) ∙ s.stays off)
      kept (suc j) h off =
          rw (there j) (t.kept j (omega arith) (sym (bit-suc eoi j) ∙ off) ∙ same j)

  -- The loop of maintenance_interrupt_handler over List Registers that exist never panics in a well
  -- formed Distributor, which stays so. Each register whose end-of-interrupt bit is set is freed, and
  -- its INTID is neither pending nor active on this pCPU; every other register is as it was.
  pub end_interrupts-Ended :
      (n i eoi : ℕ) (p : Platform)
      → i + n ≤ length p.gich.lrs
      → IsValid p.dist
      → (r : Platform) × (end_interrupts n i cpu eoi p ≡ some r) × Ended cpu i n eoi p r
  unfolding end_interrupts
  end_interrupts-Ended zero i eoi p room v = (
    p,
    refl,
    record {
      valid = v;
      freed = λ j h. absurd (omega arith);
      cleared = λ j h. absurd (omega arith);
      kept = λ j h. absurd (omega arith);
      outside = λ k out. refl;
      quiet = λ id z. z;
      size = refl;
    },
  )
  end_interrupts-Ended (suc n) i eoi p room v =
      let test = bit_and-two_pow eoi 0 in
      let le = bit-le eoi 0 in
      elim (Bool-cases (bit_and eoi 1 == 0)) [
        | inl e ↦
            let off : bit eoi 0 ≡ 0 = omega (arith, (==_iff _ _).0 e) in
            let (r, run, t) = end_interrupts-Ended n (i + 1) (eoi / 2) p (omega arith) v in
            (r, rw e run, Step-Ended n i eoi p p r (idle-Step i eoi p off v) t)
        | inr e ↦
            let ne : bit_and eoi 1 ≢ 0 = ==→≢ _ _ e in
            let on : bit eoi 0 ≡ 1 = omega arith in
            let (q, once, s) = end_interrupt-Step i eoi p (omega arith) on v in
            let (r, run, t) =
              end_interrupts-Ended n (i + 1) (eoi / 2) q (omega (arith, s.length_same)) s.sound in
            (r, rw (e, once) run, Step-Ended n i eoi p q r s t)
      ]
