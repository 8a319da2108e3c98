-- ===== src/GicDistributor/Raised.antt =====
-- The effect of triggering an INTID on a set of pCPUs, as a relation between two states; and its
-- composition.
use mini_visor_pi.Prelude.{
  ℕ, ◌<◌, ◌≤◌, ◌^◌, Option, bit_and, ◌≡◌, ◌≢◌, refl, ap, ◌∙◌, sym, ◌⊎◌, Bool, true, false, List, [],
  ◌∷◌, ◌++◌, append-nil, append_assoc, arith, inl, inr, ◌==◌, ℕ_discrete, All, dec_lt, Bool-cases,
  ==→≢, ◌/◌,
}
use mathlib.Core.List.{map, map-append}
use mini_visor_pi.VgicLr.{create_list_register_entry}
use mini_visor_pi.GicDistributor.{GicDistributorMmio, pending_bits}
use mini_visor_pi.GicDistributor.Trigger.{Platform, route, inject_interrupt_int_id}
use mini_visor_pi.GicDistributor.Validity.{IsValid, bank}
use mini_visor_pi.GicDistributor.Validity.Pending.{
  without_pending, SameRest, put_pending-SameRest, settings-put_pending,
}
use mini_visor_pi.GicDistributor.Flags.{
  flag, set_flag, set_flag-IsValid, flag-set_flag, flag-set_flag_other, flag-shared,
  flag-with_queue,
}

-- The SGI that goes with a queued entry.
abbrev pub prod : ℕ × ℕ → ℕ × ℕ
prod x = (x.0, inject_interrupt_int_id)

-- An entry that is queued for another pCPU of the mask: its target bit, and a List Register entry for
-- the INTID.
pub record Queued (current_target int_id : ℕ) (physical : Option ℕ) (targets : ℕ) (x : ℕ × ℕ)
    : Type 0 where
  pub elsewhere : x.0 ≢ current_target
  pub cpu : ℕ
  pub cpu_small : cpu < 8
  pub in_mask : bit_and targets (2 ^ cpu) ≢ 0
  pub target : x.0 ≡ 2 ^ cpu
  pub group : ℕ
  pub priority : ℕ
  pub list_entry : x.1 ≡ create_list_register_entry int_id group priority physical

-- The pCPUs that share a pending bit: each has its own below INTID 32, and all share one from there on.
abbrev pub Shares : ℕ → ℕ → ℕ → Type 0
Shares int_id c c' = (c ≡ c') ⊎ (32 ≤ int_id)

-- `Hit` says which pCPUs were triggered, `Queues` which entries may be queued; `before` and `after`
-- are the values of `injected`.
pub record Raised (int_id : ℕ) (Queues : ℕ × ℕ → Type 0) (Hit : ℕ → Type 0) (p : Platform)
    (before : Bool) (p' : Platform) (after : Bool) : Type 0 where
  pub valid : IsValid p'.dist
  pub hit : (c : ℕ) → c < 8 → Hit c → flag pending_bits p'.dist c int_id ≡ 1
  pub kept :
      (c : ℕ)
      → c < 8
      → flag pending_bits p.dist c int_id ≡ 1
      → flag pending_bits p'.dist c int_id ≡ 1
  pub missed :
      (c : ℕ)
      → c < 8
      → ((c' : ℕ) → c' < 8 → Shares int_id c c' → ¬ Hit c')
      → flag pending_bits p'.dist c int_id ≡ flag pending_bits p.dist c int_id
  pub others :
      (c id' : ℕ) → int_id ≢ id' → flag pending_bits p'.dist c id' ≡ flag pending_bits p.dist c id'
  pub settings : (c : ℕ) → without_pending (bank p'.dist c) ≡ without_pending (bank p.dist c)
  pub rest : SameRest p.dist p'.dist
  pub queued : List (ℕ × ℕ)
  pub queue : p'.dist.to_inject_interrupt ≡ p.dist.to_inject_interrupt ++ queued
  pub allowed : All Queues queued
  pub prodded : p'.sent_sgis ≡ p.sent_sgis ++ map prod queued
  pub silent : after ≡ false → (queued ≡ []) × (before ≡ false)

SameRest-trans : {a b c : GicDistributorMmio} → SameRest a b → SameRest b c → SameRest a c
SameRest-trans s t = ground arith

All-append {ℓ} :
    {A : Type ℓ} (P : A → Type 0) (xs ys : List A) → All P xs → All P ys → All P (xs ++ ys)
All-append P [] ys h k = k
All-append P (x ∷ xs) ys h k = (h.0, All-append P xs ys h.1 k)

module _ (int_id : ℕ) (Queues : ℕ × ℕ → Type 0) where
  pub Raised-none :
      (Hit : ℕ → Type 0) (p : Platform) (b : Bool)
      → IsValid p.dist
      → ((c : ℕ) → c < 8 → ¬ Hit c)
      → Raised int_id Queues Hit p b p b
  Raised-none Hit p b v nobody = record {
    valid = v;
    hit = λ c hc h. absurd (nobody c hc h);
    kept = λ c hc h. h;
    missed = λ c hc none_hit. refl;
    others = λ c id' ne. refl;
    settings = λ c. refl;
    rest = ground arith;
    queued = [];
    queue = sym (append-nil p.dist.to_inject_interrupt);
    allowed = tt;
    prodded = sym (append-nil p.sent_sgis);
    silent = λ e. (refl, e);
  }

  pub Raised-trans :
      (Hit Hit' Hit'' : ℕ → Type 0) (p q r : Platform) (b b' b'' : Bool)
      → ((c : ℕ) → c < 8 → Hit'' c → Hit c ⊎ Hit' c)
      → ((c : ℕ) → c < 8 → Hit c ⊎ Hit' c → Hit'' c)
      → Raised int_id Queues Hit p b q b'
      → Raised int_id Queues Hit' q b' r b''
      → Raised int_id Queues Hit'' p b r b''
  Raised-trans Hit Hit' Hit'' p q r b b' b'' split join f s = record {
    valid = s.valid;
    hit = λ c hc h. elim (split c hc h) [
      | inl first ↦ s.kept c hc (f.hit c hc first)
      | inr second ↦ s.hit c hc second
    ];
    kept = λ c hc h. s.kept c hc (f.kept c hc h);
    missed = λ c hc nobody.
        s.missed c hc (λ c' hc' sh h. nobody c' hc' sh (join c' hc' (inr h)))
        ∙ f.missed c hc (λ c' hc' sh h. nobody c' hc' sh (join c' hc' (inl h)));
    others = λ c id' ne. s.others c id' ne ∙ f.others c id' ne;
    settings = λ c. s.settings c ∙ f.settings c;
    rest = SameRest-trans f.rest s.rest;
    queued = f.queued ++ s.queued;
    queue =
        s.queue
        ∙ ap (λ l. l ++ s.queued) f.queue
        ∙ append_assoc p.dist.to_inject_interrupt f.queued s.queued;
    allowed = All-append _ f.queued s.queued f.allowed s.allowed;
    prodded =
        s.prodded
        ∙ ap (λ l. l ++ map prod s.queued) f.prodded
        ∙ append_assoc p.sent_sgis (map prod f.queued) (map prod s.queued)
        ∙ ap (λ l. p.sent_sgis ++ l) (sym (map-append prod f.queued s.queued));
    silent = λ e. (
      ap (λ l. l ++ s.queued) (f.silent (s.silent e).1).0 ∙ (s.silent e).0,
      (f.silent (s.silent e).1).1,
    );
  }

  -- Raising the pending bit of one pCPU.
  pub Raised-set_flag :
      (p : Platform) (b : Bool) (cpu : ℕ)
      → IsValid p.dist
      → cpu < 8
      → int_id < 1024
      → Raised int_id Queues
          (λ c. cpu ≡ c)
          p
          b
          (record p { dist = set_flag pending_bits p.dist cpu int_id true })
          b
  unfolding set_flag
  Raised-set_flag p b cpu v hc hi = record {
    valid = set_flag-IsValid pending_bits p.dist cpu int_id true v;
    hit = λ c hc' e. ap (λ t. flag pending_bits d t int_id) (sym e) ∙ raised;
    kept = λ c hc' h. elim (ℕ_discrete cpu c) [
      | yes e ↦ ap (λ t. flag pending_bits d t int_id) (sym e) ∙ raised
      | no ne ↦ elim (dec_lt int_id 32) [
        | yes banked ↦
            flag-set_flag_other pending_bits p.dist cpu int_id v hc hi true c int_id
              (inr (banked, ne))
            ∙ h
        | no spi ↦ flag-shared pending_bits d c cpu int_id (omega arith) ∙ raised
      ]
    ];
    missed = λ c hc' nobody.
        flag-set_flag_other pending_bits p.dist cpu int_id v hc hi true c int_id (
          inr (elim (dec_lt int_id 32) [
            | yes banked ↦ (banked, nobody c hc' (inl refl))
            | no spi ↦ absurd (nobody cpu hc (inr (omega arith)) refl)
          ]));
    others =
        λ c id' ne. flag-set_flag_other pending_bits p.dist cpu int_id v hc hi true c id' (inl ne);
    settings = λ c. settings-put_pending p.dist cpu c (int_id / 32) _;
    rest = (put_pending-SameRest p.dist cpu (int_id / 32) _).0;
    queued = [];
    queue = (put_pending-SameRest p.dist cpu (int_id / 32) _).1 ∙ sym (append-nil _);
    allowed = tt;
    prodded = sym (append-nil p.sent_sgis);
    silent = λ e. (refl, e);
  }
    where
      d : GicDistributorMmio
      d = set_flag pending_bits p.dist cpu int_id true

      raised : flag pending_bits d cpu int_id ≡ 1
      raised = flag-set_flag pending_bits p.dist cpu int_id v hc hi true

  -- Handing an entry to this pCPU's List Registers, or to the queue.
  pub Raised-route :
      (current_target : ℕ) (p : Platform) (b : Bool) (target e : ℕ)
      → IsValid p.dist
      → (target ≢ current_target → Queues (target, e))
      → let r = route current_target target e (p, b) in Raised int_id Queues (λ c. ⊥) p b r.0 r.1
  unfolding route
  Raised-route current_target p b target e v allow = elim (Bool-cases (target == current_target)) [
    | inl here ↦ rw here (record {
      valid = v;
      hit = λ c hc h. absurd h;
      kept = λ c hc h. h;
      missed = λ c hc nobody. refl;
      others = λ c id' ne. refl;
      settings = λ c. refl;
      rest = ground arith;
      queued = [];
      queue = sym (append-nil p.dist.to_inject_interrupt);
      allowed = tt;
      prodded = sym (append-nil p.sent_sgis);
      silent = λ h. (refl, ground arith);
    })
    | inr there ↦ rw there (record {
      valid = ground arith;
      hit = λ c hc h. absurd h;
      kept = λ c hc h. flag-with_queue pending_bits p.dist _ c int_id ∙ h;
      missed = λ c hc nobody. flag-with_queue pending_bits p.dist _ c int_id;
      others = λ c id' ne. flag-with_queue pending_bits p.dist _ c id';
      settings = λ c. refl;
      rest = ground arith;
      queued = (target, e) ∷ [];
      queue = refl;
      allowed = (allow (==→≢ target current_target there), tt);
      prodded = refl;
      silent = λ h. cc;
    })
  ]
