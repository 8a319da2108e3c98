-- ===== src/GicDistributor/Writes.antt =====
-- src/mmio/gicv2.rs, MmioHandler::write as a whole.
use mini_visor_pi.Prelude.{
  ℕ, zero, suc, ◌+◌, ◌*◌, ◌/◌, ◌%◌, ◌^◌, ◌≤◌, ◌<◌, ◌≡◌, ◌≢◌, refl, ap, ◌⊎◌, Bool, true, false,
  Option, none, some, arith, inl, inr, ◌==◌, if◌then◌else◌, ltb, Bool-cases, bit_and, ==→≢,
}
use mini_visor_pi.Prelude.Bits.{two_pow_suc, bit_and_mask}
use mini_visor_pi.Prelude.Panics.{◌>>=◌}
use mini_visor_pi.GicDistributor.{
  BitArray, group_bits, enable_bits, pending_bits, active_bits, configuration_words,
  target_to_cpu_index, banked_int_id_count,
}
use mini_visor_pi.GicDistributor.Registers.{get_bit}
use mini_visor_pi.GicDistributor.Trigger.{Platform, retrigger, trigger_interrupt_to}
use mini_visor_pi.GicDistributor.Validity.{IsValid, bank, target_to_cpu_index-lt}
use mini_visor_pi.GicDistributor.Validity.Pending.{without_pending}
use mini_visor_pi.GicDistributor.Flags.{flag, get_bit-some}
use mini_visor_pi.GicDistributor.Delivery.{trigger_interrupt_to-Raised}
use mini_visor_pi.GicDistributor.Mmio.{
  Register, retrigger_loop, decode, write_register, write, sgi_targets,
}
use mini_visor_pi.GicDistributor.Banking.{
  InRange, in_igroupr, in_isenabler, in_icenabler, in_ispendr, in_icpendr, in_isactiver,
  in_icactiver, in_icfgr, in_ipriorityr, in_itargetsr, in_ctlr, in_typer, in_pidr2, in_unknown,
  in_sgir, decode-InRange, Runs, Kept-trans, Kept-refl, Runs-put_bits, Runs-or_bits,
  Runs-clear_bits, Runs-put_words, Runs-write_priority, Runs-write_target,
}

module _ (t : ℕ) where
  abbrev cpu : ℕ
  cpu = target_to_cpu_index t

  Runs-trigger :
      (int_id : ℕ) (physical : Option ℕ) (targets : ℕ) (p : Platform)
      → int_id < 1020
      → IsValid p.dist
      → Runs cpu p (do r ← trigger_interrupt_to t int_id physical targets p; some r.0)
  unfolding Runs
  Runs-trigger int_id physical targets p small v =
      let (r, run, rel) = trigger_interrupt_to-Raised t int_id physical targets small p v in
      (r.0, rw run, record { valid = rel.valid; settings = λ c ne. rel.settings c })

  Runs-retrigger :
      (int_id : ℕ) (p : Platform)
      → int_id < 1020
      → IsValid p.dist
      → Runs cpu p (do r ← retrigger t int_id p; some r.0)
  unfolding retrigger
  Runs-retrigger int_id p small v =
      Runs-trigger int_id none (if ltb int_id banked_int_id_count then t else p.dist.own_target) p
        small v

  Runs-bind :
      (p : Platform) (m : Option Platform) (f : Platform → Option Platform)
      → Runs cpu p m
      → ((q : Platform) → IsValid q.dist → Runs cpu q (f q))
      → Runs cpu p (m >>= f)
  unfolding Runs
  Runs-bind p m f (q, e, k) next = let (r, e', k') = next q k.valid in (r, rw e e', Kept-trans k k')

  Runs-stay : (p : Platform) → IsValid p.dist → Runs cpu p (some p)
  unfolding Runs
  Runs-stay p v = (p, refl, Kept-refl cpu p v)

  -- One round of the loop.
  retrigger_round :
      (a : BitArray) (int_id value : ℕ) (p : Platform)
      → int_id < 1020
      → IsValid p.dist
      → (ready : ℕ) × ((if bit_and value 1 == 0 then some 0 else get_bit a p.dist cpu int_id)
          ≡ some ready)
        × Runs cpu p (if ready == 0 then some p else (do r ← retrigger t int_id p; some r.0))
  retrigger_round a int_id value p small v = elim (Bool-cases (bit_and value 1 == 0)) [
    | inl off ↦ (0, rw off, Runs-stay p v)
    | inr on ↦ (
      flag a p.dist cpu int_id,
      rw on (get_bit-some a p.dist cpu int_id v (target_to_cpu_index-lt t) (omega arith)),
      again (flag a p.dist cpu int_id == 0),
    )
  ]
    where
      again :
          (test : Bool)
          → Runs cpu p (if test then some p else (do r ← retrigger t int_id p; some r.0))
      again true = Runs-stay p v
      again false = Runs-retrigger int_id p small v

  -- A value below 2 ^ k whose INTIDs end before 1020.
  retrigger_loop-Runs :
      (fuel k : ℕ) (a : BitArray) (int_id value : ℕ) (p : Platform)
      → value < 2 ^ k
      → int_id + k ≤ 1020
      → IsValid p.dist
      → Runs cpu p (retrigger_loop fuel a t int_id value p)
  unfolding retrigger_loop
  retrigger_loop-Runs zero k a int_id value p hv hi v = Runs-stay p v
  retrigger_loop-Runs (suc fuel) k a int_id value p hv hi v = elim (Bool-cases (value == 0)) [
    | inl e ↦ rw e (Runs-stay p v)
    | inr e ↦
        let (k', ek) = positive k (==→≢ value 0 e) hv in
        let (ready, er, round) = retrigger_round a int_id value p (omega arith) v in
        rw (e, er)
          (Runs-bind p _ _ round (λ q vq.
            retrigger_loop-Runs fuel k' a (int_id + 1) (value / 2) q
              (ground (arith, two_pow_suc k', ap (λ (n : ℕ). 2 ^ n) ek)) (omega arith) vq))
  ]
    where
      positive : (k : ℕ) → value ≢ 0 → value < 2 ^ k → (k' : ℕ) × (k ≡ suc k')
      positive zero ne lt = absurd (ne (omega arith))
      positive (suc k') ne lt = (k', refl)

  -- The loop over the 32 INTIDs of register `i`.
  word_loop-Runs :
      (a : BitArray) (i first value : ℕ) (q : Platform)
      → first ≡ i * 32
      → i < 32
      → value < 2 ^ 32
      → (value < 2 ^ 28) ⊎ (i ≢ 31)
      → IsValid q.dist
      → Runs cpu q (retrigger_loop 64 a t first value q)
  word_loop-Runs a i first value q e hi hv (inl s) vq =
      retrigger_loop-Runs 64 28 a first value q s (omega arith) vq
  word_loop-Runs a i first value q e hi hv (inr s) vq =
      retrigger_loop-Runs 64 32 a first value q hv (omega arith) vq

  Runs-ctlr :
      (p : Platform) (x : ℕ)
      → IsValid p.dist
      → Runs cpu p (some (record p { dist = record p.dist { ctlr = x } }))
  unfolding Runs
  Runs-ctlr p x v = (_, refl, record { valid = ground arith; settings = λ c ne. refl })

  -- A write of a value below 2 ^ 32 to a register, but for the set-enable and set-pending registers
  -- of the INTIDs from 992 on, where it must be below 2 ^ 28.
  write_register-Runs :
      (offset w value : ℕ) (r : Register) (p : Platform)
      → InRange offset r
      → value < 2 ^ 32
      → (value < 2 ^ 28) ⊎ (offset ≢ 0x17C) × (offset ≢ 0x27C)
      → IsValid p.dist
      → Runs cpu p (write_register t p r w value)
  unfolding write_register
  write_register-Runs offset w value r p in_ctlr hv safe v = Runs-ctlr p (value % 2 ^ 32) v
  write_register-Runs offset w value r p in_typer hv safe v = Runs-stay p v
  write_register-Runs offset w value r p in_pidr2 hv safe v = Runs-stay p v
  write_register-Runs offset w value r p in_unknown hv safe v = Runs-stay p v
  write_register-Runs offset w value r p in_sgir hv safe v =
      Runs-trigger (bit_and (value % 2 ^ 32) 0xF) none (sgi_targets t value) p
        (omega (arith, bit_and_mask 4 (value % 2 ^ 32))) v
  write_register-Runs offset w value r p (in_igroupr i hi) hv safe v =
      Runs-put_bits t group_bits p i _ v hi
  write_register-Runs offset w value r p (in_icenabler i hi) hv safe v =
      Runs-clear_bits t enable_bits p i value v hi
  write_register-Runs offset w value r p (in_icpendr i hi) hv safe v =
      Runs-clear_bits t pending_bits p i value v hi
  write_register-Runs offset w value r p (in_isactiver i hi) hv safe v =
      Runs-or_bits t active_bits p i value v hi
  write_register-Runs offset w value r p (in_icactiver i hi) hv safe v =
      Runs-clear_bits t active_bits p i value v hi
  write_register-Runs offset w value r p (in_icfgr i hi) hv safe v =
      Runs-put_words t configuration_words p i _ v hi
  write_register-Runs offset w value r p (in_ipriorityr i b hi) hv safe v =
      Runs-write_priority t p i b w value v hi
  write_register-Runs offset w value r p (in_itargetsr i b hi) hv safe v =
      Runs-write_target t p i b w value v hi
  write_register-Runs offset w value r p (in_isenabler i hi last) hv safe v =
      Runs-bind p _ _ (Runs-or_bits t enable_bits p i value v hi) (λ q vq.
        word_loop-Runs pending_bits i (i * 32) value q refl hi hv
          (elim safe [ inl s ↦ inl s | inr s ↦ inr (λ e. s.0 (last e)) ]) vq)
  write_register-Runs offset w value r p (in_ispendr i hi last) hv safe v =
      Runs-bind p _ _ (Runs-or_bits t pending_bits p i value v hi) (λ q vq.
        word_loop-Runs enable_bits i (i * 4 * 8) value q (omega arith) hi hv
          (elim safe [ inl s ↦ inl s | inr s ↦ inr (λ e. s.1 (last e)) ]) vq)

  -- In a well-formed Distributor a 32-bit value written at any offset, with any access width, never indexes out of range, keeps the
  -- arrays' sizes, and changes nothing but pending bits in the banks of the other pCPUs; for the
  -- set-enable and set-pending registers of the INTIDs from 992 on this needs a value below 2 ^ 28.
  pub write-Runs :
      (offset w value : ℕ) (p : Platform)
      → value < 2 ^ 32
      → (value < 2 ^ 28) ⊎ (offset ≢ 0x17C) × (offset ≢ 0x27C)
      → IsValid p.dist
      → (p' : Platform) × (write t p offset w value ≡ some p')
        × IsValid p'.dist
        × ((c : ℕ)
            → target_to_cpu_index t ≢ c
            → without_pending (bank p'.dist c) ≡ without_pending (bank p.dist c))
  unfolding write Runs
  write-Runs offset w value p hv safe v =
      let (p', e, k) =
        write_register-Runs offset w value (decode offset w) p (decode-InRange offset w) hv safe
          v in
      (p', e, k.valid, k.settings)
