-- ===== src/Pl011/Receive.antt =====
-- src/mmio/pl011.rs, push.
use mini_visor_pi.Prelude.{
  ℕ, ◌^◌, ◌≡◌, ◌≢◌, refl, ◌∙◌, ◌⊎◌, inl, inr, Bool, false, none, some, length, bit_and, bit_or,
  arith, ◌==◌, Bool-cases, ==→≢, ==_iff, ==-false,
}
use mini_visor_pi.Pl011.{Pl011Mmio, store, push}
use mini_visor_pi.Pl011.Validity.{IsValid, store-IsValid}
use mini_visor_pi.Pl011.Ring.{length-window}
use mini_visor_pi.Pl011.Fifo.{contents, enqueue, store-contents}
use mini_visor_pi.GicDistributor.Validity as Dist
use mini_visor_pi.GicDistributor.Trigger.{Platform, trigger_interrupt}
use mini_visor_pi.GicDistributor.Raised.{Queued, Raised}
use mini_visor_pi.GicDistributor.Delivery.{trigger_interrupt_to-Raised}

module _ (current_target byte : ℕ) (u : Pl011Mmio) (p : Platform) where
  -- Nothing was raised, and why; or why INTID 33 was, and what that did to the Distributor.
  abbrev Interrupted : ℕ → Platform → Type 0
  Interrupted raw p' =
      (p' ≡ p)
        × (raw ≡ u.raw_interrupt_status)
        × ((u.rx_fifo_len ≡ 256) ⊎ (bit_and u.interrupt_mask 16 ≡ 0))
      ⊎ (u.rx_fifo_len ≢ 256)
        × (bit_and u.interrupt_mask 16 ≢ 0)
        × (raw ≡ bit_or u.raw_interrupt_status 16)
        × ((injected : Bool) × Raised 33 (Queued current_target 33 none p.dist.own_target)
              (λ c. bit_and p.dist.own_target (2 ^ c) ≢ 0) p false p' injected)

  -- The UART after a byte came in, and the interrupt that the Distributor saw.
  pub record Received (u' : Pl011Mmio) (p' : Platform) : Type 0 where
    pub valid : IsValid u'
    pub queued : contents u' ≡ enqueue (contents u) byte
    pub interrupt : Interrupted u'.raw_interrupt_status p'

  dropped : IsValid u → u.rx_fifo_len ≡ 256 → Received u p
  dropped v full = record {
    valid = v;
    queued =
        let e : length (contents u) ≡ 256 =
          length-window u.rx_fifo u.rx_fifo_head u.rx_fifo_len ∙ full in
        rw e refl;
    interrupt = inl (refl, refl, inl full);
  }

  stored :
      (p' : Platform) (raw : ℕ)
      → IsValid u
      → u.rx_fifo_len ≢ 256
      → Interrupted raw p'
      → Received (record (store byte u) { raw_interrupt_status = raw }) p'
  unfolding store
  stored p' raw v room i =
      let v' = store-IsValid byte u v room in
      record {
        valid = record {
          rx_size = v'.rx_size;
          head_lt = v'.head_lt;
          len_le = v'.len_le;
          tx_size = v'.tx_size;
          tx_lt = v'.tx_lt;
          flag_is = v'.flag_is;
          quiet = λ e. absurd (omega arith);
        };
        queued =
            let e : length (contents u) ≡ u.rx_fifo_len =
              length-window u.rx_fifo u.rx_fifo_head u.rx_fifo_len in
            rw (e, ==-false _ 256 room) (store-contents byte u v room);
        interrupt = i;
      }

  -- push never panics when the UART and the Distributor are well formed. It queues the byte at the end
  -- of a FIFO that holds at most 256 and drops it when the FIFO is full, keeps the UART well formed,
  -- and raises INTID 33 exactly when the byte was stored and the guest has unmasked receive
  -- interrupts.
  pub push-Received :
      IsValid u
      → Dist.IsValid p.dist
      → (r : Pl011Mmio × Platform) × (push current_target byte u p ≡ some r) × Received r.0 r.1
  unfolding push trigger_interrupt store
  push-Received v d = elim (Bool-cases (u.rx_fifo_len == 256)) [
    | inl full ↦ ((u, p), rw full refl, dropped v ((==_iff _ _).0 full))
    | inr open' ↦
        let room = ==→≢ _ _ open' in
        elim (Bool-cases (bit_and u.interrupt_mask 16 == 0)) [
          | inl masked ↦ (
            (store byte u, p),
            rw (open', masked) refl,
            stored p u.raw_interrupt_status v room (inl (refl, refl, inr ((==_iff _ _).0 masked))),
          )
          | inr unmasked ↦
              let (s, run, rel) =
                trigger_interrupt_to-Raised current_target 33 none p.dist.own_target (omega arith) p
                  d in
              let raw = bit_or u.raw_interrupt_status 16 in
              (
                (record (store byte u) { raw_interrupt_status = raw }, s.0),
                rw (open', unmasked, run) refl,
                stored s.0 raw v room (inr (room, ==→≢ _ _ unmasked, refl, (s.1, rel))),
              )
        ]
  ]
