-- ===== src/GicDistributor/NoLoss.antt =====
-- src/mmio/gicv2.rs, inject_interrupt_handler: no entry of the queue is lost.
use mini_visor_pi.Prelude.{
  ℕ, ◌≡◌, refl, ◌⊎◌, true, false, List, [], ◌∷◌, ◌++◌, inl, inr, ◌==◌, ==_iff, Bool-cases, All,
}
use mini_visor_pi.ListRegisters.{Gich, virtual_id, add_virtual_interrupt}
use mini_visor_pi.ListRegisters.Delivery.{IsPending}
use mini_visor_pi.ListRegisters.Waiting.{
  Waiting, HasRoom, add_virtual_interrupt-Waiting, add_virtual_interrupt-HasRoom, injected-Waiting,
}
use mini_visor_pi.GicDistributor.Trigger.{Platform}
use mini_visor_pi.GicDistributor.Inject.{try_queued, drain, inject_interrupt_handler}

abbrev Entry : Type 0
Entry = ℕ × ℕ

infix 40 ◌∈◌
abbrev pub ◌∈◌ : Entry → List Entry → Type 0
x ∈ [] = ⊥
x ∈ y ∷ ys = (x ≡ y) ⊎ (x ∈ ys)

mem-append_left : (x : Entry) (xs ys : List Entry) → x ∈ xs → x ∈ xs ++ ys
mem-append_left x [] ys m = absurd m
mem-append_left x (y ∷ xs) ys (inl e) = inl e
mem-append_left x (y ∷ xs) ys (inr m) = inr (mem-append_left x xs ys m)

mem-append_last : (x : Entry) (xs : List Entry) → x ∈ xs ++ (x ∷ [])
mem-append_last x [] = inl refl
mem-append_last x (y ∷ xs) = inr (mem-append_last x xs)

-- Where an entry of the queue is after a round: still queued, or, if it was for this pCPU, pending in
-- one of its List Registers.
abbrev pub Accounted : ℕ → Gich → List Entry → Entry → Type 0
Accounted current_target g remaining x =
    (x ∈ remaining) ⊎ (x.0 ≡ current_target) × Waiting g (virtual_id x.1)

module _ (current_target : ℕ) where
  record Drained (g : Gich) (queue remaining : List Entry) (out : Gich × List Entry) : Type 0 where
    accounted : All (Accounted current_target out.0 out.1) queue
    keeps : (x : Entry) → x ∈ remaining → x ∈ out.1
    waits : (id : ℕ) → Waiting g id → Waiting out.0 id

  -- One entry: what try_queued leaves.
  try_cases :
      (g : Gich) (x : Entry)
      → HasRoom g
      → IsPending x.1
      → let r = try_queued current_target g x in
        HasRoom r.1
        × ((id : ℕ) → Waiting g id → Waiting r.1 id)
        × ((r.0 ≡ false) ⊎ (r.0 ≡ true) × (x.0 ≡ current_target) × Waiting r.1 (virtual_id x.1))
  unfolding try_queued
  try_cases g (target, entry) room p = elim (Bool-cases (target == current_target)) [
    | inr e ↦ rw e (room, (λ id w. w), inl refl)
    | inl e ↦ rw e (
      add_virtual_interrupt-HasRoom g entry room,
      (λ id w. add_virtual_interrupt-Waiting g entry id room w),
      elim (Bool-cases (add_virtual_interrupt g entry).0) [
        | inl done ↦ inr (done, (==_iff _ _).0 e, injected-Waiting g entry room p done)
        | inr failed ↦ inl failed
      ],
    )
  ]

  drain-Drained :
      (queue : List Entry) (g : Gich) (remaining : List Entry)
      → HasRoom g
      → All (λ x. IsPending x.1) queue
      → Drained g queue remaining (drain current_target g queue remaining)
  unfolding drain
  drain-Drained [] g remaining room p = record {
    accounted = tt;
    keeps = λ x m. m;
    waits = λ id w. w;
  }
  drain-Drained (x ∷ queue) g remaining room p =
      let (room', waits, how) = try_cases g x room p.0 in
      let after = (try_queued current_target g x).1 in
      elim how [
        | inl failed ↦
            let ih = drain-Drained queue after (remaining ++ (x ∷ [])) room' p.1 in
            rw failed (record {
              accounted = (inl (ih.keeps x (mem-append_last x remaining)), ih.accounted);
              keeps = λ y m. ih.keeps y (mem-append_left y remaining (x ∷ []) m);
              waits = λ id w. ih.waits id (waits id w);
            })
        | inr (done, here, w) ↦
            let ih = drain-Drained queue after remaining room' p.1 in
            rw done (record {
              accounted = (inr (here, ih.waits _ w), ih.accounted);
              keeps = ih.keeps;
              waits = λ id w'. ih.waits id (waits id w');
            })
      ]

module _ (current_target : ℕ) (p : Platform) where
  -- What one round of the queue leaves.
  pub record NoLoss (q : Platform) : Type 0 where
    pub accounted :
        All (Accounted current_target q.gich q.dist.to_inject_interrupt) p.dist.to_inject_interrupt
    pub waits : (id : ℕ) → Waiting p.gich id → Waiting q.gich id
    pub same_sgis : q.sent_sgis ≡ p.sent_sgis

  -- If the List Registers in use exist and every queued entry is marked pending, then after
  -- inject_interrupt_handler each entry of the old queue is still queued, or was addressed to this
  -- pCPU and its INTID waits pending in a List Register. Every INTID that waited pending in a List
  -- Register before still does, and no SGI is sent.
  pub inject_interrupt_handler-NoLoss :
      HasRoom p.gich
      → All (λ x. IsPending x.1) p.dist.to_inject_interrupt
      → NoLoss (inject_interrupt_handler current_target p)
  unfolding inject_interrupt_handler
  inject_interrupt_handler-NoLoss room pending =
      let d = drain-Drained current_target p.dist.to_inject_interrupt p.gich [] room pending in
      record { accounted = d.accounted; waits = d.waits; same_sgis = refl }
