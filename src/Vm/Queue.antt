-- ===== src/Vm/Queue.antt =====
-- src/vm.rs: the vCPUs that share a pCPU, in the order of the list.
use mini_visor_pi.Prelude.{
  ℕ, zero, suc, ◌+◌, ◌%◌, ◌<◌, ◌≡◌, refl, sym, ap, ◌∙◌, Bool, true, false, some, List, [], ◌∷◌, leb,
  ◌==◌, if◌then◌else◌, get_elem?, length, arith, Bool-cases, inl, inr, ==_iff,
}
use mini_visor_pi.Prelude.Panics.{none_ne_some, some-injective}
use mini_visor_pi.Vm.{Vm}
use mini_visor_pi.Vm.Schedule.{candidates, has_id, vm_id_at, position, find_next_same_affinity_vcpu}
use mini_visor_pi.Vm.Turns.{Unique}

-- The list with or without `i` in front.
abbrev front : Bool → ℕ → List ℕ → List ℕ
front b i rest = if b then i ∷ rest else rest

front-sound :
    (P : ℕ → Type 0) (b : Bool) (i : ℕ) (rest : List ℕ) (q k : ℕ)
    → P i
    → ((r : ℕ) → get_elem? rest r ≡ some k → P k)
    → get_elem? (front b i rest) q ≡ some k
    → P k
front-sound P true i rest zero k here later h = let e : i ≡ k = some-injective h in rw (← e) here
front-sound P true i rest (suc q) k here later h = later q h
front-sound P false i rest q k here later h = later q h

front-distinct :
    (t : Bool) (i : ℕ) (rest : List ℕ) (a b k : ℕ)
    → ((r : ℕ) → get_elem? rest r ≡ some i → ⊥)
    → ((p q : ℕ) → get_elem? rest p ≡ some k → get_elem? rest q ≡ some k → p ≡ q)
    → get_elem? (front t i rest) a ≡ some k
    → get_elem? (front t i rest) b ≡ some k
    → a ≡ b
front-distinct true i rest zero zero k new later ha hb = refl
front-distinct true i rest zero (suc b) k new later ha hb = absurd (new b (hb ∙ sym ha))
front-distinct true i rest (suc a) zero k new later ha hb = absurd (new a (ha ∙ sym hb))
front-distinct true i rest (suc a) (suc b) k new later ha hb = ap suc (later a b ha hb)
front-distinct false i rest a b k new later ha hb = later a b ha hb

module _ (affinity : ℕ) where
  -- A candidate is a VM of the list.
  pub candidates_sound :
      (vms : List Vm) (i q k : ℕ)
      → get_elem? (candidates affinity vms i) q ≡ some k
      → (d : ℕ) × (v : Vm) × (k ≡ i + d) × (get_elem? vms d ≡ some v)
  unfolding candidates
  candidates_sound [] i q k h = absurd (none_ne_some h)
  candidates_sound (x ∷ vms) i q k h =
      front-sound (λ k. (d : ℕ) × (v : Vm) × (k ≡ i + d) × (get_elem? (x ∷ vms) d ≡ some v))
        (x.owner_affinity == affinity) i (candidates affinity vms (suc i)) q k
        (0, x, omega arith, refl)
        (λ r there.
          let s = candidates_sound vms (suc i) r k there in (suc s.0, s.1, omega (arith, s.2), s.3))
        h

  candidates-distinct :
      (vms : List Vm) (i a b k : ℕ)
      → get_elem? (candidates affinity vms i) a ≡ some k
      → get_elem? (candidates affinity vms i) b ≡ some k
      → a ≡ b
  unfolding candidates
  candidates-distinct [] i a b k ha hb = absurd (none_ne_some ha)
  candidates-distinct (x ∷ vms) i a b k ha hb =
      front-distinct (x.owner_affinity == affinity) i (candidates affinity vms (suc i)) a b k
        (λ r there. let s = candidates_sound vms (suc i) r i there in omega (arith, s.2))
        (λ p q hp hq. candidates-distinct vms (suc i) p q k hp hq) ha hb

position_complete :
    (vms : List Vm) (id : ℕ) (queue : List ℕ) (i p k : ℕ)
    → get_elem? queue p ≡ some k
    → has_id vms id k ≡ true
    → ((q j : ℕ) → get_elem? queue q ≡ some j → has_id vms id j ≡ true → q ≡ p)
    → position vms id queue i ≡ some (i + p)
unfolding position
position_complete vms id [] i p k h t only = absurd (none_ne_some h)
position_complete vms id (x ∷ queue) i zero k h t only =
    let e : has_id vms id x ≡ true = ap (has_id vms id) (some-injective h) ∙ t in
    rw e (ap some (omega arith))
position_complete vms id (x ∷ queue) i (suc p) k h t only = elim (Bool-cases (has_id vms id x)) [
  | inl here ↦ let e : 0 ≡ suc p = only 0 x refl here in absurd (omega arith)
  | inr past ↦
      rw past (position_complete vms id queue (suc i) p k h t later ∙ ap some (omega arith))
]
  where
    later : (q j : ℕ) → get_elem? queue q ≡ some j → has_id vms id j ≡ true → q ≡ p
    later q j there passes = let e = only (suc q) j there passes in omega arith

has_id-some :
    (vms : List Vm) (id k : ℕ) (v : Vm)
    → get_elem? vms k ≡ some v
    → has_id vms id k ≡ (v.vm_id == id)
has_id-some vms id k v h = rw (has_id, vm_id_at, h) refl

-- The successor of the vCPU at place `p` of the queue.
pub find_next-successor :
    (affinity : ℕ) (vms : List Vm) (p k : ℕ) (v : Vm)
    → Unique vms
    → let queue = candidates affinity vms 0 in
      1 < length queue
      → get_elem? queue p ≡ some k
      → get_elem? vms k ≡ some v
      → find_next_same_affinity_vcpu v.vm_id affinity vms ≡ get_elem? queue ((p + 1) % length queue)
unfolding find_next_same_affinity_vcpu
find_next-successor affinity vms p k v unique several at_p at_k =
    let queue = candidates affinity vms 0 in
    let own : has_id vms v.vm_id k ≡ true = has_id-some vms v.vm_id k v at_k ∙ ground arith in
    let only : (q j : ℕ) → get_elem? queue q ≡ some j → has_id vms v.vm_id j ≡ true → q ≡ p =
      λ q j at_q has.
        let s = candidates_sound affinity vms 0 q j at_q in
        let at_j : get_elem? vms j ≡ some s.1 = ap (get_elem? vms) (omega (arith, s.2)) ∙ s.3 in
        let same : s.1.vm_id ≡ v.vm_id =
          (==_iff _ _).0 (sym (has_id-some vms v.vm_id j s.1 at_j) ∙ has) in
        let e : j ≡ k = unique j k s.1 v at_j at_k same in
        candidates-distinct affinity vms 0 q p k (at_q ∙ ap some e) at_p in
    let found : position vms v.vm_id queue 0 ≡ some p =
      position_complete vms v.vm_id queue 0 p k at_p own only ∙ ap some (omega arith) in
    let many : leb (length queue) 1 ≡ false = ground arith in rw (many, found) refl
