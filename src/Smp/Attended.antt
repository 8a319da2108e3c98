-- ===== src/Smp/Attended.antt =====
-- src/main.rs: each step of the parked pCPUs keeps what their list and their loops have in common.
use mini_visor_pi.Prelude.{
  ℕ, zero, suc, ◌<◌, ◌≡◌, refl, sym, ap, ◌∙◌, ◌≢◌, ◌⊎◌, true, false, Option, none, some, List, [],
  ◌∷◌, ◌++◌, ◌==◌, get_elem?, get_or, length, arith, ==-true, ==-false, if◌then◌else◌,
  get_or_of_get_elem?, Bool-cases, inl, inr, ==_iff,
}
use mini_visor_pi.Prelude.Panics.{none_ne_some, some-injective}
use mini_visor_pi.Vm.Schedule.{mpidr_to_affinity}
use mini_visor_pi.Vm.Turns.{get_elem?-set_self, get_elem?-set_ne}
use mini_visor_pi.Smp.{SmpLaunchRequest, ParkedCpu, Smp, with_launch, no_cpu, park, take_launch}
use mini_visor_pi.Smp.Launch.{WellParked, remove, remove-source}
use mini_visor_pi.Smp.Woken.{Outcome, woken, refused}

module _ {ℓ} {A : Type ℓ} where
  -- An item of a list with one more at the end.
  append_last-cases :
      (xs : List A) (a v : A) (q : ℕ)
      → get_elem? (xs ++ (a ∷ [])) q ≡ some v
      → (get_elem? xs q ≡ some v) ⊎ (q ≡ length xs) × (v ≡ a)
  append_last-cases [] a v zero h = inr (refl, sym (some-injective h))
  append_last-cases [] a v (suc q) h = absurd (none_ne_some h)
  append_last-cases (x ∷ xs) a v zero h = inl h
  append_last-cases (x ∷ xs) a v (suc q) h = elim (append_last-cases xs a v q h) [
    | inl before ↦ inl before
    | inr (e, last) ↦ inr (ap suc e, last)
  ]

  append-before :
      (xs : List A) (a v : A) (q : ℕ)
      → get_elem? xs q ≡ some v
      → get_elem? (xs ++ (a ∷ [])) q ≡ some v
  append-before [] a v q h = absurd (none_ne_some h)
  append-before (x ∷ xs) a v zero h = h
  append-before (x ∷ xs) a v (suc q) h = append-before xs a v q h

  append-at_end : (xs : List A) (a : A) → get_elem? (xs ++ (a ∷ [])) (length xs) ≡ some a
  append-at_end [] a = refl
  append-at_end (x ∷ xs) a = append-at_end xs a

  get_elem?-lt : (xs : List A) (q : ℕ) (v : A) → get_elem? xs q ≡ some v → q < length xs
  get_elem?-lt [] q v h = absurd (none_ne_some h)
  get_elem?-lt (x ∷ xs) zero v h = omega arith
  get_elem?-lt (x ∷ xs) (suc q) v h = omega (arith, get_elem?-lt xs q v h)

park-WellParked : (mpidr : ℕ) (s : Smp) → WellParked s → WellParked (park mpidr s).0
unfolding park
park-WellParked mpidr s w = record {
  idle = λ q k h. elim (append_last-cases s.parked (length s.cpus) k q h) [
    | inl before ↦
        let (c, there, empty) = w.idle q k before in (c, append-before s.cpus _ c k there, empty)
    | inr (e, last) ↦ (_, ap (get_elem? _) last ∙ append-at_end s.cpus _, refl)
  ];
  distinct = λ q r k hq hr. elim (append_last-cases s.parked (length s.cpus) k q hq) [
    | inl q_before ↦ elim (append_last-cases s.parked (length s.cpus) k r hr) [
      | inl r_before ↦ w.distinct q r k q_before r_before
      | inr (e, last) ↦ absurd (fresh q k q_before last)
    ]
    | inr (e, last) ↦ elim (append_last-cases s.parked (length s.cpus) k r hr) [
      | inl r_before ↦ absurd (fresh r k r_before last)
      | inr (e', last') ↦ e ∙ sym e'
    ]
  ];
}
  where
    fresh : (q k : ℕ) → get_elem? s.parked q ≡ some k → k ≢ length s.cpus
    fresh q k h e =
        let (c, there, empty) = w.idle q k h in omega (arith, get_elem?-lt s.cpus k c there)

true_ne_false : true ≢ false
true_ne_false e = cc

-- A pCPU without a request is as before when a request is taken, at its place or at another.
take-keeps :
    (k : ℕ) (s : Smp) (j : ℕ) (c : ParkedCpu)
    → get_elem? s.cpus j ≡ some c
    → c.launch ≡ none
    → (c' : ParkedCpu) × (get_elem? (take_launch k s).0.cpus j ≡ some c')
      × (c'.launch ≡ none)
      × (c'.affinity ≡ c.affinity)
unfolding take_launch
take-keeps k s j c there empty = elim (Bool-cases (k == j)) [
  | inl t ↦
      let e : k ≡ j = (==_iff k j).0 t in
      let here : get_elem? s.cpus k ≡ some c = ap (get_elem? s.cpus) e ∙ there in
      (
        with_launch none (get_or s.cpus k no_cpu),
        ap (get_elem? _) (sym e) ∙ get_elem?-set_self s.cpus k _ here,
        refl,
        ap (λ (c : ParkedCpu). c.affinity) (get_or_of_get_elem? s.cpus k no_cpu here),
      )
  | inr f ↦ (
    c,
    get_elem?-set_ne s.cpus k j _ (λ e. true_ne_false (sym ((==_iff k j).1 e) ∙ f)) ∙ there,
    empty,
    refl,
  )
]

take_launch-WellParked : (k : ℕ) (s : Smp) → WellParked s → WellParked (take_launch k s).0
unfolding take_launch
take_launch-WellParked k s w = record {
  idle = λ q j h.
      let (c, there, empty) = w.idle q j h in
      let (c', there', empty', same) = take-keeps k s j c there empty in (c', there', empty');
  distinct = w.distinct;
}

-- Where each pCPU, by its affinity, waits in the loop of smp_park_main, if it does.
abbrev pub Waits : Type 0
Waits = ℕ → Option ℕ

abbrev pub now : Waits → ℕ → Option ℕ → Waits
now waits affinity place a = if a == affinity then place else waits a

-- Each place of the list is the one at which a pCPU waits with no request.
pub record Attended (s : Smp) (waits : Waits) : Type 0 where
  pub well_parked : WellParked s
  pub attended :
      (q k : ℕ) (c : ParkedCpu)
      → get_elem? s.parked q ≡ some k
      → get_elem? s.cpus k ≡ some c
      → waits c.affinity ≡ some k

now-same : (waits : Waits) (a : ℕ) (place : Option ℕ) → now waits a place a ≡ place
now-same waits a place = let e = ==-true a a refl in rw e refl

now-other : (waits : Waits) (a b : ℕ) (place : Option ℕ) → b ≢ a → now waits a place b ≡ waits b
now-other waits a b place ne = let e = ==-false b a ne in rw e refl

pub park-Attended :
    (mpidr : ℕ) (s : Smp) (waits : Waits)
    → Attended s waits
    → waits (mpidr_to_affinity mpidr) ≡ none
    → Attended (park mpidr s).0 (now waits (mpidr_to_affinity mpidr) (some (park mpidr s).1))
unfolding park
park-Attended mpidr s waits w away = record {
  well_parked = park-WellParked mpidr s w.well_parked;
  attended = λ q k c at_q there. elim (append_last-cases s.parked (length s.cpus) k q at_q) [
    | inl before ↦
        let (d, old, empty) = w.well_parked.idle q k before in
        let same : d ≡ c = some-injective (sym (append-before s.cpus _ d k old) ∙ there) in
        let waiting : waits c.affinity ≡ some k = w.attended q k c before (old ∙ ap some same) in
        let ne : c.affinity ≢ mpidr_to_affinity mpidr =
          λ e. none_ne_some (sym away ∙ ap waits (sym e) ∙ waiting) in
        now-other waits (mpidr_to_affinity mpidr) c.affinity (some (length s.cpus)) ne ∙ waiting
    | inr (e, last) ↦
        let fresh : ParkedCpu = record { affinity = mpidr_to_affinity mpidr; launch = none } in
        let same : fresh ≡ c = some-injective (
          sym (ap (get_elem? (s.cpus ++ (fresh ∷ []))) last ∙ append-at_end s.cpus fresh)
          ∙ there) in
        ap (now waits (mpidr_to_affinity mpidr) (some (length s.cpus)))
          (ap (λ (c : ParkedCpu). c.affinity) (sym same))
        ∙ now-same waits (mpidr_to_affinity mpidr) (some (length s.cpus))
        ∙ ap some (sym last)
  ];
}

-- After a round of the loop the pCPUs in the list are those of before.
taken_waits :
    (k : ℕ) (s : Smp) (waits : Waits)
    → Attended s waits
    → (q j : ℕ) (c' : ParkedCpu) → get_elem? s.parked q ≡ some j
    → get_elem? (take_launch k s).0.cpus j ≡ some c'
    → (c : ParkedCpu) × (get_elem? s.cpus j ≡ some c)
      × (c.launch ≡ none)
      × (waits c'.affinity ≡ some j)
taken_waits k s waits w q j c' at_q there =
    let (c, old, empty) = w.well_parked.idle q j at_q in
    let (d, there', _, same) = take-keeps k s j c old empty in
    let e : d ≡ c' = some-injective (sym there' ∙ there) in
    (
      c,
      old,
      empty,
      ap waits (ap (λ (c : ParkedCpu). c.affinity) (sym e) ∙ same) ∙ w.attended q j c at_q old,
    )

pub polls-Attended :
    (k : ℕ) (s : Smp) (waits : Waits) → Attended s waits → Attended (take_launch k s).0 waits
unfolding take_launch
polls-Attended k s waits w = record {
  well_parked = take_launch-WellParked k s w.well_parked;
  attended = λ q j c' at_q there. (taken_waits k s waits w q j c' at_q there).3;
}

pub takes-Attended :
    (affinity k : ℕ) (request : SmpLaunchRequest) (s : Smp) (waits : Waits)
    → Attended s waits
    → waits affinity ≡ some k
    → (take_launch k s).1 ≡ some request
    → Attended (take_launch k s).0 (now waits affinity none)
unfolding take_launch
takes-Attended affinity k request s waits w waiting taken = record {
  well_parked = take_launch-WellParked k s w.well_parked;
  attended = λ q j c' at_q there.
      let (c, old, empty, still) = taken_waits k s waits w q j c' at_q there in
      let ne : c'.affinity ≢ affinity = λ e.
        let same : k ≡ j = some-injective (sym waiting ∙ ap waits (sym e) ∙ still) in
        let here : get_or s.cpus k no_cpu ≡ c =
          get_or_of_get_elem? s.cpus k no_cpu (ap (get_elem? s.cpus) same ∙ old) in
        none_ne_some (sym empty ∙ ap (λ (c : ParkedCpu). c.launch) (sym here) ∙ taken) in
      now-other waits affinity c'.affinity none ne ∙ still;
}

pub Outcome-WellParked :
    (target_cpu : ℕ) (request : SmpLaunchRequest) (s s' : Smp) (code : ℕ) (r : Option (Smp × ℕ))
    → WellParked s
    → Outcome target_cpu request s r
    → r ≡ some (s', code)
    → WellParked s'
Outcome-WellParked target_cpu request s s' code _ w (woken p k c at_p there same empty after taken)
      e =
    let state = ap (λ (t : Smp × ℕ). t.0) (some-injective e) in rw (← state) after
Outcome-WellParked target_cpu request s s' code _ w (refused nobody) e =
    let state = ap (λ (t : Smp × ℕ). t.0) (some-injective e) in rw (← state) w

pub wakes-Attended :
    (target_cpu : ℕ) (request : SmpLaunchRequest) (s s' : Smp) (waits : Waits) (code : ℕ)
    (r : Option (Smp × ℕ))
    → Attended s waits
    → Outcome target_cpu request s r
    → r ≡ some (s', code)
    → (q j : ℕ) (c' : ParkedCpu) → get_elem? s'.parked q ≡ some j
    → get_elem? s'.cpus j ≡ some c'
    → waits c'.affinity ≡ some j
wakes-Attended target_cpu request s s' waits code _ w
      (woken p k c at_p there same empty after taken) e q j c' at_q there' =
    let state = ap (λ (t : Smp × ℕ). t.0) (some-injective e) in
    let at_q' : get_elem? (remove p s.parked) q ≡ some j =
      ap (λ (t : Smp). get_elem? t.parked q) state ∙ at_q in
    let (r, at_r, ne, _) = remove-source s.parked p q j at_q' in
    let other : k ≢ j = λ z. ne (w.well_parked.distinct r p j at_r (at_p ∙ ap some z)) in
    let old : get_elem? s.cpus j ≡ some c' =
      sym (get_elem?-set_ne s.cpus k j _ other)
      ∙ ap (λ (t : Smp). get_elem? t.cpus j) state
      ∙ there' in
    w.attended r j c' at_r old
wakes-Attended target_cpu request s s' waits code _ w (refused nobody) e q j c' at_q there' =
    let state = ap (λ (t : Smp × ℕ). t.0) (some-injective e) in
    w.attended q j c' (ap (λ (t : Smp). get_elem? t.parked q) state ∙ at_q)
      (ap (λ (t : Smp). get_elem? t.cpus j) state ∙ there')
