-- ===== src/Smp/Launch.antt =====
-- src/main.rs, handle_guest_cpu_on and smp_park_main: each request reaches one parked pCPU.
use mini_visor_pi.Prelude.{
  ℕ, zero, suc, ◌<◌, ◌≡◌, refl, ap, ◌≢◌, true, false, Option, none, some, List, [], ◌∷◌, get_elem?,
  arith, Bool-cases, inl, inr, ◌⊎◌,
}
use mini_visor_pi.Prelude.Panics.{none_ne_some, some-injective}
use mini_visor_pi.Smp.{ParkedCpu, Smp, has_affinity, claim}

module _ {ℓ} {A : Type ℓ} where
  -- A list without the item at a place.
  abbrev pub remove : ℕ → List A → List A
  remove n [] = []
  remove zero (x ∷ xs) = xs
  remove (suc n) (x ∷ xs) = x ∷ remove n xs

-- What a search for a parked pCPU with an affinity gives: the first one and the list without it.
pub data Claimed (cpus : List ParkedCpu) (affinity : ℕ) (parked : List ℕ)
    : Option (ℕ × List ℕ) → Type 0 where
  claimed :
      (p k : ℕ)
      → get_elem? parked p ≡ some k
      → has_affinity cpus affinity k ≡ true
      → ((q j : ℕ) → q < p → get_elem? parked q ≡ some j → has_affinity cpus affinity j ≡ false)
      → Claimed cpus affinity parked (some (k, remove p parked))
  nobody :
      ((q j : ℕ) → get_elem? parked q ≡ some j → has_affinity cpus affinity j ≡ false)
      → Claimed cpus affinity parked none

behind-Claimed :
    (cpus : List ParkedCpu) (affinity k : ℕ) (ks : List ℕ) (r : Option (ℕ × List ℕ))
    → has_affinity cpus affinity k ≡ false
    → Claimed cpus affinity ks r
    → Claimed cpus affinity
        (k ∷ ks)
        (elim r [ none ↦ none | some found ↦ some (found.0, k ∷ found.1) ])
behind-Claimed cpus affinity k ks _ past (claimed p j at_p yes_j before) =
    claimed (suc p) j at_p yes_j earlier
  where
    earlier :
        (q i : ℕ) → q < suc p → get_elem? (k ∷ ks) q ≡ some i → has_affinity cpus affinity i ≡ false
    earlier zero i lt at_q = let e : k ≡ i = some-injective at_q in rw (← e) past
    earlier (suc q) i lt at_q = before q i (omega arith) at_q
behind-Claimed cpus affinity k ks _ past (nobody none_of) = nobody all
  where
    all : (q i : ℕ) → get_elem? (k ∷ ks) q ≡ some i → has_affinity cpus affinity i ≡ false
    all zero i at_q = let e : k ≡ i = some-injective at_q in rw (← e) past
    all (suc q) i at_q = none_of q i at_q

pub claim-Claimed :
    (cpus : List ParkedCpu) (affinity : ℕ) (parked : List ℕ)
    → Claimed cpus affinity parked (claim cpus affinity parked)
unfolding claim
claim-Claimed cpus affinity [] = nobody (λ q j there. absurd (none_ne_some there))
claim-Claimed cpus affinity (k ∷ ks) = elim (Bool-cases (has_affinity cpus affinity k)) [
  | inl t ↦ rw (claim, t) (claimed 0 k refl t (λ q j lt. absurd (omega arith)))
  | inr t ↦ rw (claim, t) (behind-Claimed cpus affinity k ks _ t (claim-Claimed cpus affinity ks))
]

-- No ParkedCpu stands twice in the list, and none in it has a request that was not taken.
pub record WellParked (s : Smp) : Type 0 where
  pub idle :
      (q k : ℕ)
      → get_elem? s.parked q ≡ some k
      → (c : ParkedCpu) × (get_elem? s.cpus k ≡ some c) × (c.launch ≡ none)
  pub distinct : (q r k : ℕ) → get_elem? s.parked q ≡ some k → get_elem? s.parked r ≡ some k → q ≡ r

module _ {ℓ} {A : Type ℓ} where
  -- An item of the shorter list stands in the longer one, at another place than the removed one.
  pub remove-source :
      (xs : List A) (p q : ℕ) (v : A)
      → get_elem? (remove p xs) q ≡ some v
      → (r : ℕ) × (get_elem? xs r ≡ some v)
        × (r ≢ p)
        × (((q < p) × (r ≡ q)) ⊎ ((p < suc q) × (r ≡ suc q)))
  remove-source [] p q v h = absurd (none_ne_some h)
  remove-source (x ∷ xs) zero q v h = (suc q, h, (λ e. omega arith), inr (omega arith, refl))
  remove-source (x ∷ xs) (suc p) zero v h = (0, h, (λ e. omega arith), inl (omega arith, refl))
  remove-source (x ∷ xs) (suc p) (suc q) v h =
      let s = remove-source xs p q v h in
      (
        suc s.0,
        s.1,
        (λ e. s.2 (omega arith)),
        elim s.3 [
          | inl (lt, e) ↦ inl (omega arith, ap suc e)
          | inr (lt, e) ↦ inr (omega arith, ap suc e)
        ],
      )

pub remove-distinct :
    (xs : List ℕ) (p : ℕ)
    → ((q r k : ℕ) → get_elem? xs q ≡ some k → get_elem? xs r ≡ some k → q ≡ r)
    → (q r k : ℕ) → get_elem? (remove p xs) q ≡ some k
    → get_elem? (remove p xs) r ≡ some k
    → q ≡ r
remove-distinct xs p once q r k hq hr =
    let s = remove-source xs p q k hq in
    let t = remove-source xs p r k hr in
    let e : s.0 ≡ t.0 = once s.0 t.0 k s.1 t.1 in
    elim s.3 [
      | inl (lt, es) ↦ elim t.3 [ inl (lt', et) ↦ omega arith | inr (lt', et) ↦ omega arith ]
      | inr (lt, es) ↦ elim t.3 [ inl (lt', et) ↦ omega arith | inr (lt', et) ↦ omega arith ]
    ]
