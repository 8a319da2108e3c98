-- ===== src/Vm/Turns.antt =====
-- src/vm.rs: what one yield does to the list of VMs and to the pCPU.
use mini_visor_pi.Prelude.{
  ℕ, zero, suc, ◌+◌, ◌≡◌, refl, sym, ap, ◌∙◌, ◌≢◌, Bool, true, some, List, [], ◌∷◌, get_elem?, set,
  arith, Bool-cases, inl, inr,
}
use mini_visor_pi.Vm.{Vm, find_vm}
use mini_visor_pi.Vm.Schedule.{candidates}

-- No two VMs have the same number.
abbrev pub Unique : List Vm → Type 0
Unique vms =
    (i j : ℕ) (v w : Vm)
    → get_elem? vms i ≡ some v
    → get_elem? vms j ≡ some w
    → v.vm_id ≡ w.vm_id
    → i ≡ j

module _ {ℓ} {A : Type ℓ} where
  pub get_elem?-set_self :
      (xs : List A) (i : ℕ) (v : A) {x : A}
      → get_elem? xs i ≡ some x
      → get_elem? (set xs i v) i ≡ some v
  get_elem?-set_self [] i v h = cc
  get_elem?-set_self (x ∷ xs) zero v h = refl
  get_elem?-set_self (x ∷ xs) (suc i) v h = get_elem?-set_self xs i v h

  pub get_elem?-set_ne :
      (xs : List A) (i j : ℕ) (v : A) → i ≢ j → get_elem? (set xs i v) j ≡ get_elem? xs j
  get_elem?-set_ne [] i j v h = refl
  get_elem?-set_ne (x ∷ xs) zero zero v h = absurd (h refl)
  get_elem?-set_ne (x ∷ xs) zero (suc j) v h = refl
  get_elem?-set_ne (x ∷ xs) (suc i) zero v h = refl
  get_elem?-set_ne (x ∷ xs) (suc i) (suc j) v h = get_elem?-set_ne xs i j v (λ e. h (ap suc e))

-- A search cannot tell a VM from one that does the same on its test.
pub find_vm-set :
    (test : Vm → Bool) (vms : List Vm) (i k : ℕ) (v w : Vm)
    → get_elem? vms k ≡ some v
    → test w ≡ test v
    → find_vm test (set vms k w) i ≡ find_vm test vms i
unfolding find_vm
find_vm-set test [] i k v w h same = refl
find_vm-set test (x ∷ vms) i zero v w h same =
    let here : v ≡ x = cc in let e : test w ≡ test x = same ∙ ap test here in rw e refl
find_vm-set test (x ∷ vms) i (suc k) v w h same =
    rw (find_vm-set test vms (suc i) k v w h same) refl

pub candidates-set :
    (affinity : ℕ) (vms : List Vm) (i k : ℕ) (v w : Vm)
    → get_elem? vms k ≡ some v
    → w.owner_affinity ≡ v.owner_affinity
    → candidates affinity (set vms k w) i ≡ candidates affinity vms i
unfolding candidates
candidates-set affinity [] i k v w h same = refl
candidates-set affinity (x ∷ vms) i zero v w h same =
    let e : v ≡ x = cc in
    let e' : w.owner_affinity ≡ x.owner_affinity = same ∙ ap (λ (t : Vm). t.owner_affinity) e in
    rw e' refl
candidates-set affinity (x ∷ vms) i (suc k) v w h same =
    rw (candidates-set affinity vms (suc i) k v w h same) refl

-- What a search for a VM finds.
pub find_vm_sound :
    (test : Vm → Bool) (vms : List Vm) (i k : ℕ)
    → find_vm test vms i ≡ some k
    → (d : ℕ) × (v : Vm) × (k ≡ i + d) × (get_elem? vms d ≡ some v) × (test v ≡ true)
unfolding find_vm
find_vm_sound test [] i k h = cc
find_vm_sound test (x ∷ vms) i k h = elim (Bool-cases (test x)) [
  | inl t ↦
      let e : find_vm test (x ∷ vms) i ≡ some i = rw t refl in
      let e' : k ≡ i = cc in (0, x, omega arith, refl, t)
  | inr t ↦
      let e : find_vm test (x ∷ vms) i ≡ find_vm test vms (suc i) = rw t refl in
      let rest = find_vm_sound test vms (suc i) k (sym e ∙ h) in
      (suc rest.0, rest.1, omega (arith, rest.2), rest.3, rest.4)
]

-- A search that only one VM passes finds it.
pub find_vm_complete :
    (test : Vm → Bool) (vms : List Vm) (i d : ℕ) (v : Vm)
    → get_elem? vms d ≡ some v
    → test v ≡ true
    → ((e : ℕ) (w : Vm) → get_elem? vms e ≡ some w → test w ≡ true → e ≡ d)
    → find_vm test vms i ≡ some (i + d)
unfolding find_vm
find_vm_complete test [] i d v h t only = cc
find_vm_complete test (x ∷ vms) i zero v h t only =
    let here : x ≡ v = cc in
    let e : test x ≡ true = ap test here ∙ t in rw e (ap some (omega arith))
find_vm_complete test (x ∷ vms) i (suc d) v h t only = elim (Bool-cases (test x)) [
  | inl here ↦ absurd (zero_ne (only 0 x refl here))
  | inr past ↦
      let later : find_vm test vms (suc i) ≡ some (suc i + d) =
        find_vm_complete test vms (suc i) d v h t
          (λ e w there passes. suc_eq (only (suc e) w there passes)) in
      rw past (later ∙ ap some (omega arith))
]
  where
    zero_ne : 0 ≢ suc d
    zero_ne e = omega arith

    suc_eq : {a b : ℕ} → suc a ≡ suc b → a ≡ b
    suc_eq e = omega arith
