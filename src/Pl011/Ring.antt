-- ===== src/Pl011/Ring.antt =====
-- src/mmio/pl011.rs: the ring buffer as a window of its array.
use mini_visor_pi.Prelude.{
  ℕ, zero, suc, ◌+◌, ◌%◌, ◌≤◌, ◌<◌, ◌≡◌, refl, ap, ◌∙◌, List, [], ◌∷◌, ◌++◌, get_or, set,
  get_or-set_ne, length, arith,
}

-- The `n` items from place `head` on, the places taken modulo 256.
abbrev pub window : List ℕ → ℕ → ℕ → List ℕ
window buffer head zero = []
window buffer head (suc n) = get_or buffer (head % 256) 0 ∷ window buffer (head + 1) n

pub window-mod :
    (buffer : List ℕ) (h k n : ℕ) → h % 256 ≡ k % 256 → window buffer h n ≡ window buffer k n
window-mod buffer h k zero e = refl
window-mod buffer h k (suc n) e = rw (e, window-mod buffer (h + 1) (k + 1) n (omega arith)) refl

-- A write outside of the window does not show.
pub window-set :
    (buffer : List ℕ) (h n t v : ℕ)
    → h + n ≤ t
    → t < h + 256
    → window (set buffer (t % 256) v) h n ≡ window buffer h n
window-set buffer h zero t v lo hi = refl
window-set buffer h (suc n) t v lo hi =
    rw
      (
        get_or-set_ne buffer (t % 256) (h % 256) v 0 (omega arith),
        window-set buffer (h + 1) n t v (omega arith) (omega arith),
      )
      refl

pub window-snoc :
    (buffer : List ℕ) (h n : ℕ)
    → window buffer h (suc n) ≡ window buffer h n ++ (get_or buffer ((h + n) % 256) 0 ∷ [])
window-snoc buffer h zero = let e : h + 0 ≡ h = omega arith in rw e refl
window-snoc buffer h (suc n) =
    let e : h + 1 + n ≡ h + suc n = omega arith in
    ap (λ r. get_or buffer (h % 256) 0 ∷ r)
      (window-snoc buffer (h + 1) n
        ∙ ap (λ t. window buffer (h + 1) n ++ (get_or buffer (t % 256) 0 ∷ [])) e)

pub length-window : (buffer : List ℕ) (h n : ℕ) → length (window buffer h n) ≡ n
length-window buffer h zero = refl
length-window buffer h (suc n) = ap suc (length-window buffer (h + 1) n)
