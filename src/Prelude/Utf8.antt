-- ===== src/Prelude/Utf8.antt =====
-- Whether bytes are UTF-8, the test of core::str::from_utf8.
use Prim.Native.Nat.{ℕ}
use mathlib.Core.Bool.{Bool, true, false, ◌&&◌}
use mathlib.Core.List.{List, [], ◌∷◌}
use mini_visor_pi.Prelude.Tests.{ltb, leb, ◌==◌, if◌then◌else◌}

abbrev pub within : ℕ → ℕ → ℕ → Bool
within lo hi b = leb lo b && leb b hi

-- The bytes that must follow a first byte, as bounds; false for a byte that starts nothing.
unfoldable utf8_first : ℕ → Bool × List (ℕ × ℕ)
utf8_first b =
    if ltb b 128
    then (true, [])
    else if within 194 223 b
    then (true, (128, 191) ∷ [])
    else if b == 224
    then (true, (160, 191) ∷ (128, 191) ∷ [])
    else if b == 237
    then (true, (128, 159) ∷ (128, 191) ∷ [])
    else if within 225 239 b
    then (true, (128, 191) ∷ (128, 191) ∷ [])
    else if b == 240
    then (true, (144, 191) ∷ (128, 191) ∷ (128, 191) ∷ [])
    else if within 241 243 b
    then (true, (128, 191) ∷ (128, 191) ∷ (128, 191) ∷ [])
    else if b == 244
    then (true, (128, 143) ∷ (128, 191) ∷ (128, 191) ∷ [])
    else (false, [])

unfoldable utf8_next : List (ℕ × ℕ) → ℕ → Bool × List (ℕ × ℕ)
unfolding utf8_first
utf8_next [] b = utf8_first b
utf8_next ((lo, hi) ∷ rest) b = (within lo hi b, rest)

-- `expected` bounds the bytes that end the current character.
unfoldable utf8_from : List (ℕ × ℕ) → List ℕ → Bool
unfolding utf8_next
utf8_from [] [] = true
utf8_from (_ ∷ _) [] = false
utf8_from expected (b ∷ bytes) =
    let (fits, expected') = utf8_next expected b in
    let rest = utf8_from expected' bytes in fits && rest

unfoldable pub is_utf8 : List ℕ → Bool
unfolding utf8_from
is_utf8 bytes = utf8_from [] bytes
