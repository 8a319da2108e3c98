-- ===== src/Pl011/Console.antt =====
-- src/mmio/pl011.rs, flush_tx: what the physical console prints, as a list of bytes.
use mini_visor_pi.Prelude.{ℕ, ◌+◌, ◌/◌, ◌%◌, List, [], ◌∷◌, ◌++◌, ltb, ◌==◌, if◌then◌else◌, take}
use mini_visor_pi.Prelude.Utf8.{is_utf8}
use mini_visor_pi.Pl011.{Pl011Mmio}

-- print!("{}", b as char): the character with that code, encoded.
unfoldable pub print_char : ℕ → List ℕ
print_char b = if ltb b 128 then b ∷ [] else (192 + b / 64) ∷ (128 + b % 64) ∷ []

unfoldable pub print_chars : List ℕ → List ℕ
unfolding print_char
print_chars [] = []
print_chars (b ∷ bytes) = print_char b ++ print_chars bytes

-- The state after flush_tx, and what it printed.
unfoldable pub flush_tx : Pl011Mmio → Pl011Mmio × List ℕ
unfolding is_utf8 print_chars
flush_tx u =
    if u.tx_len == 0
    then (u, [])
    else (let bytes = take u.tx_len u.tx_buffer in
        (record u { tx_len = 0 }, if is_utf8 bytes then bytes else print_chars bytes))
