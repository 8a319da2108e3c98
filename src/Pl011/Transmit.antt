-- ===== src/Pl011/Transmit.antt =====
-- src/mmio/pl011.rs, writes of UART_DR and flush_tx: what the guest transmits and what is printed.
use mini_visor_pi.Prelude.{
  ℕ, suc, ◌+◌, ◌%◌, ◌^◌, ◌<◌, ◌≡◌, ◌≢◌, refl, sym, ap, ◌∙◌, ◌⊎◌, inl, inr, ◌||◌, List, [], ◌∷◌,
  ◌++◌, append-nil, append_assoc, length, length-set, length-replicate, set, take, take-set_next,
  All, arith, lt→ltb, ◌==◌, if◌then◌else◌, Bool-cases,
}
use mini_visor_pi.Pl011.{Pl011Mmio, new}
use mini_visor_pi.Prelude.Utf8.{is_utf8}
use mini_visor_pi.Pl011.Console.{print_char, print_chars, flush_tx}
use mini_visor_pi.Pl011.Mmio.{put_char, write_register, decode, write}

abbrev pub buffered : Pl011Mmio → ℕ → Pl011Mmio
buffered u c = record u { tx_buffer = set u.tx_buffer u.tx_len c; tx_len = u.tx_len + 1 }

-- The bytes of the transmit buffer.
abbrev pub waiting_tx : Pl011Mmio → List ℕ
waiting_tx u = take u.tx_len u.tx_buffer

abbrev pub printed : List ℕ → List ℕ
printed bytes = if is_utf8 bytes then bytes else print_chars bytes

flush-buffered :
    (u : Pl011Mmio) (c : ℕ)
    → flush_tx (buffered u c)
      ≡ (record (buffered u c) { tx_len = 0 }, printed (waiting_tx (buffered u c)))
unfolding flush_tx
flush-buffered u c = ground arith

pub put_char-cases :
    (u : Pl011Mmio) (c : ℕ)
    → u.tx_len < 256
    → (put_char u c ≡ (buffered u c, [])) × (u.tx_len + 1 ≢ 256)
      ⊎ (put_char u c ≡ (record (buffered u c) { tx_len = 0 }, printed (waiting_tx (buffered u c))))
unfolding put_char
put_char-cases u c h = elim (Bool-cases ((c == 10) || (u.tx_len + 1 == 256))) [
  | inl e ↦ inr (rw (lt→ltb u.tx_len 256 h, e) (flush-buffered u c))
  | inr e ↦ inl (rw (lt→ltb u.tx_len 256 h, e) refl, ground arith)
]

IsAscii : ℕ → Type 0
IsAscii b = b < 128

print_chars-ascii : (bytes : List ℕ) → All IsAscii bytes → print_chars bytes ≡ bytes
unfolding print_chars print_char IsAscii
print_chars-ascii [] h = refl
print_chars-ascii (b ∷ bytes) h =
    rw (lt→ltb b 128 h.0) (ap (λ r. b ∷ r) (print_chars-ascii bytes h.1))

printed-ascii : (bytes : List ℕ) → All IsAscii bytes → printed bytes ≡ bytes
printed-ascii bytes h = elim (Bool-cases (is_utf8 bytes)) [
  | inl e ↦ rw e refl
  | inr e ↦ rw e (print_chars-ascii bytes h)
]

All-append : (xs ys : List ℕ) → All IsAscii xs → All IsAscii ys → All IsAscii (xs ++ ys)
All-append [] ys h k = k
All-append (x ∷ xs) ys h k = (h.0, All-append xs ys h.1 k)

-- One byte: nothing is lost, and what waits is ASCII and fits.
put_char-step :
    (u : Pl011Mmio) (c : ℕ)
    → length u.tx_buffer ≡ 256
    → u.tx_len < 256
    → All IsAscii (waiting_tx u)
    → IsAscii c
    → let r = put_char u c in
      (r.1 ++ waiting_tx r.0 ≡ waiting_tx u ++ (c ∷ []))
      × All IsAscii (waiting_tx r.0)
      × (length r.0.tx_buffer ≡ 256)
      × (r.0.tx_len < 256)
put_char-step u c size lt ascii hc =
    let next : waiting_tx (buffered u c) ≡ waiting_tx u ++ (c ∷ []) =
      let e : u.tx_len + 1 ≡ suc u.tx_len = omega arith in
      rw e (take-set_next u.tx_buffer u.tx_len c (omega (arith, size))) in
    let both = All-append (waiting_tx u) (c ∷ []) ascii (hc, tt) in
    let kept = length-set u.tx_buffer u.tx_len c ∙ size in
    let all : All IsAscii (waiting_tx (buffered u c)) = rw next both in
    elim (put_char-cases u c lt) [
      | inl (e, room) ↦ rw e (next, all, kept, omega arith)
      | inr e ↦ rw e (append-nil _ ∙ printed-ascii _ all ∙ next, tt, kept, omega arith)
    ]

-- The guest writes the bytes to UART_DR one by one; what is printed on the way.
abbrev pub transmit : Pl011Mmio → List ℕ → Pl011Mmio × List ℕ
transmit u [] = (u, [])
transmit u (c ∷ bytes) =
    let first = write 0 c u in let rest = transmit first.0 bytes in (rest.0, first.1 ++ rest.1)

pub write-zero : (c : ℕ) (u : Pl011Mmio) → write 0 c u ≡ put_char u (c % 2 ^ 8)
unfolding write write_register decode
write-zero c u = refl

pub record Sent (u : Pl011Mmio) (bytes : List ℕ) (r : Pl011Mmio × List ℕ) : Type 0 where
  pub all_there : r.1 ++ waiting_tx r.0 ≡ waiting_tx u ++ bytes
  pub fits : r.0.tx_len < 256

sent :
    (u : Pl011Mmio) (bytes : List ℕ)
    → length u.tx_buffer ≡ 256
    → u.tx_len < 256
    → All IsAscii (waiting_tx u)
    → All IsAscii bytes
    → Sent u bytes (transmit u bytes)
unfolding IsAscii
sent u [] size lt ascii h = record { all_there = sym (append-nil _); fits = lt }
sent u (c ∷ bytes) size lt ascii h =
    let (step, ascii', size', lt') = put_char-step u c size lt ascii h.0 in
    let byte : c % 2 ^ 8 ≡ c = omega (arith, h.0) in
    let here : write 0 c u ≡ put_char u c = write-zero c u ∙ ap (λ t. put_char u t) byte in
    let ih = sent (put_char u c).0 bytes size' lt' ascii' h.1 in
    rw here (record {
      all_there =
          append_assoc (put_char u c).1 _ _
          ∙ ap (λ r. (put_char u c).1 ++ r) ih.all_there
          ∙ sym (append_assoc (put_char u c).1 _ bytes)
          ∙ ap (λ r. r ++ bytes) step
          ∙ append_assoc (waiting_tx u) (c ∷ []) bytes;
      fits = ih.fits;
    })

-- From the UART's initial state, a guest that writes ASCII bytes to UART_DR (offset 0) one by one
-- loses none: what has been printed, followed by the fewer than 256 bytes that wait in the transmit
-- buffer, is what it wrote, in order.
pub transmit-Sent :
    (bytes : List ℕ) → All (λ b. b < 128) bytes → Sent new bytes (transmit new bytes)
unfolding IsAscii new
transmit-Sent bytes h = sent new bytes (length-replicate {A = ℕ} 256 0) (omega arith) tt h
