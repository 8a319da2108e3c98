-- ===== src/Pl011/Fifo.antt =====
-- src/mmio/pl011.rs: the receive FIFO against a queue of at most 256 bytes.
use mini_visor_pi.Prelude.{
  ℕ, zero, suc, ◌+◌, ◌-◌, ◌%◌, ◌≡◌, ◌≢◌, refl, inl, inr, List, [], ◌∷◌, ◌++◌, get_or, set,
  get_or-set_self, length, arith, ◌==◌, if◌then◌else◌, Bool-cases, ==→≢, ==_iff,
}
use mini_visor_pi.Pl011.{Pl011Mmio, store}
use mini_visor_pi.Pl011.Mmio.{take_byte, read_register, decode, read}
use mini_visor_pi.Pl011.Ring.{window, window-mod, window-set, window-snoc}
use mini_visor_pi.Pl011.Validity.{IsValid}

-- The bytes that wait for the guest, oldest first.
abbrev pub contents : Pl011Mmio → List ℕ
contents u = window u.rx_fifo u.rx_fifo_head u.rx_fifo_len

-- A queue that holds 256 bytes and drops what it has no room for.
abbrev pub enqueue : List ℕ → ℕ → List ℕ
enqueue queue byte = if length queue == 256 then queue else queue ++ (byte ∷ [])

-- An empty queue gives 0.
abbrev pub dequeue : List ℕ → List ℕ × ℕ
dequeue [] = ([], 0)
dequeue (byte ∷ queue) = (queue, byte)

pub store-contents :
    (byte : ℕ) (u : Pl011Mmio)
    → IsValid u
    → u.rx_fifo_len ≢ 256
    → contents (store byte u) ≡ contents u ++ (byte ∷ [])
unfolding store
store-contents byte u v room =
    let tail = (u.rx_fifo_head + u.rx_fifo_len) % 256 in
    let e : u.rx_fifo_len + 1 ≡ suc u.rx_fifo_len = omega arith in
    rw
      (
        e,
        window-snoc (set u.rx_fifo tail byte) u.rx_fifo_head u.rx_fifo_len,
        window-set u.rx_fifo u.rx_fifo_head u.rx_fifo_len (u.rx_fifo_head + u.rx_fifo_len) byte
            (omega arith) (omega (arith, v.len_le)),
        get_or-set_self u.rx_fifo tail byte 0 (omega (arith, v.rx_size)),
      )
      refl

pub take_byte-contents :
    (u : Pl011Mmio)
    → IsValid u
    → u.rx_fifo_len ≢ 0
    → contents u ≡ (take_byte u).1 ∷ contents (take_byte u).0
unfolding take_byte
take_byte-contents u v some_byte = taken u.rx_fifo_len some_byte
  where
    taken :
        (len : ℕ)
        → len ≢ 0
        → window u.rx_fifo u.rx_fifo_head len
          ≡ get_or u.rx_fifo u.rx_fifo_head 0
            ∷ window u.rx_fifo ((u.rx_fifo_head + 1) % 256) (len - 1)
    taken zero ne = absurd (ne refl)
    taken (suc len) ne =
        let first : u.rx_fifo_head % 256 ≡ u.rx_fifo_head = omega (arith, v.head_lt) in
        let less : suc len - 1 ≡ len = omega arith in
        rw
          (
            first,
            less,
            window-mod u.rx_fifo ((u.rx_fifo_head + 1) % 256) (u.rx_fifo_head + 1) len
                (omega arith),
          )
          refl

-- In a well-formed UART a guest's read of UART_DR (offset 0) takes the oldest byte of the queue, and
-- reads 0 and takes nothing when the queue is empty.
pub read-contents :
    (u : Pl011Mmio)
    → IsValid u
    → let r = read 0 u in
      (contents r.0 ≡ (dequeue (contents u)).0) × (r.1 ≡ (dequeue (contents u)).1)
unfolding read read_register decode
read-contents u v = elim (Bool-cases (u.rx_fifo_len == 0)) [
  | inl e ↦ rw (e, (==_iff _ _).0 e) (refl, refl)
  | inr e ↦ rw (e, take_byte-contents u v (==→≢ _ _ e)) (refl, refl)
]
