-- ===== src/Pl011/Validity.antt =====
-- src/mmio/pl011.rs: what holds of the UART between two operations.
use mini_visor_pi.Prelude.{
  ℕ, zero, suc, ◌+◌, ◌-◌, ◌%◌, ◌^◌, ◌≤◌, ◌<◌, ◌≡◌, ◌≢◌, refl, ◌∙◌, inl, inr, List, length,
  length-set, length-replicate, arith, bit_and, bit_or, ◌==◌, if◌then◌else◌, Bool-cases, ==_iff,
  ==→≢,
}
use mini_visor_pi.Prelude.Bits.{bit, complement, bit-bit_and, bit-clear, bit-zero}
use mini_visor_pi.Pl011.{Pl011Mmio, new, store}
use mini_visor_pi.Pl011.Transmit.{put_char-cases}
use mini_visor_pi.Pl011.Mmio.{
  Register, uart_dr, uart_rsr_ecr, uart_fr, uart_ilpr, uart_ibrd, uart_fbrd, uart_lcr_h, uart_cr,
  uart_ifls, uart_imsc, uart_ris, uart_mis, uart_icr, uart_dmacr, identification, unimplemented,
  decode, take_byte, read_register, read, put_char, write_register, write,
}

-- RXFE when no byte is buffered, RXFF when 256 are, neither in between.
abbrev pub flag_of : ℕ → ℕ
flag_of len = if len == 0 then 16 else if len == 256 then 64 else 0

-- The buffers are whole, their indices in range, the flag register tells the number of bytes, and the
-- receive interrupt is not raised while no byte waits.
pub record Holds (rx_fifo : List ℕ) (head len : ℕ) (tx_buffer : List ℕ)
    (tx_len flag raw_interrupt_status : ℕ) : Type 0 where
  pub rx_size : length rx_fifo ≡ 256
  pub head_lt : head < 256
  pub len_le : len ≤ 256
  pub tx_size : length tx_buffer ≡ 256
  pub tx_lt : tx_len < 256
  pub flag_is : flag ≡ flag_of len
  pub quiet : len ≡ 0 → bit raw_interrupt_status 4 ≡ 0

abbrev pub IsValid : Pl011Mmio → Type 0
IsValid u =
    Holds u.rx_fifo u.rx_fifo_head u.rx_fifo_len u.tx_buffer u.tx_len u.flag u.raw_interrupt_status

pub new-IsValid_uart : IsValid new
unfolding new
new-IsValid_uart = record {
  rx_size = length-replicate {A = ℕ} 256 0;
  head_lt = omega arith;
  len_le = omega arith;
  tx_size = length-replicate {A = ℕ} 256 0;
  tx_lt = omega arith;
  flag_is = refl;
  quiet = λ e. bit-zero 4;
}

-- The flag register after a byte is stored, and after one is taken.
stored_flag :
    (len : ℕ)
    → len < 256
    → let flag = bit_and (flag_of len) (complement 16 16) in
      (if len + 1 == 256 then bit_or flag 64 else flag) ≡ flag_of (len + 1)
stored_flag zero h = refl
stored_flag (suc len) h = elim (Bool-cases (suc len == 256)) [
  | inl e ↦ absurd (omega (arith, (==_iff (suc len) 256).0 e))
  | inr e ↦ rw e (ground arith)
]

taken_flag :
    (len : ℕ)
    → len < 256
    → let flag = bit_and (flag_of (suc len)) (complement 16 64) in
      (if len == 0 then bit_or flag 16 else flag) ≡ flag_of len
taken_flag zero h = refl
taken_flag (suc len) h = elim (Bool-cases (suc (suc len) == 256)) [
  | inl e ↦ rw e (ground arith)
  | inr e ↦ rw e (ground arith)
]

pub store-IsValid :
    (byte : ℕ) (u : Pl011Mmio) → IsValid u → u.rx_fifo_len ≢ 256 → IsValid (store byte u)
unfolding store
store-IsValid byte u v room = record {
  rx_size = length-set u.rx_fifo _ byte ∙ v.rx_size;
  head_lt = v.head_lt;
  len_le = omega (arith, v.len_le);
  tx_size = v.tx_size;
  tx_lt = v.tx_lt;
  flag_is = rw v.flag_is (stored_flag u.rx_fifo_len (omega (arith, v.len_le)));
  quiet = λ e. absurd (omega arith);
}

pub take_byte-IsValid : (u : Pl011Mmio) → IsValid u → u.rx_fifo_len ≢ 0 → IsValid (take_byte u).0
unfolding take_byte
take_byte-IsValid u v some_byte = record {
  rx_size = v.rx_size;
  head_lt = omega arith;
  len_le = omega (arith, v.len_le);
  tx_size = v.tx_size;
  tx_lt = v.tx_lt;
  flag_is = rw v.flag_is (flag_after u.rx_fifo_len v.len_le some_byte);
  quiet = λ e. quiet_after u.raw_interrupt_status e;
}
  where
    flag_after :
        (len : ℕ)
        → len ≤ 256
        → len ≢ 0
        → let flag = bit_and (flag_of len) (complement 16 64) in
          (if len - 1 == 0 then bit_or flag 16 else flag) ≡ flag_of (len - 1)
    flag_after zero h ne = absurd (ne refl)
    flag_after (suc len) h ne =
        let e : suc len - 1 ≡ len = omega arith in rw e (taken_flag len (omega arith))

    quiet_after :
        (raw : ℕ)
        → u.rx_fifo_len - 1 ≡ 0
        → bit (if u.rx_fifo_len - 1 == 0 then bit_and raw (complement 16 16) else raw) 4 ≡ 0
    quiet_after raw e = rw e (bit-clear 16 raw 4 4 (omega arith) (omega arith))

pub put_char-IsValid : (u : Pl011Mmio) (c : ℕ) → IsValid u → IsValid (put_char u c).0
put_char-IsValid u c v = elim (put_char-cases u c v.tx_lt) [
  | inl (e, room) ↦ rw e (record {
    rx_size = v.rx_size;
    head_lt = v.head_lt;
    len_le = v.len_le;
    tx_size = length-set u.tx_buffer u.tx_len c ∙ v.tx_size;
    tx_lt = omega (arith, v.tx_lt);
    flag_is = v.flag_is;
    quiet = v.quiet;
  })
  | inr e ↦ rw e (record {
    rx_size = v.rx_size;
    head_lt = v.head_lt;
    len_le = v.len_le;
    tx_size = length-set u.tx_buffer u.tx_len c ∙ v.tx_size;
    tx_lt = omega arith;
    flag_is = v.flag_is;
    quiet = v.quiet;
  })
]

pub read_register-IsValid :
    (u : Pl011Mmio) (r : Register) → IsValid u → IsValid (read_register u r).0
unfolding read_register
read_register-IsValid u uart_dr v = elim (Bool-cases (u.rx_fifo_len == 0)) [
  | inl e ↦ rw e v
  | inr e ↦ rw e (take_byte-IsValid u v (==→≢ _ _ e))
]
read_register-IsValid u uart_fr v = v
read_register-IsValid u uart_cr v = v
read_register-IsValid u uart_imsc v = v
read_register-IsValid u uart_ris v = v
read_register-IsValid u uart_mis v = v
read_register-IsValid u uart_rsr_ecr v = v
read_register-IsValid u uart_ilpr v = v
read_register-IsValid u uart_ibrd v = v
read_register-IsValid u uart_fbrd v = v
read_register-IsValid u uart_lcr_h v = v
read_register-IsValid u uart_ifls v = v
read_register-IsValid u uart_dmacr v = v
read_register-IsValid u uart_icr v = v
read_register-IsValid u (identification value) v = v
read_register-IsValid u unimplemented v = v

pub write_register-IsValid :
    (u : Pl011Mmio) (r : Register) (value : ℕ) → IsValid u → IsValid (write_register u r value).0
unfolding write_register
write_register-IsValid u uart_dr value v = put_char-IsValid u _ v
write_register-IsValid u uart_icr value v = record {
  rx_size = v.rx_size;
  head_lt = v.head_lt;
  len_le = v.len_le;
  tx_size = v.tx_size;
  tx_lt = v.tx_lt;
  flag_is = v.flag_is;
  quiet = λ e.
      omega
        (arith, v.quiet e, bit-bit_and u.raw_interrupt_status (complement 16 (value % 2 ^ 16)) 4);
}
write_register-IsValid u uart_fr value v = v
write_register-IsValid u uart_cr value v = v
write_register-IsValid u uart_imsc value v = v
write_register-IsValid u uart_ris value v = v
write_register-IsValid u uart_mis value v = v
write_register-IsValid u uart_rsr_ecr value v = v
write_register-IsValid u uart_ilpr value v = v
write_register-IsValid u uart_ibrd value v = v
write_register-IsValid u uart_fbrd value v = v
write_register-IsValid u uart_lcr_h value v = v
write_register-IsValid u uart_ifls value v = v
write_register-IsValid u uart_dmacr value v = v
write_register-IsValid u (identification _) value v = v
write_register-IsValid u unimplemented value v = v

-- Whatever the offset and the value, a guest's read and a guest's write keep a well-formed UART well
-- formed: its buffers whole, its indices in range, RXFE and RXFF telling whether the FIFO is empty or
-- full, and the receive interrupt not raised while it is empty.
pub access-IsValid :
    (offset value : ℕ) (u : Pl011Mmio)
    → IsValid u
    → IsValid (read offset u).0 × IsValid (write offset value u).0
unfolding read write
access-IsValid offset value u v =
    (read_register-IsValid u (decode offset) v, write_register-IsValid u (decode offset) value v)
