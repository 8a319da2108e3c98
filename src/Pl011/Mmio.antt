-- ===== src/Pl011/Mmio.antt =====
-- src/mmio/pl011.rs, MmioHandler for Pl011Mmio. Both handlers return Ok for every offset.
use mini_visor_pi.Prelude.{
  ℕ, ◌+◌, ◌-◌, ◌%◌, ◌^◌, ◌||◌, List, [], bit_and, bit_or, ltb, ◌==◌, if◌then◌else◌, get_or, set,
}
use mini_visor_pi.Prelude.Bits.{complement}
use mini_visor_pi.Pl011.{
  Pl011Mmio, uart_fr_rxfe, uart_fr_rxff, uart_ris_rxris, rx_fifo_size, tx_buffer_size,
}
use mini_visor_pi.Pl011.Console.{flush_tx}

-- The registers that the source names.
pub data Register : Type 0 where
  uart_dr : Register
  uart_rsr_ecr : Register
  uart_fr : Register
  uart_ilpr : Register
  uart_ibrd : Register
  uart_fbrd : Register
  uart_lcr_h : Register
  uart_cr : Register
  uart_ifls : Register
  uart_imsc : Register
  uart_ris : Register
  uart_mis : Register
  uart_icr : Register
  uart_dmacr : Register
  identification : ℕ → Register
  unimplemented : Register

-- The constants UART_DR .. UART_PCELL_ID3; an identification register carries the value it reads.
unfoldable pub decode : ℕ → Register
decode offset =
    if offset == 0
    then uart_dr
    else if offset == 4
    then uart_rsr_ecr
    else if offset == 24
    then uart_fr
    else if offset == 32
    then uart_ilpr
    else if offset == 36
    then uart_ibrd
    else if offset == 40
    then uart_fbrd
    else if offset == 44
    then uart_lcr_h
    else if offset == 48
    then uart_cr
    else if offset == 52
    then uart_ifls
    else if offset == 56
    then uart_imsc
    else if offset == 60
    then uart_ris
    else if offset == 64
    then uart_mis
    else if offset == 68
    then uart_icr
    else if offset == 72
    then uart_dmacr
    else if offset == 4064
    then identification 17
    else if offset == 4068
    then identification 16
    else if offset == 4072
    then identification 52
    else if offset == 4076
    then identification 0
    else if offset == 4080
    then identification 13
    else if offset == 4084
    then identification 240
    else if offset == 4088
    then identification 5
    else if offset == 4092
    then identification 177
    else unimplemented

-- A read of UART_DR when the FIFO holds a byte.
unfoldable pub take_byte : Pl011Mmio → Pl011Mmio × ℕ
take_byte u =
    let value = get_or u.rx_fifo u.rx_fifo_head 0 in
    let len = u.rx_fifo_len - 1 in
    let flag = bit_and u.flag (complement 16 uart_fr_rxff) in
    let raw = u.raw_interrupt_status in
    (
      record u {
        rx_fifo_head = (u.rx_fifo_head + 1) % rx_fifo_size;
        rx_fifo_len = len;
        flag = if len == 0 then bit_or flag uart_fr_rxfe else flag;
        raw_interrupt_status = if len == 0 then bit_and raw (complement 16 uart_ris_rxris) else raw;
      },
      value,
    )

unfoldable pub read_register : Pl011Mmio → Register → Pl011Mmio × ℕ
unfolding take_byte
read_register u uart_dr = if u.rx_fifo_len == 0 then (u, 0) else take_byte u
read_register u uart_fr = (u, u.flag)
read_register u uart_cr = (u, u.control)
read_register u uart_imsc = (u, u.interrupt_mask)
read_register u uart_ris = (u, u.raw_interrupt_status)
read_register u uart_mis = (u, bit_and u.raw_interrupt_status u.interrupt_mask)
read_register u uart_rsr_ecr = (u, 0)
read_register u uart_ilpr = (u, u.irda_low_power_counter)
read_register u uart_ibrd = (u, u.integer_baud_rate_divisor)
read_register u uart_fbrd = (u, u.fractional_baud_rate_divisor)
read_register u uart_lcr_h = (u, u.line_control)
read_register u uart_ifls = (u, u.interrupt_fifo_level_select)
read_register u uart_dmacr = (u, u.dma_control)
read_register u (identification value) = (u, value)
read_register u uart_icr = (u, 0)
read_register u unimplemented = (u, 0)

unfoldable pub read : ℕ → Pl011Mmio → Pl011Mmio × ℕ
unfolding read_register decode
read offset u = read_register u (decode offset)

-- A write of UART_DR: the byte is buffered, and a newline or a full buffer flushes. The statistics
-- counters are left out.
unfoldable pub put_char : Pl011Mmio → ℕ → Pl011Mmio × List ℕ
unfolding flush_tx
put_char u c =
    let u' : Pl011Mmio =
      if ltb u.tx_len tx_buffer_size
      then record u { tx_buffer = set u.tx_buffer u.tx_len c; tx_len = u.tx_len + 1 }
      else u in
    if (c == 10) || (u'.tx_len == tx_buffer_size) then flush_tx u' else (u', [])

-- With what it printed.
unfoldable pub write_register : Pl011Mmio → Register → ℕ → Pl011Mmio × List ℕ
unfolding put_char
write_register u uart_dr value = put_char u (value % 2 ^ 8)
write_register u uart_cr value = (record u { control = value % 2 ^ 16 }, [])
write_register u uart_imsc value = (record u { interrupt_mask = value % 2 ^ 16 }, [])
write_register u uart_icr value = (
  record u {
    raw_interrupt_status = bit_and u.raw_interrupt_status (complement 16 (value % 2 ^ 16));
  },
  [],
)
write_register u uart_rsr_ecr value = (u, [])
write_register u uart_ilpr value = (record u { irda_low_power_counter = value % 2 ^ 16 }, [])
write_register u uart_ibrd value = (record u { integer_baud_rate_divisor = value % 2 ^ 16 }, [])
write_register u uart_fbrd value = (record u { fractional_baud_rate_divisor = value % 2 ^ 16 }, [])
write_register u uart_lcr_h value = (record u { line_control = value % 2 ^ 16 }, [])
write_register u uart_ifls value = (record u { interrupt_fifo_level_select = value % 2 ^ 16 }, [])
write_register u uart_dmacr value = (record u { dma_control = value % 2 ^ 16 }, [])
write_register u uart_fr value = (u, [])
write_register u uart_ris value = (u, [])
write_register u uart_mis value = (u, [])
write_register u (identification _) value = (u, [])
write_register u unimplemented value = (u, [])

unfoldable pub write : ℕ → ℕ → Pl011Mmio → Pl011Mmio × List ℕ
unfolding write_register decode
write offset value u = write_register u (decode offset) value
