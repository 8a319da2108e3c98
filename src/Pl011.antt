-- ===== src/Pl011.antt =====
-- src/mmio/pl011.rs: the virtual UART. The receive FIFO is a ring buffer that the hypervisor's console
-- fills; the transmit buffer is printed a line at a time.
use mini_visor_pi.Prelude.{
  ℕ, zero, suc, ◌+◌, ◌-◌, ◌%◌, ◌^◌, Bool, true, false, not, Option, none, some, List, [], ◌∷◌,
  bit_and, bit_or, ◌==◌, if◌then◌else◌, get_or, set, replicate, take,
}
use mini_visor_pi.Prelude.Bits.{complement}
use mini_visor_pi.Prelude.Panics.{◌>>=◌}
use mini_visor_pi.GicDistributor.Trigger.{Platform, trigger_interrupt}
pub mod Console
pub mod Mmio
pub mod Validity
pub mod Ring
pub mod Fifo
pub mod Receive
pub mod Transmit

abbrev pub uart_fr_rxfe : ℕ
uart_fr_rxfe = 16

abbrev pub uart_fr_rxff : ℕ
uart_fr_rxff = 64

abbrev pub uart_imsc_rxim : ℕ
uart_imsc_rxim = 16

abbrev pub uart_ris_rxris : ℕ
uart_ris_rxris = 16

abbrev pub pl011_int_id : ℕ
pl011_int_id = 33

abbrev pub rx_fifo_size : ℕ
rx_fifo_size = 256

abbrev pub tx_buffer_size : ℕ
tx_buffer_size = 256

pub record Pl011Mmio : Type 0 where
  pub flag : ℕ
  pub interrupt_mask : ℕ
  pub raw_interrupt_status : ℕ
  pub control : ℕ
  pub rx_fifo : List ℕ
  pub rx_fifo_head : ℕ
  pub rx_fifo_len : ℕ
  pub tx_buffer : List ℕ
  pub tx_len : ℕ
  pub irda_low_power_counter : ℕ
  pub integer_baud_rate_divisor : ℕ
  pub fractional_baud_rate_divisor : ℕ
  pub line_control : ℕ
  pub interrupt_fifo_level_select : ℕ
  pub dma_control : ℕ

unfoldable pub new : Pl011Mmio
new = record {
  flag = uart_fr_rxfe;
  interrupt_mask = 0;
  raw_interrupt_status = 0;
  control = 0;
  rx_fifo = replicate rx_fifo_size 0;
  rx_fifo_head = 0;
  rx_fifo_len = 0;
  tx_buffer = replicate tx_buffer_size 0;
  tx_len = 0;
  irda_low_power_counter = 0;
  integer_baud_rate_divisor = 0;
  fractional_baud_rate_divisor = 0;
  line_control = 0;
  interrupt_fifo_level_select = 0;
  dma_control = 0;
}

-- The part of push that stores the byte, when there is room.
unfoldable pub store : ℕ → Pl011Mmio → Pl011Mmio
store byte u =
    let tail = (u.rx_fifo_head + u.rx_fifo_len) % rx_fifo_size in
    let len = u.rx_fifo_len + 1 in
    let flag = bit_and u.flag (complement 16 uart_fr_rxfe) in
    record u {
      rx_fifo = set u.rx_fifo tail byte;
      rx_fifo_len = len;
      flag = if len == rx_fifo_size then bit_or flag uart_fr_rxff else flag;
    }

-- The interrupt is raised when the guest has unmasked it.
unfoldable pub push : ℕ → ℕ → Pl011Mmio → Platform → Option (Pl011Mmio × Platform)
unfolding store
push current_target byte u p =
    if u.rx_fifo_len == rx_fifo_size
    then some (u, p)
    else (let u' = store byte u in
        if not (bit_and u'.interrupt_mask uart_imsc_rxim == 0)
        then (do
          (p', _) ← trigger_interrupt current_target pl011_int_id none p
          some (
            record u' { raw_interrupt_status = bit_or u'.raw_interrupt_status uart_ris_rxris },
            p',
          ))
        else some (u', p))
