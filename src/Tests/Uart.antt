-- ===== src/Tests/Uart.antt =====
-- src/mmio/pl011.rs at concrete inputs.
use mini_visor_pi.Prelude.{◌≡◌, some, [], ◌∷◌, arith, replicate}
use mini_visor_pi.Pl011.{Pl011Mmio, new, push}
use mini_visor_pi.Pl011.Mmio.{read, write}
use mini_visor_pi.Pl011.Validity.{IsValid, new-IsValid_uart, access-IsValid}
use mini_visor_pi.Pl011.Fifo.{contents, dequeue, read-contents}
use mini_visor_pi.Pl011.Receive.{Received, push-Received}
use mini_visor_pi.Pl011.Transmit.{Sent, transmit, transmit-Sent}
use mini_visor_pi.GicDistributor as Dist
use mini_visor_pi.GicDistributor.Validity as DistValidity
use mini_visor_pi.GicDistributor.Trigger.{Platform}

access-IsValid_example : IsValid (read 0 new).0 × IsValid (write 0 65 new).0
access-IsValid_example = access-IsValid 0 65 new new-IsValid_uart

read-contents_example :
    (contents (read 0 new).0 ≡ (dequeue (contents new)).0)
    × ((read 0 new).1 ≡ (dequeue (contents new)).1)
read-contents_example = read-contents new new-IsValid_uart

-- A guest that has not set up its interrupts.
abbrev quiet_platform : Platform
quiet_platform = record {
  dist = Dist.new 1;
  gich = record { list_regs = 4; eisr = 0; lrs = replicate 4 0; lr_overflow_count = 0 };
  sent_sgis = [];
}

push-Received_example :
    (r : Pl011Mmio × Platform) × (push 1 65 new quiet_platform ≡ some r)
    × Received 1 65 new quiet_platform r.0 r.1
push-Received_example =
    push-Received 1 65 new quiet_platform new-IsValid_uart (DistValidity.new-IsValid 1)

transmit-Sent_example : Sent new (72 ∷ 105 ∷ 10 ∷ []) (transmit new (72 ∷ 105 ∷ 10 ∷ []))
transmit-Sent_example =
    transmit-Sent (72 ∷ 105 ∷ 10 ∷ []) (omega arith, (omega arith, (omega arith, tt)))
