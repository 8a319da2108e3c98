-- ===== src/Tests/Disk.antt =====
-- src/mmio/virtio_blk.rs at concrete inputs.
use mini_visor_pi.Prelude.{ℕ, ◌+◌, ◌*◌, ◌^◌, ◌<◌, ◌≤◌, ◌≡◌, refl, Bool, false, some, arith}
use mini_visor_pi.GuestMemory.{translate_guest_physical_address}
use mini_visor_pi.Vm.Mmio.{get_physical_address}
use mini_visor_pi.VirtioBlk.{VirtioBlkMmio, World, value, unfinished}
use mini_visor_pi.VirtioBlk.Words.{read_word, write_word}
use mini_visor_pi.VirtioBlk.Queue.{
  get_descriptor, get_descriptor_id, get_next_avail_id, set_last_avail_id,
}
use mini_visor_pi.VirtioBlk.Registers.{avail_ring_of, used_ring_of, write}
use mini_visor_pi.VirtioBlk.Layout.{used_ring_of-page}
use mini_visor_pi.VirtioBlk.Endless.{Trap, write-unfinished}
use mini_visor_pi.Tests.Machines.{some_vm}
use mini_visor_pi.Tests.Gic.{fresh}

used_ring_of-page_example :
    (avail used page : ℕ) × (avail_ring_of 0x80010000 1024 ≡ some avail)
    × (used_ring_of avail 1024 (2 ^ 12) ≡ some used)
    × (avail ≡ 0x80010000 + 16 * 1024)
    × (used ≡ page * 2 ^ 12)
    × (avail + 2 * (3 + 1024) ≤ used)
    × (used < avail + 2 * (3 + 1024) + 2 ^ 12)
used_ring_of-page_example = used_ring_of-page 12 0x80010000 1024 (omega arith) (omega arith)

-- A header for a read, and a buffer outside the guest's RAM that is its own successor.
abbrev trap_memory : ℕ → ℕ
trap_memory =
    let m0 = write_word 8 (λ a. 0) 0x80010000 0x40001000 in
    let m1 = write_word 4 m0 0x80010008 16 in
    let m2 = write_word 2 m1 0x8001000C 1 in
    let m3 = write_word 2 m2 0x8001000E 1 in
    let m4 = write_word 8 m3 0x80010010 0x1000 in
    let m5 = write_word 2 m4 0x8001001C 1 in
    let m6 = write_word 2 m5 0x8001001E 1 in write_word 2 m6 0x80010042 1

abbrev small_queue : VirtioBlkMmio
small_queue = record {
  file_size = 0x100000;
  interrupt_status = 0;
  status = 7;
  queue_size = 4;
  queue_ready = false;
  page_size = 4096;
  descriptor = 0x80010000;
  avail_ring = 0x80010040;
  used_ring = 0x80011000;
  last_avail_id = 0;
  used_id = 0;
  config_read_logged = false;
}

abbrev trap_world : World (Unit {0})
trap_world = record { dev = small_queue; memory = trap_memory; disk = tt; platform = fresh }

abbrev no_transfer : Bool → ℕ → ℕ → ℕ → (ℕ → ℕ) × Unit {0} → ((ℕ → ℕ) × Unit {0}) × Bool
no_transfer is_write address offset size s = (s, false)

first_request : get_next_avail_id trap_world ≡ value (some 0) (set_last_avail_id 1 trap_world)
unfolding get_next_avail_id read_word write_word
first_request = refl

first-Trap : Trap no_transfer (some_vm 0) 0 (set_last_avail_id 1 trap_world)
unfolding get_descriptor get_descriptor_id read_word write_word get_physical_address
    translate_guest_physical_address
first-Trap = record {
  head = 0;
  header = record { address = 0x40001000; length = 16; flags = 1; next = 1 };
  buffer = record { address = 0x1000; length = 0; flags = 1; next = 1 };
  address = 0x80001000;
  offered = refl;
  stands = refl;
  whole = refl;
  in_ram = refl;
  goes_on = refl;
  loops = record { stands = refl; goes_on = refl; to_itself = refl; empty = refl; nowhere = refl };
}

write-unfinished_example : write no_transfer (some_vm 0) 1 100 0x50 0 trap_world ≡ unfinished
write-unfinished_example =
    write-unfinished no_transfer (some_vm 0) 1 100 0 trap_world (set_last_avail_id 1 trap_world)
      first_request first-Trap
