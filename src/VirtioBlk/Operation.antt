-- ===== src/VirtioBlk/Operation.antt =====
-- src/mmio/virtio_blk.rs: the requests that the guest has made available. The file system's transfer
-- (Fat32/Read and Fat32/Write on the image file) is a parameter: from whether it writes, the address,
-- the offset in the file and the size it gives the next memory and disk and whether it succeeds. The
-- counters of diagnostics are left out.
use mini_visor_pi.Prelude.{
  ℕ, zero, suc, ◌+◌, ◌^◌, Bool, true, false, Option, none, some, ltb, ◌==◌, if◌then◌else◌, bit_and,
  bit_or,
}
use mini_visor_pi.Prelude.Bits.{shl}
use mini_visor_pi.GicDistributor.Trigger.{trigger_interrupt}
use mini_visor_pi.Vm.{Vm}
use mini_visor_pi.Vm.Mmio.{get_physical_address}
use mini_visor_pi.VirtioBlk.{
  VirtQueueDesc, VirtioBlkReq, value, panicked, unfinished, Exec, pure, leave, panic, ◌>>=◌,
  size_of_blk_req, desc_flags_next, type_out, status_ok, status_ioerr, virtio_blk_int_id,
}
use mini_visor_pi.VirtioBlk.Words.{read_word, write_word}
use mini_visor_pi.VirtioBlk.Queue.{get_descriptor, get_descriptor_id, get_next_avail_id, write_used}

-- What the loop over the descriptors of a request carries.
pub record Progress : Type 0 where
  pub descriptor : VirtQueueDesc
  pub offset : ℕ
  pub total_size : ℕ
  pub status : ℕ

abbrev pub begin : VirtQueueDesc → ℕ → Progress
begin request_descriptor sector = record {
  descriptor = request_descriptor;
  offset = shl 64 sector 9;
  total_size = 0;
  status = status_ok;
}

module _ {D : Type 0} (transfer : Bool → ℕ → ℕ → ℕ → (ℕ → ℕ) × D → ((ℕ → ℕ) × D) × Bool)
    (vm : Vm) where
  abbrev pub has_next : VirtQueueDesc → Bool
  has_next d = if bit_and d.flags desc_flags_next == 0 then false else true

  abbrev pub add_u32 : ℕ → ℕ → Exec D ℕ
  add_u32 a b = if ltb (a + b) (2 ^ 32) then pure (a + b) else panic

  abbrev pub add_usize : ℕ → ℕ → Exec D ℕ
  add_usize a b = if ltb (a + b) (2 ^ 64) then pure (a + b) else panic

  -- An early return for what is missing.
  abbrev pub or_leave {ℓ} : {A : Type ℓ} → Option A → Exec D A
  or_leave none = leave
  or_leave (some a) = pure a

  -- get_current_vm().get_physical_address(address).
  abbrev pub translate : ℕ → Exec D (Option ℕ)
  translate address = elim (get_physical_address vm address) [ none ↦ panic | some r ↦ pure r ]

  abbrev pub do_transfer : Bool → ℕ → ℕ → ℕ → Exec D Bool
  do_transfer is_write address offset size w =
      let r = transfer is_write address offset size (w.memory, w.disk) in
      value r.1 (record w { memory = r.0.0; disk = r.0.1 })

  abbrev pub status_after : Bool → ℕ → ℕ
  status_after true status = status
  status_after false status = status_ioerr

  -- One buffer. The offset does not move if its address is not in the guest's RAM.
  unfoldable pub move_buffer : Bool → Progress → VirtQueueDesc → ℕ → Option ℕ → Exec D Progress
  move_buffer is_write p d total none =
      pure (record { descriptor = d; offset = p.offset; total_size = total; status = status_ioerr })
  move_buffer is_write p d total (some address) = do
    succeeded ← do_transfer is_write address p.offset d.length
    offset ← add_usize p.offset d.length
    pure (record {
      descriptor = d;
      offset = offset;
      total_size = total;
      status = status_after succeeded p.status;
    })

  unfoldable pub one_buffer : Bool → Progress → VirtQueueDesc → Exec D Progress
  one_buffer is_write p d = do
    total ← add_u32 p.total_size d.length
    address ← translate d.address
    move_buffer is_write p d total address

  abbrev pub next_descriptor : Progress → Exec D VirtQueueDesc
  next_descriptor p w = or_leave (get_descriptor p.descriptor.next w) w

  abbrev pub out_of_fuel {ℓ} : {A : Type ℓ} → Exec D A
  out_of_fuel w = unfinished

  -- The loop over the buffers, which ends at a descriptor without a successor: the status byte.
  unfoldable pub move_buffers : ℕ → Bool → Progress → Exec D Progress
  move_buffers zero is_write p = out_of_fuel
  move_buffers (suc fuel) is_write p = next_descriptor p >>= λ d.
      if has_next d
      then (one_buffer is_write p d >>= λ p'. move_buffers fuel is_write p')
      else pure (record p { descriptor = d })

  abbrev pub write_byte : ℕ → ℕ → Exec D (Unit {0})
  write_byte address byte w = value tt (record w { memory = write_word 1 w.memory address byte })

  unfoldable pub put_status : Progress → Option ℕ → Exec D ℕ
  put_status p none = pure p.total_size
  put_status p (some address) = do
    _ ← write_byte address p.status
    add_u32 p.total_size p.descriptor.length

  abbrev pub request_at : ℕ → Exec D VirtioBlkReq
  request_at address w =
      value
        (record {
          req_type = read_word 4 w.memory address;
          sector = read_word 8 w.memory (address + 8);
        })
        w

  abbrev pub guard : Bool → Exec D (Unit {0})
  guard true = pure tt
  guard false = leave

  abbrev pub lookup_id : ℕ → Exec D ℕ
  lookup_id id w = or_leave (get_descriptor_id id w) w

  abbrev pub lookup : ℕ → Exec D VirtQueueDesc
  lookup id w = or_leave (get_descriptor id w) w

  unfoldable pub serve_request : ℕ → ℕ → Exec D (Unit {0})
  serve_request fuel id = do
    descriptor_id ← lookup_id id
    request_descriptor ← lookup descriptor_id
    _ ← guard (request_descriptor.length == size_of_blk_req)
    found ← translate request_descriptor.address
    address ← or_leave found
    blk_req ← request_at address
    _ ← guard (has_next request_descriptor)
    done ←
        move_buffers fuel (blk_req.req_type == type_out) (begin request_descriptor blk_req.sector)
    status_address ← translate done.descriptor.address
    total ← put_status done status_address
    write_used descriptor_id total

  unfoldable pub serve_all : ℕ → Exec D (Unit {0})
  serve_all zero = out_of_fuel
  serve_all (suc fuel) = get_next_avail_id >>= λ next. elim next [
    | none ↦ pure tt
    | some id ↦ serve_request fuel id >>= λ _. serve_all fuel
  ]

  -- The interrupt of the device, after the loop.
  unfoldable pub signal : ℕ → Exec D (Unit {0})
  signal current_target w =
      elim (trigger_interrupt current_target virtio_blk_int_id none w.platform) [
        | none ↦ panicked
        | some r ↦ value tt (record w {
          dev = record w.dev { interrupt_status = bit_or w.dev.interrupt_status 1 };
          platform = r.0;
        })
      ]

  unfoldable pub operation : ℕ → ℕ → Exec D (Unit {0})
  operation current_target fuel = do _ ← serve_all fuel; signal current_target
