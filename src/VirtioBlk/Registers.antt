-- ===== src/VirtioBlk/Registers.antt =====
-- src/mmio/virtio_blk.rs: the guest's accesses to the device's registers. Sums and products of usize
-- that pass 2^64, a difference below 0 and a division by 0 panic.
use mini_visor_pi.Prelude.{
  ℕ, ◌+◌, ◌-◌, ◌*◌, ◌/◌, ◌%◌, ◌^◌, Bool, true, false, Option, none, some, leb, ltb, ◌==◌,
  if◌then◌else◌, bit_and,
}
use mini_visor_pi.Prelude.Bits.{complement, shr}
use mini_visor_pi.Vm.{Vm}
use mini_visor_pi.Vm.Mmio.{get_physical_address}
use mini_visor_pi.VirtioBlk.{VirtioBlkMmio, value, panicked, Exec, size_of_desc}
use mini_visor_pi.VirtioBlk.Operation.{operation}

-- The registers that the device tells apart. `config` counts from VIRTIO_CONFIG_OFFSET.
pub data Register : Type 0 where
  magic version device_id vendor_id device_features guest_page_size queue_num_max queue_num
        queue_pfn queue_ready queue_notify interrupt_status interrupt_ack status unimplemented :
      Register
  config : ℕ → Register

unfoldable pub decode : ℕ → Register
decode offset =
    if offset == 0x000
    then magic
    else if offset == 0x004
    then version
    else if offset == 0x008
    then device_id
    else if offset == 0x00c
    then vendor_id
    else if offset == 0x010
    then device_features
    else if offset == 0x028
    then guest_page_size
    else if offset == 0x034
    then queue_num_max
    else if offset == 0x038
    then queue_num
    else if offset == 0x040
    then queue_pfn
    else if offset == 0x044
    then queue_ready
    else if offset == 0x050
    then queue_notify
    else if offset == 0x060
    then interrupt_status
    else if offset == 0x064
    then interrupt_ack
    else if offset == 0x070
    then status
    else if leb 0x100 offset
    then config (offset - 0x100)
    else unimplemented

-- One of the first eight bytes of the configuration: the number of sectors, shifted. The first read is
-- logged.
abbrev pub read_config : ℕ → VirtioBlkMmio → VirtioBlkMmio × ℕ
read_config config_offset d =
    if ltb config_offset 8
    then (record d { config_read_logged = true }, shr (shr d.file_size 9) (config_offset * 8))
    else (d, 0)

-- `none` is a panic.
unfoldable pub read_register : Register → VirtioBlkMmio → Option (VirtioBlkMmio × ℕ)
read_register magic d = some (d, 0x74726976)
read_register version d = some (d, 0x01)
read_register device_id d = some (d, 0x02)
read_register vendor_id d = some (d, 0x554d4551)
read_register device_features d = some (d, 0x00)
read_register guest_page_size d = some (d, 0)
read_register queue_num_max d = some (d, 1024)
read_register queue_num d = some (d, 0)
read_register queue_pfn d = if d.page_size == 0 then none else some (d, d.descriptor / d.page_size)
read_register queue_ready d = some (d, if d.queue_ready then 1 else 0)
read_register queue_notify d = some (d, 0)
read_register interrupt_status d = some (d, d.interrupt_status)
read_register interrupt_ack d = some (d, 0)
read_register status d = some (d, d.status)
read_register unimplemented d = some (d, 0)
read_register (config config_offset) d = some (read_config config_offset d)

unfoldable pub read : ℕ → VirtioBlkMmio → Option (VirtioBlkMmio × ℕ)
read offset d = read_register (decode offset) d

abbrev pub checked_add : ℕ → ℕ → Option ℕ
checked_add a b = if ltb (a + b) (2 ^ 64) then some (a + b) else none

abbrev pub checked_sub : ℕ → ℕ → Option ℕ
checked_sub a b = if ltb a b then none else some (a - b)

abbrev pub checked_mul : ℕ → ℕ → Option ℕ
checked_mul a b = if ltb (a * b) (2 ^ 64) then some (a * b) else none

abbrev pub then_some : Option ℕ → (ℕ → Option ℕ) → Option ℕ
then_some none f = none
then_some (some a) f = f a

-- `((end - 1) & !(page_size - 1)) + page_size`.
unfoldable pub page_behind : ℕ → ℕ → Option ℕ
page_behind past page_size = then_some (checked_sub past 1) λ last.
    then_some (checked_sub page_size 1)
      λ mask. checked_add (bit_and last (complement 64 mask)) page_size

unfoldable pub avail_ring_of : ℕ → ℕ → Option ℕ
avail_ring_of descriptor queue_size =
    then_some (checked_mul size_of_desc queue_size) (checked_add descriptor)

unfoldable pub used_ring_of : ℕ → ℕ → ℕ → Option ℕ
used_ring_of avail_ring queue_size page_size = then_some (checked_add 3 queue_size) λ n.
    then_some (checked_mul 2 n)
      λ bytes. then_some (checked_add avail_ring bytes) λ past. page_behind past page_size

-- The rings behind the descriptors.
unfoldable pub place_rings : VirtioBlkMmio → Option VirtioBlkMmio
place_rings d = elim (avail_ring_of d.descriptor d.queue_size) [
  | none ↦ none
  | some avail ↦ elim (used_ring_of avail d.queue_size d.page_size) [
    | none ↦ none
    | some used ↦ some (record d { avail_ring = avail; used_ring = used })
  ]
]

abbrev pub reset : VirtioBlkMmio → VirtioBlkMmio
reset d = record d {
  queue_size = 0;
  queue_ready = false;
  page_size = 2 ^ 12;
  interrupt_status = 0;
  status = 0;
  descriptor = 0;
  avail_ring = 0;
  used_ring = 0;
  last_avail_id = 0;
  used_id = 0;
}

-- `QUEUE_PFN`: the address of the page, if it is in the guest's RAM.
abbrev pub set_queue : Option (Option ℕ) → VirtioBlkMmio → Option VirtioBlkMmio
set_queue none d = none
set_queue (some none) d = some d
set_queue (some (some address)) d = place_rings (record d { descriptor = address })

abbrev pub page_address : Vm → Option ℕ → Option (Option ℕ)
page_address vm none = none
page_address vm (some address) = get_physical_address vm address

unfoldable pub write_register : Vm → Register → ℕ → VirtioBlkMmio → Option VirtioBlkMmio
write_register vm guest_page_size v d = some (record d { page_size = v })
write_register vm queue_num v d = place_rings (record d { queue_size = v })
write_register vm queue_pfn v d = set_queue (page_address vm (checked_mul v d.page_size)) d
write_register vm interrupt_ack v d =
    some (record d { interrupt_status = bit_and d.interrupt_status (complement 32 (v % 2 ^ 32)) })
write_register vm status v d =
    if v == 0 then some (reset d) else some (record d { status = v % 2 ^ 32 })
write_register vm _ v d = some d

module _ {D : Type 0} (transfer : Bool → ℕ → ℕ → ℕ → (ℕ → ℕ) × D → ((ℕ → ℕ) × D) × Bool)
    (vm : Vm) where
  abbrev pub update : Option VirtioBlkMmio → Exec D (Unit {0})
  update none w = panicked
  update (some d) w = value tt (record w { dev = d })

  abbrev pub is_notify : Register → Bool
  is_notify queue_notify = true
  is_notify _ = false

  unfoldable pub write : ℕ → ℕ → ℕ → ℕ → Exec D (Unit {0})
  write current_target fuel offset v w =
      if is_notify (decode offset)
      then (if v == 0 then operation transfer vm current_target fuel w else value tt w)
      else update (write_register vm (decode offset) v w.dev) w
