-- ===== src/VirtioBlk.antt =====
-- src/mmio/virtio_blk.rs and the layouts of src/drivers/virtio.rs: the virtual block device. Memory is
-- a function from a physical address to its byte; a null pointer is 0.
use mini_visor_pi.Prelude.{
  ℕ, zero, suc, ◌+◌, ◌-◌, ◌*◌, ◌/◌, ◌%◌, ◌^◌, ◌≡◌, refl, Bool, true, false, not, ◌&&◌, Option, none,
  some, leb, ltb, ◌==◌, if◌then◌else◌, bit_and, bit_or,
}
use mini_visor_pi.Prelude.Bits.{complement, shl}
use mini_visor_pi.GicDistributor.Trigger.{Platform}
use mini_visor_pi.Vm.{Vm}
use mini_visor_pi.Vm.Mmio.{get_physical_address}
pub mod Words
pub mod Queue
pub mod Operation
pub mod Registers
pub mod Used
pub mod Endless
pub mod Layout

pub record VirtioBlkMmio : Type 0 where
  pub file_size : ℕ
  pub interrupt_status : ℕ
  pub status : ℕ
  pub queue_size : ℕ
  pub queue_ready : Bool
  pub page_size : ℕ
  pub descriptor : ℕ
  pub avail_ring : ℕ
  pub used_ring : ℕ
  pub last_avail_id : ℕ
  pub used_id : ℕ
  pub config_read_logged : Bool

-- `none`: a file of a size that is not a number of sectors panics.
unfoldable pub new : ℕ → Option VirtioBlkMmio
new file_size =
    if bit_and file_size 0x1FF == 0
    then some (record {
      file_size = file_size;
      interrupt_status = 0;
      status = 0;
      queue_size = 0;
      queue_ready = false;
      page_size = 2 ^ 12;
      descriptor = 0;
      avail_ring = 0;
      used_ring = 0;
      last_avail_id = 0;
      used_id = 0;
      config_read_logged = false;
    })
    else none

pub record VirtQueueDesc : Type 0 where
  pub address : ℕ
  pub length : ℕ
  pub flags : ℕ
  pub next : ℕ

pub record VirtioBlkReq : Type 0 where
  pub req_type : ℕ
  pub sector : ℕ

abbrev pub size_of_desc : ℕ
size_of_desc = 16

abbrev pub size_of_used_element : ℕ
size_of_used_element = 8

abbrev pub size_of_blk_req : ℕ
size_of_blk_req = 16

abbrev pub desc_flags_next : ℕ
desc_flags_next = 1

abbrev pub type_out : ℕ
type_out = 1

abbrev pub status_ok : ℕ
status_ok = 0

abbrev pub status_ioerr : ℕ
status_ioerr = 1

abbrev pub virtio_blk_int_id : ℕ
virtio_blk_int_id = 40

-- The device, the memory, the disk that the image file is on and the interrupt controller.
pub record World (D : Type 0) : Type 0 where
  pub dev : VirtioBlkMmio
  pub memory : ℕ → ℕ
  pub disk : D
  pub platform : Platform

-- How an operation ends: with a value, by an early `return`, by a panic, or not within the fuel.
pub data Run {ℓ} (D : Type 0) (A : Type ℓ) : Type ℓ where
  value : A → World D → Run D A
  returned : World D → Run D A
  panicked : Run D A
  unfinished : Run D A

abbrev pub Exec {ℓ} : Type 0 → Type ℓ → Type ℓ
Exec D A = World D → Run D A

abbrev pub pure {ℓ} : {D : Type 0} {A : Type ℓ} → A → Exec D A
pure a w = value a w

abbrev pub leave {ℓ} : {D : Type 0} {A : Type ℓ} → Exec D A
leave w = returned w

abbrev pub panic {ℓ} : {D : Type 0} {A : Type ℓ} → Exec D A
panic w = panicked

infixl 10 ◌>>=◌
abbrev pub ◌>>=◌ {ℓ κ} :
    {D : Type 0} {A : Type ℓ} {B : Type κ} → Exec D A → (A → Exec D B) → Exec D B
(m >>= f) w = elim (m w) [
  | value a w' ↦ f a w'
  | returned w' ↦ returned w'
  | panicked ↦ panicked
  | unfinished ↦ unfinished
]

pub >>=-value {ℓ κ} :
    {D : Type 0} {A : Type ℓ} {B : Type κ} (m : Exec D A) (f : A → Exec D B) (w w' : World D)
    (a : A)
    → m w ≡ value a w'
    → (m >>= f) w ≡ f a w'
>>=-value m f w w' a h = rw (◌>>=◌, h) refl

pub >>=-unfinished {ℓ κ} :
    {D : Type 0} {A : Type ℓ} {B : Type κ} (m : Exec D A) (f : A → Exec D B) (w : World D)
    → m w ≡ unfinished
    → (m >>= f) w ≡ unfinished
>>=-unfinished m f w h = rw (◌>>=◌, h) refl
