-- ===== src/VirtioBlk/Used.antt =====
-- src/mmio/virtio_blk.rs, write_used: what the guest finds in the used ring.
use mini_visor_pi.Prelude.{ℕ, ◌+◌, ◌*◌, ◌%◌, ◌^◌, ◌<◌, ◌≤◌, ◌≡◌, ◌⊎◌}
use mini_visor_pi.VirtioBlk.{World}
use mini_visor_pi.VirtioBlk.Words.{read_word, write_word}
use mini_visor_pi.VirtioBlk.Queue.{put_used}

-- The entry and the index of the used ring after a completed request.
pub record Completed {D : Type 0} (id length : ℕ) (w w' : World D) : Type 0 where
  pub element_id :
      read_word 4 w'.memory (w.dev.used_ring + 4 + 8 * (w.dev.used_id % w.dev.queue_size)) ≡ id
  pub element_length :
      read_word 4 w'.memory (w.dev.used_ring + 8 + 8 * (w.dev.used_id % w.dev.queue_size)) ≡ length
  pub index : read_word 2 w'.memory (w.dev.used_ring + 2) ≡ w.dev.used_id + 1
  pub counted : w'.dev.used_id ≡ w.dev.used_id + 1
  pub others :
      (a : ℕ)
      → (a < w.dev.used_ring + 2) ⊎ (w.dev.used_ring + 4 + 8 * w.dev.queue_size ≤ a)
      → w'.memory a ≡ w.memory a

module _ {D : Type 0} (id length : ℕ) (w : World D) (hq : 0 < w.dev.queue_size)
    (hs : w.dev.queue_size < 2 ^ 16) (hu : w.dev.used_id + 1 < 2 ^ 16) where
  abbrev slot : ℕ
  slot = w.dev.used_id % w.dev.queue_size

  abbrev after : World D
  after = put_used slot (w.dev.used_id + 1) id length w

  abbrev element : ℕ
  element = w.dev.used_ring + 4 + 8 * slot

  abbrev with_id : ℕ → ℕ
  with_id = write_word 4 w.memory element id

  abbrev with_length : ℕ → ℕ
  with_length = write_word 4 with_id (element + 4) length
