-- ===== src/VirtioBlk/Queue.antt =====
-- src/mmio/virtio_blk.rs: the rings of the queue.
use mini_visor_pi.Prelude.{ℕ, ◌+◌, ◌*◌, ◌%◌, ◌^◌, Option, none, some, ltb, ◌==◌, if◌then◌else◌}
use mini_visor_pi.VirtioBlk.{
  VirtQueueDesc, World, value, panicked, Exec, size_of_desc, size_of_used_element,
}
use mini_visor_pi.VirtioBlk.Words.{read_word, write_word}

abbrev pub desc_at : (ℕ → ℕ) → ℕ → VirtQueueDesc
desc_at memory address = record {
  address = read_word 8 memory address;
  length = read_word 4 memory (address + 8);
  flags = read_word 2 memory (address + 12);
  next = read_word 2 memory (address + 14);
}

-- `x % (self.queue_size as u16)` and then `x += 1` on a u16: both can panic.
abbrev pub slot_and_next : ℕ → ℕ → Option (ℕ × ℕ)
slot_and_next counter queue_size =
    if queue_size % 2 ^ 16 == 0
    then none
    else if ltb (counter + 1) (2 ^ 16)
    then some (counter % (queue_size % 2 ^ 16), counter + 1)
    else none

module _ {D : Type 0} where
  unfoldable pub get_descriptor : ℕ → World D → Option VirtQueueDesc
  get_descriptor id w =
      if w.dev.descriptor == 0
      then none
      else some (desc_at w.memory (w.dev.descriptor + size_of_desc * id))

  unfoldable pub get_descriptor_id : ℕ → World D → Option ℕ
  get_descriptor_id id w =
      if w.dev.avail_ring == 0
      then none
      else some (read_word 2 w.memory (w.dev.avail_ring + 2 * 2 + 2 * id))

  abbrev pub avail_idx : World D → ℕ
  avail_idx w = read_word 2 w.memory (w.dev.avail_ring + 2)

  abbrev pub set_last_avail_id : ℕ → World D → World D
  set_last_avail_id id w = record w { dev = record w.dev { last_avail_id = id } }

  unfoldable pub get_next_avail_id : Exec D (Option ℕ)
  get_next_avail_id w =
      if w.dev.last_avail_id == avail_idx w
      then value none w
      else elim (slot_and_next w.dev.last_avail_id w.dev.queue_size) [
        | none ↦ panicked
        | some r ↦ value (some r.0) (set_last_avail_id r.1 w)
      ]

  abbrev pub used_element : ℕ → World D → ℕ
  used_element slot w = w.dev.used_ring + 2 * 2 + size_of_used_element * slot

  -- The element, and then the index.
  abbrev pub put_used : ℕ → ℕ → ℕ → ℕ → World D → World D
  put_used slot next id length w =
      let element = used_element slot w in
      let with_id = write_word 4 w.memory element id in
      let with_length = write_word 4 with_id (element + 4) length in
      record w {
        dev = record w.dev { used_id = next };
        memory = write_word 2 with_length (w.dev.used_ring + 2) next;
      }

  unfoldable pub write_used : ℕ → ℕ → Exec D (Unit {0})
  write_used id length w = elim (slot_and_next w.dev.used_id w.dev.queue_size) [
    | none ↦ panicked
    | some r ↦ value tt (put_used r.0 r.1 id length w)
  ]
