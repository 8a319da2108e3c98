-- ===== src/VirtioBlk/Endless.antt =====
-- src/mmio/virtio_blk.rs: a chain of descriptors without an end.
use mini_visor_pi.Prelude.{
  ℕ, zero, suc, ◌+◌, ◌^◌, ◌<◌, ◌≡◌, refl, ap, ◌∙◌, Bool, true, none, some, ltb, ◌==◌, if◌then◌else◌,
  arith, lt→ltb, ==-true,
}
use mini_visor_pi.Vm.{Vm}
use mini_visor_pi.Vm.Mmio.{get_physical_address}
use mini_visor_pi.VirtioBlk.{
  VirtQueueDesc, World, value, unfinished, pure, ◌>>=◌, >>=-value, >>=-unfinished, status_ioerr,
  size_of_blk_req, type_out,
}
use mini_visor_pi.VirtioBlk.Queue.{get_descriptor, get_descriptor_id, get_next_avail_id}
use mini_visor_pi.VirtioBlk.Words.{read_word}
use mini_visor_pi.VirtioBlk.Registers.{decode, write}
use mini_visor_pi.VirtioBlk.Operation.{
  Progress, begin, has_next, one_buffer, move_buffer, move_buffers, serve_request, serve_all,
  operation, add_u32, translate, next_descriptor, or_leave, lookup, lookup_id, guard,
}

module _ {D : Type 0} (transfer : Bool → ℕ → ℕ → ℕ → (ℕ → ℕ) × D → ((ℕ → ℕ) × D) × Bool)
    (vm : Vm) where
  -- A descriptor of no bytes outside the guest's RAM whose successor is itself.
  pub record Loops (n : ℕ) (d : VirtQueueDesc) (w : World D) : Type 0 where
    pub stands : get_descriptor n w ≡ some d
    pub goes_on : has_next transfer vm d ≡ true
    pub to_itself : d.next ≡ n
    pub empty : d.length ≡ 0
    pub nowhere : get_physical_address vm d.address ≡ some none

  abbrev stepped : VirtQueueDesc → Progress → Progress
  stepped d p = record {
    descriptor = d;
    offset = p.offset;
    total_size = p.total_size;
    status = status_ioerr;
  }

  module _ (n : ℕ) (d : VirtQueueDesc) (w : World D) (loops : Loops n d w) where
    no_more : (total : ℕ) → total < 2 ^ 32 → add_u32 transfer vm total d.length w ≡ value total w
    no_more total small =
        let same : total + d.length ≡ total = let e = loops.empty in omega arith in
        let fits : ltb total (2 ^ 32) ≡ true = lt→ltb _ _ small in rw (same, fits) refl

    not_in_ram : translate transfer vm d.address w ≡ value none w
    not_in_ram = let nowhere = loops.nowhere in rw (translate, nowhere) refl

    one_buffer-runs :
        (is_write : Bool) (p : Progress)
        → p.total_size < 2 ^ 32
        → one_buffer transfer vm is_write p d w ≡ value (stepped d p) w
    unfolding one_buffer move_buffer
    one_buffer-runs is_write p small =
        >>=-value (add_u32 transfer vm p.total_size d.length)
          (λ total. translate transfer vm d.address >>= λ address.
            move_buffer transfer vm is_write p d total address)
          w w p.total_size (no_more p.total_size small)
        ∙ >>=-value (translate transfer vm d.address)
            (λ address. move_buffer transfer vm is_write p d p.total_size address) w w none
            not_in_ram

    itself : (p : Progress) → p.descriptor.next ≡ n → next_descriptor transfer vm p w ≡ value d w
    itself p next =
        ap (λ (k : ℕ). or_leave transfer vm (get_descriptor k w) w) next
        ∙ ap (λ o. or_leave transfer vm o w) loops.stands

    move_buffers-unfinished :
        (fuel : ℕ) (is_write : Bool) (p : Progress)
        → p.descriptor.next ≡ n
        → p.total_size < 2 ^ 32
        → move_buffers transfer vm fuel is_write p w ≡ unfinished
    unfolding move_buffers
    move_buffers-unfinished zero is_write p next small = refl
    move_buffers-unfinished (suc fuel) is_write p next small =
        >>=-value (next_descriptor transfer vm p)
          (λ d.
            if has_next transfer vm d
            then (one_buffer transfer vm is_write p d >>= λ p'.
                move_buffers transfer vm fuel is_write p')
            else pure (record p { descriptor = d }))
          w w d (itself p next)
        ∙ ap
            (λ b.
              (if b
                  then (one_buffer transfer vm is_write p d >>= λ p'.
                      move_buffers transfer vm fuel is_write p')
                  else pure (record p { descriptor = d }))
                w)
            loops.goes_on
        ∙ >>=-value (one_buffer transfer vm is_write p d)
            (λ p'. move_buffers transfer vm fuel is_write p') w w (stepped d p)
            (one_buffer-runs is_write p small)
        ∙ move_buffers-unfinished fuel is_write (stepped d p) loops.to_itself small

  -- A request whose header is sound and whose first buffer is such a descriptor.
  pub record Trap (id : ℕ) (w : World D) : Type 0 where
    pub head : ℕ
    pub header : VirtQueueDesc
    pub buffer : VirtQueueDesc
    pub address : ℕ
    pub offered : get_descriptor_id id w ≡ some head
    pub stands : get_descriptor head w ≡ some header
    pub whole : header.length ≡ 16
    pub in_ram : get_physical_address vm header.address ≡ some (some address)
    pub goes_on : has_next transfer vm header ≡ true
    pub loops : Loops header.next buffer w

  serve_request-unfinished :
      (fuel id : ℕ) (w : World D) → Trap id w → serve_request transfer vm fuel id w ≡ unfinished
  unfolding serve_request
  serve_request-unfinished fuel id w t =
      let whole : guard transfer vm (t.header.length == size_of_blk_req) w ≡ value tt w =
        ap (λ b. guard transfer vm b w) (==-true _ _ t.whole) in
      let found : translate transfer vm t.header.address w ≡ value (some t.address) w =
        let h = t.in_ram in rw (translate, h) refl in
      let more : guard transfer vm (has_next transfer vm t.header) w ≡ value tt w =
        ap (λ b. guard transfer vm b w) t.goes_on in
      >>=-value (lookup_id transfer vm id) _ w w t.head
        (ap (λ o. or_leave transfer vm o w) t.offered)
      ∙ >>=-value (lookup transfer vm t.head) _ w w t.header
          (ap (λ o. or_leave transfer vm o w) t.stands)
      ∙ >>=-value (guard transfer vm (t.header.length == size_of_blk_req)) _ w w tt whole
      ∙ >>=-value (translate transfer vm t.header.address) _ w w (some t.address) found
      ∙ >>=-value (guard transfer vm (has_next transfer vm t.header)) _ w w tt more
      ∙ >>=-unfinished
          (move_buffers transfer vm fuel (read_word 4 w.memory t.address == type_out)
            (begin t.header (read_word 8 w.memory (t.address + 8))))
          _ w
          (move_buffers-unfinished t.header.next t.buffer w t.loops fuel
            (read_word 4 w.memory t.address == type_out)
            (begin t.header (read_word 8 w.memory (t.address + 8))) refl (omega arith))

  serve_all-unfinished :
      (fuel id : ℕ) (w w' : World D)
      → get_next_avail_id w ≡ value (some id) w'
      → Trap id w'
      → serve_all transfer vm fuel w ≡ unfinished
  unfolding serve_all
  serve_all-unfinished zero id w w' next t = refl
  serve_all-unfinished (suc fuel) id w w' next t =
      >>=-value get_next_avail_id _ w w' (some id) next
      ∙ >>=-unfinished (serve_request transfer vm fuel id) _ w'
          (serve_request-unfinished fuel id w' t)

-- A guest can keep the hypervisor in the handler of QUEUE_NOTIFY for ever: if the next available request
-- has a sound header, and its first buffer is a descriptor of no bytes outside the guest's RAM whose
-- successor is itself, the notification ends for no amount of fuel.
pub write-unfinished :
    {D : Type 0} (transfer : Bool → ℕ → ℕ → ℕ → (ℕ → ℕ) × D → ((ℕ → ℕ) × D) × Bool) (vm : Vm)
    (current_target fuel id : ℕ) (w w' : World D)
    → get_next_avail_id w ≡ value (some id) w'
    → Trap transfer vm id w'
    → write transfer vm current_target fuel 0x50 0 w ≡ unfinished
unfolding write decode operation
write-unfinished transfer vm current_target fuel id w w' next t =
    >>=-unfinished (serve_all transfer vm fuel) _ w
      (serve_all-unfinished transfer vm fuel id w w' next t)
