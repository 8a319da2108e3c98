-- ===== src/Paging/Ranges.antt =====
-- src/paging.rs: a range mapped into a Stage 2 table with the geometry of the processor.
use mini_visor_pi.Prelude.{ℕ, none, ◌%◌, ◌≡◌, ◌≢◌, Bool, Option}
use mini_visor_pi.Paging.Map.{Mapping, Mapped, ok, failed}
use mini_visor_pi.Paging.Reached.{Balanced, Reached}

-- What mapping a range gives: nothing is left, or the allocator had no page for a table and that ended
-- the walk, in both cases after writes of the walk alone; or it is refused.
pub data Outcome {A : Type 0} (allocate_page : A → A × Option ℕ) (permission : ℕ) (is_device : Bool)
    (depth root num : ℕ) (s : Mapping A) : Mapped A → Type 0 where
  mapped_all :
      (s' : Mapping A)
      → s.remaining_size % 4096 ≡ 0
      → Balanced s s'
      → Reached allocate_page permission is_device s depth root num s'
      → s'.remaining_size ≡ 0
      → Outcome allocate_page permission is_device depth root num s (ok s')
  no_page :
      (s' : Mapping A) (a : A)
      → s.remaining_size % 4096 ≡ 0
      → Balanced s s'
      → Reached allocate_page permission is_device s depth root num s'
      → allocate_page s'.allocator ≡ (a, none)
      → Outcome allocate_page permission is_device depth root num s
          (failed (record s' { allocator = a }))
  refused :
      s.remaining_size % 4096 ≢ 0
      → Outcome allocate_page permission is_device depth root num s (failed s)
