-- ===== src/Paging/Pages.antt =====
-- src/paging.rs: the descriptors that a range of pages gets in one table.
use mini_visor_pi.Prelude.{
  ℕ, zero, suc, ◌+◌, ◌-◌, ◌*◌, ◌^◌, ◌<◌, ◌≤◌, ◌≡◌, refl, ap, ◌∙◌, ◌≢◌, Bool, true, false, Option,
  leb, ltb, ◌==◌, arith, ==-true, ==-false, lt→ltb,
}
use mini_visor_pi.Paging.{page_descriptor}
use mini_visor_pi.Paging.Map.{Mapping, Mapped, ok, advance, map_page, unless_done, map_pages, store}

-- A table of which `count` descriptors from `index` on point to successive pages.
pub record Filled {A : Type 0} (permission : ℕ) (is_device : Bool) (table_address index count : ℕ)
    (s s' : Mapping A) : Type 0 where
  pub pages :
      (j : ℕ)
      → j < count
      → s'.memory (table_address + 8 * (index + j))
        ≡ page_descriptor (s.physical_address + 4096 * j) permission is_device
  pub others :
      (address : ℕ)
      → ((j : ℕ) → j < count → address ≢ table_address + 8 * (index + j))
      → s'.memory address ≡ s.memory address
  pub moved : s'.physical_address ≡ s.physical_address + 4096 * count
  pub moved_intermediate :
      s'.intermediate_physical_address ≡ s.intermediate_physical_address + 4096 * count
  pub done : s'.remaining_size ≡ 0
  pub no_allocation : s'.allocator ≡ s.allocator

module _ {A : Type 0} (allocate_page : A → A × Option ℕ) (permission : ℕ) (is_device : Bool) where
  after_page : ℕ → ℕ → Mapping A → Mapping A
  after_page table_address index s = record s {
    physical_address = s.physical_address + 4096;
    intermediate_physical_address = s.intermediate_physical_address + 4096;
    remaining_size = s.remaining_size - 4096;
    memory =
        store s.memory (table_address + 8 * index)
          (page_descriptor s.physical_address permission is_device);
  }

  map_page-runs :
      (table_address index : ℕ) (s : Mapping A)
      → s.physical_address + 4096 < 2 ^ 64
      → s.intermediate_physical_address + 4096 < 2 ^ 64
      → 4096 ≤ s.remaining_size
      → map_page allocate_page permission is_device table_address index s
        ≡ ok (after_page table_address index s)
  unfolding advance after_page
  map_page-runs table_address index s hp hi hr =
      let fits_p : ltb (s.physical_address + 4096) (2 ^ 64) ≡ true = lt→ltb _ _ hp in
      let fits_i : ltb (s.intermediate_physical_address + 4096) (2 ^ 64) ≡ true = lt→ltb _ _ hi in
      let fits_r : leb 4096 s.remaining_size ≡ true = ground arith in
      rw (fits_p, fits_i, fits_r) refl

  module _ (table_address index : ℕ) (s : Mapping A) where
    abbrev place : ℕ → ℕ
    place j = table_address + 8 * (index + j)

    abbrev first : ℕ
    first = page_descriptor s.physical_address permission is_device

    written : (after_page table_address index s).memory (place 0) ≡ first
    unfolding after_page
    written =
        let e : (place 0 == table_address + 8 * index) ≡ true = ==-true _ _ (omega arith) in
        rw e refl

    unwritten :
        (address : ℕ)
        → address ≢ place 0
        → (after_page table_address index s).memory address ≡ s.memory address
    unfolding after_page
    unwritten address ne =
        let e : (address == table_address + 8 * index) ≡ false =
          ==-false _ _ (λ z. ne (z ∙ omega arith)) in
        rw e refl

    at_start : first ≡ page_descriptor (s.physical_address + 4096 * 0) permission is_device
    at_start = ap (λ (t : ℕ). page_descriptor t permission is_device) (omega arith)

    one-Filled :
        s.remaining_size ≡ 4096
        → Filled permission is_device table_address index 1 s (after_page table_address index s)
    unfolding after_page
    one-Filled size = record {
      pages = λ j lt. let e : j ≡ 0 = omega arith in rw e (written ∙ at_start);
      others = λ address ne. unwritten address (ne 0 (omega arith));
      moved = omega arith;
      moved_intermediate = omega arith;
      done = omega arith;
      no_allocation = refl;
    }

    pages_from :
        (k : ℕ) (s' : Mapping A)
        → Filled permission is_device table_address
            (index + 1)
            k
            (after_page table_address index s)
            s'
        → (j : ℕ) → j < suc k
        → s'.memory (place j) ≡ page_descriptor (s.physical_address + 4096 * j) permission is_device
    unfolding after_page
    pages_from k s' f zero lt = f.others (place 0) (λ j lt e. omega arith) ∙ written ∙ at_start
    pages_from k s' f (suc j) lt =
        ap s'.memory (omega arith)
        ∙ f.pages j (omega arith)
        ∙ ap (λ (t : ℕ). page_descriptor t permission is_device) (omega arith)

    more-Filled :
        (k : ℕ) (s' : Mapping A)
        → Filled permission is_device table_address
            (index + 1)
            k
            (after_page table_address index s)
            s'
        → Filled permission is_device table_address index (suc k) s s'
    unfolding after_page
    more-Filled k s' f = record {
      pages = pages_from k s' f;
      others = λ address ne.
          f.others address (λ j lt e. ne (suc j) (omega arith) (e ∙ omega arith))
          ∙ unwritten address (ne 0 (omega arith));
      moved = let e = f.moved in omega arith;
      moved_intermediate = let e = f.moved_intermediate in omega arith;
      done = f.done;
      no_allocation = f.no_allocation;
    }

  round-runs :
      (n table_address index : ℕ) (s : Mapping A)
      → s.physical_address + 4096 < 2 ^ 64
      → s.intermediate_physical_address + 4096 < 2 ^ 64
      → 4096 ≤ s.remaining_size
      → map_pages allocate_page permission is_device table_address (suc n) index s
        ≡ unless_done allocate_page permission is_device
            (map_pages allocate_page permission is_device table_address n (index + 1))
            (after_page table_address index s)
  unfolding map_pages
  round-runs n table_address index s hp hi hr =
      let e = map_page-runs table_address index s hp hi hr in rw (map_pages, e) refl

  last-runs :
      (next : Mapping A → Mapped A) (table_address index : ℕ) (s : Mapping A)
      → s.remaining_size ≡ 4096
      → unless_done allocate_page permission is_device next (after_page table_address index s)
        ≡ ok (after_page table_address index s)
  unfolding after_page
  last-runs next table_address index s size =
      let e : (s.remaining_size - 4096 == 0) ≡ true = ==-true _ _ (omega arith) in rw e refl

  further-runs :
      (next : Mapping A → Mapped A) (table_address index : ℕ) (s : Mapping A)
      → 4096 < s.remaining_size
      → unless_done allocate_page permission is_device next (after_page table_address index s)
        ≡ next (after_page table_address index s)
  unfolding after_page
  further-runs next table_address index s size =
      let e : (s.remaining_size - 4096 == 0) ≡ false = ==-false _ _ (λ z. absurd (omega arith)) in
      rw e refl

  Filled-run :
      (k n table_address index : ℕ) (s : Mapping A)
      → k < n
      → s.remaining_size ≡ 4096 * suc k
      → s.physical_address + s.remaining_size < 2 ^ 64
      → s.intermediate_physical_address + s.remaining_size < 2 ^ 64
      → (s' : Mapping A) × (map_pages allocate_page permission is_device table_address n index s
          ≡ ok s')
        × Filled permission is_device table_address index (suc k) s s'
  unfolding after_page
  Filled-run k zero table_address index s lt size hp hi = absurd (omega arith)
  Filled-run zero (suc n) table_address index s lt size hp hi = (
    after_page table_address index s,
    round-runs n table_address index s (omega arith) (omega arith) (omega arith)
        ∙ last-runs (map_pages allocate_page permission is_device table_address n (index + 1))
            table_address index s (omega arith),
    one-Filled table_address index s (omega arith),
  )
  Filled-run (suc k) (suc n) table_address index s lt size hp hi =
      let rest =
        Filled-run k n table_address (index + 1) (after_page table_address index s) (omega arith)
          (omega arith) (omega arith) (omega arith) in
      (
        rest.0,
        round-runs n table_address index s (omega arith) (omega arith) (omega arith)
            ∙ further-runs
                (map_pages allocate_page permission is_device table_address n (index + 1))
                table_address index s (omega arith)
            ∙ rest.1,
        more-Filled table_address index s (suc k) rest.0 rest.2,
      )

-- In a range of `suc k` whole pages that ends below 2^64 in both address spaces, the loop at level 3
-- with more than `k` descriptors ahead writes one for each page, in order, and no other word of
-- memory, allocates nothing, and leaves nothing to map.
pub map_pages-Filled :
    {A : Type 0} (allocate_page : A → A × Option ℕ) (permission : ℕ) (is_device : Bool)
    (k n table_address index : ℕ) (s : Mapping A)
    → k < n
    → s.remaining_size ≡ 4096 * suc k
    → s.physical_address + s.remaining_size < 2 ^ 64
    → s.intermediate_physical_address + s.remaining_size < 2 ^ 64
    → (s' : Mapping A) × (map_pages allocate_page permission is_device table_address n index s
        ≡ ok s')
      × Filled permission is_device table_address index (suc k) s s'
map_pages-Filled allocate_page permission is_device = Filled-run allocate_page permission is_device
