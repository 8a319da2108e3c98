-- ===== src/MemoryAllocator/Creation.antt =====
-- src/memory_allocator.rs, create_memory_entry.
use mini_visor_pi.Prelude.{
  ℕ, zero, suc, ◌+◌, ◌<◌, ◌≡◌, ◌≢◌, refl, Bool, true, false, Option, none, some, List, [], ◌∷◌,
  length, get_or, get_or-set_self, get_or-set_ne, arith, All, if◌then◌else◌,
}
use mini_visor_pi.MemoryAllocator.{
  MemoryAllocator, MemoryEntry, no_entry, new_entry, Run, ok, failed, first_disabled,
  create_memory_entry,
}

-- Where first_disabled stops in a pool whose first item has index `i`.
data FirstDisabled (pool : List MemoryEntry) (i : ℕ) : Option ℕ → Type 0 where
  all_enabled : All (λ e. e.enabled ≡ true) pool → FirstDisabled pool i none
  disabled :
      (k m : ℕ)
      → m ≡ i + k
      → k < length pool
      → (get_or pool k new_entry).enabled ≡ false
      → ((j : ℕ) → j < k → (get_or pool j new_entry).enabled ≡ true)
      → FirstDisabled pool i (some m)

extend :
    (e : MemoryEntry) (pool : List MemoryEntry) (i : ℕ) {o : Option ℕ}
    → e.enabled ≡ true
    → FirstDisabled pool (i + 1) o
    → FirstDisabled (e ∷ pool) i o
extend e pool i on (all_enabled all) = all_enabled (on, all)
extend e pool i on (disabled k m place lt off before) =
    disabled (suc k) m (omega arith) (omega arith) off (λ j h. earlier j h)
  where
    earlier : (j : ℕ) → j < suc k → (get_or (e ∷ pool) j new_entry).enabled ≡ true
    earlier zero h = on
    earlier (suc j) h = before j (omega arith)

first_disabled-FirstDisabled :
    (pool : List MemoryEntry) (i : ℕ) → FirstDisabled pool i (first_disabled pool i)
unfolding first_disabled
first_disabled-FirstDisabled [] i = all_enabled tt
first_disabled-FirstDisabled (e ∷ pool) i =
    at_head e.enabled refl (first_disabled-FirstDisabled pool (i + 1))
  where
    at_head :
        (b : Bool)
        → e.enabled ≡ b
        → FirstDisabled pool (i + 1) (first_disabled pool (i + 1))
        → FirstDisabled (e ∷ pool) i (if b then first_disabled pool (i + 1) else some i)
    at_head true on rest = extend e pool i on rest
    at_head false off rest =
        disabled 0 i (omega arith) (omega arith) off (λ j h. absurd (omega arith))

-- What create_memory_entry leaves: the first entry that was not in use, reset, with its index as id
-- and in use, the other entries as they were; or NoEntry and no change when all are in use.
pub data Created (s : MemoryAllocator) : Run ℕ → Type 0 where
  full : All (λ e. e.enabled ≡ true) s.memory_entry_pool → Created s (failed no_entry s)
  created :
      (k : ℕ) (s' : MemoryAllocator)
      → k < length s.memory_entry_pool
      → (get_or s.memory_entry_pool k new_entry).enabled ≡ false
      → ((j : ℕ) → j < k → (get_or s.memory_entry_pool j new_entry).enabled ≡ true)
      → get_or s'.memory_entry_pool k new_entry ≡ record new_entry { id = k; enabled = true }
      → ((j : ℕ)
          → k ≢ j
          → get_or s'.memory_entry_pool j new_entry ≡ get_or s.memory_entry_pool j new_entry)
      → (s'.free_size ≡ s.free_size)
        × (s'.first_entry ≡ s.first_entry)
        × (s'.free_list ≡ s.free_list)
      → Created s (ok k s')

-- create_memory_entry takes the first entry of the pool that is not in use, resets it and changes no
-- other entry; it fails with NoEntry, and changes nothing, exactly when every entry is in use.
pub create_memory_entry-Created : (s : MemoryAllocator) → Created s (create_memory_entry s)
unfolding create_memory_entry
create_memory_entry-Created s = found _ refl (first_disabled-FirstDisabled s.memory_entry_pool 0)
  where
    found :
        (o : Option ℕ)
        → first_disabled s.memory_entry_pool 0 ≡ o
        → FirstDisabled s.memory_entry_pool 0 o
        → Created s (create_memory_entry s)
    found none e (all_enabled all) = rw (create_memory_entry, e) (full all)
    found (some m) e (disabled k m' place lt off before) =
        let z : m ≡ k = omega arith in
        rw (create_memory_entry, e, z)
          (created k _ lt off before
            (get_or-set_self s.memory_entry_pool k (record new_entry { id = k; enabled = true })
              new_entry lt)
            (λ j ne. get_or-set_ne s.memory_entry_pool k j _ new_entry ne) (refl, refl, refl))
