-- ===== src/MemoryAllocator.antt =====
-- src/memory_allocator.rs: the pool of entries, each a free range with links to its neighbours in the
-- order of addresses and in a free list. A reference to an entry is its index in the pool. An
-- arithmetic overflow panics, as in a build with overflow checks.
use mini_visor_pi.Prelude.{
  ℕ, zero, suc, ◌+◌, ◌-◌, ◌*◌, ◌^◌, Bool, true, false, not, ◌&&◌, ◌||◌, Option, none, some, List,
  [], ◌∷◌, bit_and, ltb, leb, ◌==◌, if◌then◌else◌, get_or, set, replicate,
}
use mini_visor_pi.Prelude.Bits.{complement}
pub mod FreeList
pub mod Alignment
pub mod Used
pub mod Free
pub mod Allocate
pub mod Aligned
pub mod Order
pub mod Creation

pub record MemoryEntry : Type 0 where
  pub previous : Option ℕ
  pub next : Option ℕ
  pub list_prev : Option ℕ
  pub list_next : Option ℕ
  pub start : ℕ
  pub last : ℕ
  pub enabled : Bool
  pub id : ℕ

pub record MemoryAllocator : Type 0 where
  pub free_size : ℕ
  pub first_entry : Option ℕ
  pub free_list : List (Option ℕ)
  pub memory_entry_pool : List MemoryEntry

pub data MemoryError : Type 0 where
  no_entry invalid_entry no_memory invalid_request : MemoryError

abbrev pub pool_size : ℕ
pool_size = 64

abbrev pub num_of_free_list : ℕ
num_of_free_list = 12

abbrev pub new_entry : MemoryEntry
new_entry = record {
  previous = none;
  next = none;
  list_prev = none;
  list_next = none;
  start = 0;
  last = 0;
  enabled = false;
  id = 0;
}

unfoldable pub new : MemoryAllocator
new = record {
  free_size = 0;
  first_entry = none;
  free_list = replicate num_of_free_list none;
  memory_entry_pool = replicate pool_size new_entry;
}

-- How an operation ends: a value, an error, both with the state that they leave, a panic, or not
-- within the fuel.
pub data Run {ℓ} (A : Type ℓ) : Type ℓ where
  ok : A → MemoryAllocator → Run A
  failed : MemoryError → MemoryAllocator → Run A
  panicked : Run A
  unfinished : Run A

abbrev pub Alloc {ℓ} : Type ℓ → Type ℓ
Alloc A = MemoryAllocator → Run A

abbrev pub pure {ℓ} : {A : Type ℓ} → A → Alloc A
pure a s = ok a s

abbrev pub fail {ℓ} : {A : Type ℓ} → MemoryError → Alloc A
fail e s = failed e s

abbrev pub panic {ℓ} : {A : Type ℓ} → Alloc A
panic s = panicked

abbrev pub diverge {ℓ} : {A : Type ℓ} → Alloc A
diverge s = unfinished

infixl 10 ◌>>=◌
abbrev pub ◌>>=◌ {ℓ κ} : {A : Type ℓ} {B : Type κ} → Alloc A → (A → Alloc B) → Alloc B
(m >>= f) s = elim (m s) [
  | ok a s' ↦ f a s'
  | failed e s' ↦ failed e s'
  | panicked ↦ panicked
  | unfinished ↦ unfinished
]

abbrev pub state : Alloc MemoryAllocator
state s = ok s s

abbrev pub put : MemoryAllocator → Alloc (Unit {0})
put s' s = ok tt s'

abbrev pub entry : ℕ → Alloc MemoryEntry
entry k s = ok (get_or s.memory_entry_pool k new_entry) s

abbrev pub write_entry : ℕ → MemoryEntry → Alloc (Unit {0})
write_entry k e s = ok tt (record s { memory_entry_pool = set s.memory_entry_pool k e })

-- Checked arithmetic on usize.
abbrev pub sub : ℕ → ℕ → Alloc ℕ
sub a b = if ltb a b then panic else pure (a - b)

abbrev pub add : ℕ → ℕ → Alloc ℕ
add a b = if ltb (a + b) (2 ^ 64) then pure (a + b) else panic

unfoldable pub get_end_address : ℕ → ℕ → Alloc ℕ
get_end_address address size = do past ← add address size; sub past 1

unfoldable pub get_memory_entry : ℕ → Alloc ℕ
get_memory_entry index = if ltb index pool_size then pure index else fail invalid_entry

-- `link.and_then(|n| get_memory_entry(pool, n).ok())`.
abbrev pub linked : Option ℕ → Option ℕ
linked none = none
linked (some n) = if ltb n pool_size then some n else none

-- The first entry of the pool, from index `i` on, that is not in use.
unfoldable pub first_disabled : List MemoryEntry → ℕ → Option ℕ
first_disabled [] i = none
first_disabled (e ∷ pool) i =
    let rest = first_disabled pool (i + 1) in if e.enabled then rest else some i

unfoldable pub create_memory_entry : Alloc ℕ
unfolding first_disabled
create_memory_entry s = elim (first_disabled s.memory_entry_pool 0) [
  | none ↦ failed no_entry s
  | some i ↦ ok i (record s {
    memory_entry_pool = set s.memory_entry_pool i (record new_entry { id = i; enabled = true });
  })
]

-- The methods of MemoryEntry.
unfoldable pub get_size : ℕ → Alloc ℕ
get_size k = do e ← entry k; n ← sub e.last e.start; add n 1

unfoldable pub set_range : ℕ → ℕ → ℕ → Alloc (Unit {0})
set_range k start last =
    if leb start last
    then (do e ← entry k; write_entry k (record e { start = start; last = last }))
    else panic

unfoldable pub set_prev_entry : ℕ → ℕ → Alloc (Unit {0})
set_prev_entry k prev = do
  p ← entry prev
  e ← entry k
  write_entry k (record e { previous = some p.id })

unfoldable pub set_next_entry : ℕ → ℕ → Alloc (Unit {0})
set_next_entry k next = do
  n ← entry next
  e ← entry k
  write_entry k (record e { next = some n.id })

unfoldable pub unset_prev_entry : ℕ → Alloc (Unit {0})
unset_prev_entry k = do e ← entry k; write_entry k (record e { previous = none })

unfoldable pub unset_next_entry : ℕ → Alloc (Unit {0})
unset_next_entry k = do e ← entry k; write_entry k (record e { next = none })

unfoldable pub chain_after_me : ℕ → ℕ → Alloc (Unit {0})
unfolding set_next_entry set_prev_entry
chain_after_me k after = do _ ← set_next_entry k after; set_prev_entry after k

-- The neighbours of an entry that goes away.
unfoldable pub bypass : Option ℕ → Option ℕ → Alloc (Unit {0})
unfolding chain_after_me unset_next_entry unset_prev_entry
bypass (some p) (some n) = chain_after_me p n
bypass (some p) none = unset_next_entry p
bypass none (some n) = unset_prev_entry n
bypass none none = pure tt

unfoldable pub delete : ℕ → Alloc (Unit {0})
unfolding bypass
delete k = do
  e ← entry k
  _ ← bypass (linked e.previous) (linked e.next)
  e' ← entry k
  write_entry k (record e' { previous = none; next = none; enabled = false })

abbrev pub set_list_next : ℕ → Option ℕ → Alloc (Unit {0})
set_list_next k link = do e ← entry k; write_entry k (record e { list_next = link })

abbrev pub set_list_prev : ℕ → Option ℕ → Alloc (Unit {0})
set_list_prev k link = do e ← entry k; write_entry k (record e { list_prev = link })

-- The same at an entry that may not be there.
abbrev pub link_next : Option ℕ → Option ℕ → Alloc (Unit {0})
link_next none link = pure tt
link_next (some k) link = set_list_next k link

abbrev pub link_prev : Option ℕ → Option ℕ → Alloc (Unit {0})
link_prev none link = pure tt
link_prev (some k) link = set_list_prev k link

unfoldable pub unchain_from_freelist : ℕ → Alloc (Unit {0})
unchain_from_freelist k = do
  e ← entry k
  _ ← link_next (linked e.list_prev) e.list_next
  _ ← link_prev (linked e.list_next) e.list_prev
  e' ← entry k
  write_entry k (record e' { list_next = none; list_prev = none })

abbrev pub is_first_entry : MemoryEntry → Bool
is_first_entry e = elim e.previous [ none ↦ true | some p ↦ false ]
