-- ===== src/GicDistributor/Inject.antt =====
-- src/mmio/gicv2.rs, inject_interrupt_handler and inject_pending_for_current_cpu.
use mini_visor_pi.Prelude.{
  ℕ, zero, suc, ◌+◌, ◌%◌, ◌^◌, Bool, false, not, ◌&&◌, ◌||◌, Option, none, some, List, [], ◌∷◌,
  ◌++◌, ltb, ◌==◌, if◌then◌else◌,
}
use mini_visor_pi.Prelude.Panics.{◌>>=◌}
use mini_visor_pi.VgicLr.{create_list_register_entry}
use mini_visor_pi.ListRegisters.{Gich, add_virtual_interrupt}
use mini_visor_pi.GicDistributor.{GicDistributorMmio, target_to_cpu_index, banked_int_id_count}
use mini_visor_pi.GicDistributor.Registers.{get_enable, get_pending, get_group, get_priority}
use mini_visor_pi.GicDistributor.Trigger.{
  Platform, distributor_enabled, generic_timer_virtual_int_id,
}

-- Whether an entry of the queue was injected here.
unfoldable pub try_queued : ℕ → Gich → ℕ × ℕ → Bool × Gich
try_queued current_target g (target, entry) =
    if target == current_target then add_virtual_interrupt g entry else (false, g)

-- The loop of inject_interrupt_handler: the queue, and the entries that remain.
unfoldable pub drain : ℕ → Gich → List (ℕ × ℕ) → List (ℕ × ℕ) → Gich × List (ℕ × ℕ)
unfolding try_queued
drain current_target g [] remaining = (g, remaining)
drain current_target g (x ∷ queue) remaining =
    let (done, g') = try_queued current_target g x in
    drain current_target g' queue (if done then remaining else remaining ++ (x ∷ []))

unfoldable pub inject_interrupt_handler : ℕ → Platform → Platform
unfolding drain
inject_interrupt_handler current_target p =
    let (g, remaining) = drain current_target p.gich p.dist.to_inject_interrupt [] in
    record p { gich = g; dist = record p.dist { to_inject_interrupt = remaining } }

-- The INTIDs, `n` of them from `int_id` on, that are pending and enabled, with their priorities.
unfoldable pub candidates : ℕ → ℕ → ℕ → GicDistributorMmio → Option (List (ℕ × ℕ))
candidates zero int_id cpu d = some []
candidates (suc n) int_id cpu d = do
  is_pending ←
      (if int_id == generic_timer_virtual_int_id then some false else get_pending d cpu int_id)
  is_candidate ← (if is_pending then get_enable d cpu int_id else some false)
  first ←
      (if is_candidate
        then (do priority ← get_priority d cpu int_id; some ((priority % 2 ^ 8, int_id) ∷ []))
        else some [])
  rest ← candidates n (int_id + 1) cpu d
  some (first ++ rest)

-- The order of tuples.
abbrev pub tuple_lt : ℕ × ℕ → ℕ × ℕ → Bool
tuple_lt (a, b) (c, d) = ltb a c || ((a == c) && ltb b d)

unfoldable pub insert : ℕ × ℕ → List (ℕ × ℕ) → List (ℕ × ℕ)
insert x [] = x ∷ []
insert x (y ∷ ys) = if tuple_lt y x then y ∷ insert x ys else x ∷ (y ∷ ys)

-- candidates.sort_unstable().
unfoldable pub sort_unstable : List (ℕ × ℕ) → List (ℕ × ℕ)
unfolding insert
sort_unstable [] = []
sort_unstable (x ∷ xs) = insert x (sort_unstable xs)

-- Injects the candidates in order, up to the first that finds no List Register.
unfoldable pub inject_all : List (ℕ × ℕ) → ℕ → GicDistributorMmio → Gich → Option Gich
inject_all [] cpu d g = some g
inject_all ((_, int_id) ∷ rest) cpu d g = do
  group ← get_group d cpu int_id
  priority ← get_priority d cpu int_id
  let r = add_virtual_interrupt g (create_list_register_entry int_id group priority none)
  let later = inject_all rest cpu d r.1
  if r.0 then later else some r.1

unfoldable pub inject_pending_for_current_cpu : ℕ → Platform → Option Platform
unfolding candidates sort_unstable inject_all
inject_pending_for_current_cpu current_target p =
    if not (distributor_enabled p.dist) then some p else (do
      let cpu = target_to_cpu_index current_target
      let max_int_id : ℕ = if current_target == p.dist.own_target then 1024 else banked_int_id_count
      found ← candidates max_int_id 0 cpu p.dist
      g ← inject_all (sort_unstable found) cpu p.dist p.gich
      some (record p { gich = g }))
