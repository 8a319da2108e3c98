-- ===== src/GicDistributor/Validity/Pending.antt =====
-- src/mmio/gicv2.rs: what a change of a pending bit leaves alone.
use mini_visor_pi.Prelude.{ℕ, ◌≡◌, ◌≢◌, refl, arith, get_or-set_view, inl, inr, ◌==◌, Bool-cases}
use mini_visor_pi.GicDistributor.{
  GicDistributorMmio, BankedRegisters, BitArray, group_bits, enable_bits, pending_bits, active_bits,
  new_banked, set_banked_bits,
}
use mini_visor_pi.GicDistributor.Validity.{bank, bits_at, put_bits}

-- A bank without its pending bits, which alone other pCPUs may change.
abbrev pub without_pending : BankedRegisters → BankedRegisters
without_pending b = record b { pending = 0 }

pub settings-put_pending :
    (d : GicDistributorMmio) (cpu cpu' index x : ℕ)
    → without_pending (bank (put_bits pending_bits d cpu index x) cpu')
      ≡ without_pending (bank d cpu')
unfolding put_bits
settings-put_pending d cpu cpu' index x = elim (Bool-cases (index == 0)) [
  | inl e ↦ rw e (
      get_or-set_view without_pending d.banked cpu cpu'
        (set_banked_bits pending_bits (bank d cpu) x) new_banked refl)
  | inr e ↦ rw e
]

-- The fields that a change of a pending bit leaves alone.
pub record SameRest (d d' : GicDistributorMmio) : Type 0 where
  pub same_ctlr : d'.ctlr ≡ d.ctlr
  pub same_group : d'.group ≡ d.group
  pub same_enable : d'.enable ≡ d.enable
  pub same_active : d'.active ≡ d.active
  pub same_priority : d'.priority ≡ d.priority
  pub same_configuration : d'.configuration ≡ d.configuration
  pub same_target : d'.target ≡ d.target
  pub same_own_target : d'.own_target ≡ d.own_target

pub put_pending-SameRest :
    (d : GicDistributorMmio) (cpu index x : ℕ)
    → SameRest d (put_bits pending_bits d cpu index x)
      × ((put_bits pending_bits d cpu index x).to_inject_interrupt ≡ d.to_inject_interrupt)
unfolding put_bits
put_pending-SameRest d cpu index x = ground arith

pub bits_at-put_pending :
    (a : BitArray) (d : GicDistributorMmio) (cpu cpu' index index' x : ℕ)
    → a ≢ pending_bits
    → bits_at a (put_bits pending_bits d cpu index x) cpu' index' ≡ bits_at a d cpu' index'
unfolding bits_at
bits_at-put_pending group_bits d cpu cpu' index index' x ne =
    ground (arith, settings-put_pending d cpu cpu' index x, put_pending-SameRest d cpu index x)
bits_at-put_pending enable_bits d cpu cpu' index index' x ne =
    ground (arith, settings-put_pending d cpu cpu' index x, put_pending-SameRest d cpu index x)
bits_at-put_pending active_bits d cpu cpu' index index' x ne =
    ground (arith, settings-put_pending d cpu cpu' index x, put_pending-SameRest d cpu index x)
bits_at-put_pending pending_bits d cpu cpu' index index' x ne = absurd (ne refl)
