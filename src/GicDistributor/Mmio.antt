-- ===== src/GicDistributor/Mmio.antt =====
-- src/mmio/gicv2.rs, the MmioHandler of GicDistributorMmio: read and write of the guest. Both always
-- return Ok in the source; `none` is a panic. A u64 `value` is cut to 32 bits where the source says
-- `as u32`.
use mini_visor_pi.Prelude.{
  ℕ, zero, suc, ◌+◌, ◌-◌, ◌*◌, ◌/◌, ◌%◌, ◌^◌, Bool, ◌&&◌, Option, none, some, bit_and, bit_or, leb,
  ltb, ◌==◌, if◌then◌else◌, get_elem?,
}
use mini_visor_pi.Prelude.Bits.{shr, shl, complement}
use mini_visor_pi.Prelude.Panics.{◌>>=◌}
use mini_visor_pi.GicDistributor.{
  GicDistributorMmio, BitArray, group_bits, enable_bits, pending_bits, active_bits, priority_words,
  configuration_words, target_to_cpu_index, set_at,
}
use mini_visor_pi.GicDistributor.Registers.{
  bit_register, set_bit_register, word_register, set_word_register, get_bit,
}
use mini_visor_pi.GicDistributor.Trigger.{Platform, retrigger, trigger_interrupt_to}

abbrev gicd_typer_value : ℕ
gicd_typer_value = 31

abbrev gic_revision : ℕ
gic_revision = 2

-- (low..=high).contains(&offset).
abbrev pub within : ℕ → ℕ → ℕ → Bool
within low high offset = leb low offset && leb offset high

-- The register that an offset names, decoded in the order of the tests of `read`; the numbers are the
-- index of the register in its array and the byte in the register.
pub data Register : Type 0 where
  ctlr typer pidr2 unknown sgir : Register
  igroupr isenabler icenabler ispendr icpendr isactiver icactiver icfgr : ℕ → Register
  ipriorityr itargetsr : ℕ → ℕ → Register

unfoldable pub decode : ℕ → ℕ → Register
decode offset access_width =
    let word : Bool = access_width == 32 in
    if (offset == 0x0000) && word
    then ctlr
    else (if (offset == 0x0004) && word
        then typer
        else (if within 0x0080 0x00FC offset && word
            then igroupr ((offset - 0x0080) / 4)
            else (if within 0x0100 0x017C offset && word
                then isenabler ((offset - 0x0100) / 4)
                else (if within 0x0180 0x01FC offset && word
                    then icenabler ((offset - 0x0180) / 4)
                    else (if within 0x0200 0x027C offset && word
                        then ispendr ((offset - 0x0200) / 4)
                        else (if within 0x0280 0x02FC offset && word
                            then icpendr ((offset - 0x0280) / 4)
                            else (if within 0x0300 0x037C offset && word
                                then isactiver ((offset - 0x0300) / 4)
                                else (if within 0x0380 0x03FC offset && word
                                    then icactiver ((offset - 0x0380) / 4)
                                    else (if within 0x0400 0x07FB offset
                                        then ipriorityr ((offset - 0x0400) / 4)
                                            ((offset - 0x0400) % 4)
                                        else (if within 0x0800 0x0BFB offset
                                            then itargetsr ((offset - 0x0800) / 4)
                                                ((offset - 0x0800) % 4)
                                            else (if within 0x0C00 0x0CFC offset && word
                                                then icfgr ((offset - 0x0C00) / 4)
                                                else (if (offset == 0x0F00) && word
                                                    then sgir
                                                    else (if (offset == 0xFFE8) && word
                                                        then pidr2
                                                        else unknown)))))))))))))

-- target | (target << 8) | (target << 16) | (target << 24).
abbrev pub four_targets : ℕ → ℕ
four_targets t = bit_or (bit_or (bit_or t (shl 32 t 8)) (shl 32 t 16)) (shl 32 t 24)

unfoldable pub read_target : ℕ → GicDistributorMmio → ℕ → ℕ → ℕ → Option ℕ
read_target current_target d register_offset byte_offset access_width =
    if access_width == 8
    then (if ltb (register_offset * 4 + byte_offset) 32 then some current_target else (do
      t ← get_elem? d.target register_offset
      some (bit_and (shr t (byte_offset * 8)) 0xff)))
    else (if (byte_offset == 0) && (access_width == 32)
        then (if ltb (register_offset * 4) 32
            then some (four_targets current_target)
            else get_elem? d.target register_offset)
        else some 0)

unfoldable pub read_register : ℕ → GicDistributorMmio → Register → ℕ → Option ℕ
unfolding read_target
read_register current_target d ctlr w = some d.ctlr
read_register current_target d typer w = some gicd_typer_value
read_register current_target d (igroupr i) w =
    bit_register group_bits d (target_to_cpu_index current_target) i
read_register current_target d (isenabler i) w =
    bit_register enable_bits d (target_to_cpu_index current_target) i
read_register current_target d (icenabler i) w =
    bit_register enable_bits d (target_to_cpu_index current_target) i
read_register current_target d (ispendr i) w =
    bit_register pending_bits d (target_to_cpu_index current_target) i
read_register current_target d (icpendr i) w =
    bit_register pending_bits d (target_to_cpu_index current_target) i
read_register current_target d (isactiver i) w =
    bit_register active_bits d (target_to_cpu_index current_target) i
read_register current_target d (icactiver i) w =
    bit_register active_bits d (target_to_cpu_index current_target) i
read_register current_target d (ipriorityr i byte_offset) w =
    if w == 8
    then (do
      r ← word_register priority_words d (target_to_cpu_index current_target) i
      some (bit_and (shr r (byte_offset * 8)) 0xff))
    else (if (byte_offset == 0) && (w == 32)
        then word_register priority_words d (target_to_cpu_index current_target) i
        else some 0)
read_register current_target d (itargetsr i byte_offset) w =
    read_target current_target d i byte_offset w
read_register current_target d (icfgr i) w =
    word_register configuration_words d (target_to_cpu_index current_target) i
read_register current_target d sgir w = some 0
read_register current_target d pidr2 w = some (shl 64 gic_revision 4)
read_register current_target d unknown w = some 0

-- MmioHandler::read. It leaves the Distributor as it is.
unfoldable pub read : ℕ → GicDistributorMmio → ℕ → ℕ → Option ℕ
unfolding decode read_register
read current_target d offset access_width =
    read_register current_target d (decode offset access_width) access_width

-- `for int_id in first.. { if value == 0 { break } … value >>= 1 }` of the set-enable and set-pending
-- writes: each INTID with a one in `value` is triggered again if its bit in `a` is set. A u64 value is
-- zero after 64 rounds.
unfoldable pub retrigger_loop : ℕ → BitArray → ℕ → ℕ → ℕ → Platform → Option Platform
retrigger_loop zero a current_target int_id value p = some p
retrigger_loop (suc fuel) a current_target int_id value p =
    let rest = (do
      ready ←
          (if bit_and value 1 == 0
            then some 0
            else get_bit a p.dist (target_to_cpu_index current_target) int_id)
      p' ← (if ready == 0 then some p else (do r ← retrigger current_target int_id p; some r.0))
      retrigger_loop fuel a current_target (int_id + 1) (value / 2) p') in
    if value == 0 then some p else rest

-- The byte at `bit_offset` of a register replaced: (r & !(0xFF << bit_offset)) | (value << bit_offset).
abbrev pub replace_byte : ℕ → ℕ → ℕ → ℕ
replace_byte r value bit_offset =
    bit_or (bit_and r (complement 32 (shl 32 0xFF bit_offset))) (shl 64 value bit_offset % 2 ^ 32)

-- The new Distributor of a write that triggers nothing.
abbrev pub keep_gich : Platform → Option GicDistributorMmio → Option Platform
keep_gich p m = do d ← m; some (record p { dist = d })

unfoldable pub write_priority : ℕ → GicDistributorMmio → ℕ → ℕ → ℕ → ℕ → Option GicDistributorMmio
write_priority cpu d i byte_offset access_width value =
    if access_width == 8
    then (do
      r ← word_register priority_words d cpu i
      set_word_register priority_words d cpu i (replace_byte r value (byte_offset * 8)))
    else (if (byte_offset == 0) && (access_width == 32)
        then set_word_register priority_words d cpu i (value % 2 ^ 32)
        else some d)

unfoldable pub write_target : GicDistributorMmio → ℕ → ℕ → ℕ → ℕ → Option GicDistributorMmio
write_target d i byte_offset access_width value =
    if ltb (i * 4) 32
    then some d
    else (if access_width == 8
        then (do
          r ← get_elem? d.target i
          target ← set_at d.target i (replace_byte r value (byte_offset * 8))
          some (record d { target = target }))
        else (if (byte_offset == 0) && (access_width == 32)
            then (do
              target ← set_at d.target i (value % 2 ^ 32)
              some (record d { target = target }))
            else some d))

abbrev pub all_pcpu_targets : ℕ
all_pcpu_targets = 0x0F

-- The targets of an SGI by the TargetListFilter and the CPUTargetList of GICD_SGIR.
unfoldable pub sgi_targets : ℕ → ℕ → ℕ
sgi_targets current_target value =
    let target_list_filter : ℕ = bit_and (shr value 24) 3 in
    if target_list_filter == 0
    then bit_and (shr value 16) 0xFF
    else (if target_list_filter == 1
        then bit_and all_pcpu_targets (complement 8 current_target)
        else current_target)

-- register |= value, and register &= !value.
unfoldable pub or_bits : BitArray → ℕ → GicDistributorMmio → ℕ → ℕ → Option GicDistributorMmio
or_bits a cpu d i value = do
  r ← bit_register a d cpu i
  set_bit_register a d cpu i (bit_or r (value % 2 ^ 32))

unfoldable pub clear_bits : BitArray → ℕ → GicDistributorMmio → ℕ → ℕ → Option GicDistributorMmio
clear_bits a cpu d i value = do
  r ← bit_register a d cpu i
  set_bit_register a d cpu i (bit_and r (complement 32 (value % 2 ^ 32)))

unfoldable pub write_register : ℕ → Platform → Register → ℕ → ℕ → Option Platform
unfolding or_bits clear_bits write_priority write_target sgi_targets
write_register t p ctlr w value = some (record p { dist = record p.dist { ctlr = value % 2 ^ 32 } })
write_register t p (igroupr i) w value =
    keep_gich p (set_bit_register group_bits p.dist (target_to_cpu_index t) i (value % 2 ^ 32))
write_register t p (isenabler i) w value = do
  p' ← keep_gich p (or_bits enable_bits (target_to_cpu_index t) p.dist i value)
  retrigger_loop 64 pending_bits t (i * 32) value p'
write_register t p (icenabler i) w value =
    keep_gich p (clear_bits enable_bits (target_to_cpu_index t) p.dist i value)
write_register t p (ispendr i) w value = do
  p' ← keep_gich p (or_bits pending_bits (target_to_cpu_index t) p.dist i value)
  retrigger_loop 64 enable_bits t (i * 4 * 8) value p'
write_register t p (icpendr i) w value =
    keep_gich p (clear_bits pending_bits (target_to_cpu_index t) p.dist i value)
write_register t p (isactiver i) w value =
    keep_gich p (or_bits active_bits (target_to_cpu_index t) p.dist i value)
write_register t p (icactiver i) w value =
    keep_gich p (clear_bits active_bits (target_to_cpu_index t) p.dist i value)
write_register t p (ipriorityr i byte_offset) w value =
    keep_gich p (write_priority (target_to_cpu_index t) p.dist i byte_offset w value)
write_register t p (itargetsr i byte_offset) w value =
    keep_gich p (write_target p.dist i byte_offset w value)
write_register t p (icfgr i) w value =
    keep_gich p
      (set_word_register configuration_words p.dist (target_to_cpu_index t) i (value % 2 ^ 32))
write_register t p sgir w value = do
  r ← trigger_interrupt_to t (bit_and (value % 2 ^ 32) 0xF) none (sgi_targets t value) p
  some r.0
write_register t p typer w value = some p
write_register t p pidr2 w value = some p
write_register t p unknown w value = some p

-- MmioHandler::write.
unfoldable pub write : ℕ → Platform → ℕ → ℕ → ℕ → Option Platform
unfolding decode write_register
write current_target p offset access_width value =
    write_register current_target p (decode offset access_width) access_width value
