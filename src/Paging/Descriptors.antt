-- ===== src/Paging/Descriptors.antt =====
-- src/paging.rs: the fields of the descriptors that a mapping writes.
use mini_visor_pi.Prelude.{
  ℕ, zero, suc, ◌+◌, ◌-◌, ◌*◌, ◌/◌, ◌%◌, ◌^◌, ◌<◌, ◌≤◌, ◌≡◌, refl, ap, ◌∙◌, Bool, true, false,
  if◌then◌else◌, bit_and, bit_or, arith, ==-false,
}
use mini_visor_pi.Prelude.Bits.{
  complement, shr, bit_and_step, bit_or_step, bit_and_mask, bit_and_shifted, two_pow_suc,
  two_pow-pos, bit_or_parts, bit_and-le, mod_step,
}
use mini_visor_pi.Paging.{
  new, set_output_address, set_permission, set_shareability, set_memory_attribute_device,
  set_memory_attribute_write_back, get_next_level_table_address, is_table_descriptor,
  table_descriptor, validate_as_table_descriptor, leaf, page_descriptor, block_descriptor,
  validate_as_page_descriptor, validate_as_block_descriptor,
}

-- `|` of words without a common digit is their sum.
bit_or_disjoint : (w a b : ℕ) → a < 2 ^ w → b < 2 ^ w → bit_and a b ≡ 0 → bit_or a b ≡ a + b
bit_or_disjoint zero a b ha hb none_both =
    let ea : a ≡ 0 = omega arith in let eb : b ≡ 0 = omega arith in rw (ea, eb) refl
bit_or_disjoint (suc w) a b ha hb none_both = omega (
  arith,
  bit_and_step a b,
  bit_or_step a b,
  two_pow_suc w,
  bit_or_disjoint w (a / 2) (b / 2) (omega (arith, two_pow_suc w)) (omega (arith, two_pow_suc w))
      (omega (arith, bit_and_step a b)),
)

-- A word loses nothing with digits that it does not have.
bit_and_without :
    (w d mask : ℕ)
    → d < 2 ^ w
    → mask < 2 ^ w
    → bit_and d mask ≡ 0
    → bit_and d (complement w mask) ≡ d
bit_and_without zero d mask hd hm none_both =
    let e : d ≡ 0 = omega arith in rw e (omega (arith, bit_and-le 0 (complement 0 mask)))
bit_and_without (suc w) d mask hd hm none_both = omega (
  arith,
  bit_and_step d mask,
  bit_and_step d (complement (suc w) mask),
  two_pow_suc w,
  two_pow-pos w,
  ap (bit_and (d / 2)) half,
  bit_and_without w (d / 2) (mask / 2) (omega (arith, two_pow_suc w)) (omega (arith, two_pow_suc w))
      (omega (arith, bit_and_step d mask)),
)
  where
    half : complement (suc w) mask / 2 ≡ complement w (mask / 2)
    half = omega (arith, two_pow_suc w, two_pow-pos w)

bit_and_low : (n x v : ℕ) → v < 2 ^ n → x % 2 ^ n ≡ 0 → bit_and x v ≡ 0
bit_and_low zero x v hv hx =
    let e : v ≡ 2 ^ 0 - 1 = omega arith in rw e (bit_and_mask 0 x ∙ omega arith)
bit_and_low (suc n) x v hv hx = omega (
  arith,
  bit_and_step x v,
  mod_step x n,
  two_pow_suc n,
  bit_and_low n (x / 2) (v / 2) (omega (arith, two_pow_suc n))
      (omega (arith, mod_step x n, two_pow-pos n)),
)

-- An empty field of `n` digits from place `k` on is filled.
filled :
    (k n value d : ℕ)
    → (2 ^ n - 1) * 2 ^ k < 2 ^ 64
    → value * 2 ^ k < 2 ^ 64
    → d < 2 ^ 64
    → value < 2 ^ n
    → shr d k % 2 ^ n ≡ 0
    → bit_or (bit_and d (complement 64 ((2 ^ n - 1) * 2 ^ k))) (value * 2 ^ k) ≡ d + value * 2 ^ k
filled k n value d hm hk hd hv empty =
    let clear : bit_and d ((2 ^ n - 1) * 2 ^ k) ≡ 0 =
      bit_and_shifted k d (2 ^ n - 1)
      ∙ ap (λ (t : ℕ). t * 2 ^ k) (bit_and_mask n (shr d k) ∙ empty)
      ∙ omega arith in
    let apart : bit_and d (value * 2 ^ k) ≡ 0 =
      bit_and_shifted k d value
      ∙ ap (λ (t : ℕ). t * 2 ^ k) (bit_and_low n (shr d k) value hv empty)
      ∙ omega arith in
    let same = bit_and_without 64 d ((2 ^ n - 1) * 2 ^ k) hd hm clear in
    rw same (bit_or_disjoint 64 d (value * 2 ^ k) hd hk apart)

-- Device-nGnRnE or write-back.
abbrev pub attribute : Bool → ℕ
attribute true = 0
attribute false = 0b1111

attribute-le : (is_device : Bool) → attribute is_device ≤ 15
attribute-le true = omega arith
attribute-le false = omega arith

module _ (frame permission : ℕ) (hf : frame < 2 ^ 38) (hp : permission < 4) where
  addressed : set_output_address (frame * 2 ^ 12) new ≡ frame * 2 ^ 12 + 2 ^ 10
  unfolding set_output_address new
  addressed =
      let e : bit_or (bit_and 0 (complement 64 ((2 ^ 38 - 1) * 2 ^ 12))) (frame * 2 ^ 12)
          ≡ frame * 2 ^ 12 =
        filled 12 38 frame 0 (omega arith) (omega arith) (omega arith) hf refl ∙ omega arith in
      rw e (bit_or_parts 12 frame (2 ^ 10) (omega arith))

  abbrev permitted : ℕ
  permitted = frame * 2 ^ 12 + 2 ^ 10 + permission * 2 ^ 6

  set_permission-sum : set_permission permission (frame * 2 ^ 12 + 2 ^ 10) ≡ permitted
  unfolding set_permission
  set_permission-sum =
      filled 6 2 permission (frame * 2 ^ 12 + 2 ^ 10) (omega arith) (omega arith) (omega arith)
        (omega arith) (omega arith)

  attributed :
      (is_device : Bool)
      → (if is_device
          then set_memory_attribute_device permitted
          else set_memory_attribute_write_back permitted)
        ≡ permitted + attribute is_device * 2 ^ 2
  unfolding set_memory_attribute_device set_memory_attribute_write_back
  attributed true =
      let clear : bit_and permitted (15 * 2 ^ 2) ≡ 0 =
        bit_and_shifted 2 permitted 15
        ∙ ap (λ (t : ℕ). t * 2 ^ 2) (bit_and_mask 4 (shr permitted 2))
        ∙ omega arith in
      bit_and_without 64 permitted (15 * 2 ^ 2) (omega arith) (omega arith) clear ∙ omega arith
  attributed false =
      filled 2 4 15 permitted (omega arith) (omega arith) (omega arith) (omega arith) (omega arith)

  leaf-sum :
      (is_device : Bool)
      → leaf (frame * 2 ^ 12) permission is_device
        ≡ (frame * 2 ^ 10 + 2 ^ 8 + 0b11 * 2 ^ 6 + permission * 2 ^ 4 + attribute is_device) * 2 ^ 2
  unfolding leaf set_shareability
  leaf-sum is_device =
      let e = addressed in
      let e' = set_permission-sum in
      let e'' = attributed is_device in
      let small = attribute-le is_device in
      rw (leaf, e, e', e'')
        (filled 8 2 3 (permitted + attribute is_device * 2 ^ 2) (omega arith) (omega arith)
            (omega arith) (omega arith) (omega arith)
          ∙ omega arith)

-- The fields of a descriptor of a page or a block.
pub record Fields (d frame permission attributes kind : ℕ) : Type 0 where
  pub output_address : d / 2 ^ 12 % 2 ^ 38 ≡ frame
  pub access_flag : d / 2 ^ 10 % 2 ≡ 1
  pub inner_shared : d / 2 ^ 8 % 2 ^ 2 ≡ 0b11
  pub access_permission : d / 2 ^ 6 % 2 ^ 2 ≡ permission
  pub memory_attributes : d / 2 ^ 2 % 2 ^ 4 ≡ attributes
  pub descriptor_kind : d % 2 ^ 2 ≡ kind
  pub rest_zero : d < 2 ^ 50

Fields-of :
    (d frame permission attributes kind : ℕ)
    → frame < 2 ^ 38
    → permission < 4
    → attributes < 16
    → kind < 4
    → d ≡ (frame * 2 ^ 10 + 2 ^ 8 + 0b11 * 2 ^ 6 + permission * 2 ^ 4 + attributes) * 2 ^ 2 + kind
    → Fields d frame permission attributes kind
Fields-of d frame permission attributes kind hf hp ha hk e = record {
  output_address = omega arith;
  access_flag = omega arith;
  inner_shared = omega arith;
  access_permission = omega arith;
  memory_attributes = omega arith;
  descriptor_kind = omega arith;
  rest_zero = omega arith;
}

-- A leaf with its lowest two digits.
kind_of :
    (frame permission : ℕ) (is_device : Bool) (kind : ℕ)
    → frame < 2 ^ 38
    → permission < 4
    → kind < 4
    → bit_or (leaf (frame * 2 ^ 12) permission is_device) kind
      ≡ (frame * 2 ^ 10 + 2 ^ 8 + 0b11 * 2 ^ 6 + permission * 2 ^ 4 + attribute is_device) * 2 ^ 2
        + kind
kind_of frame permission is_device kind hf hp hk =
    let e = leaf-sum frame permission hf hp is_device in rw e (bit_or_parts 2 _ kind hk)

-- The descriptor of a page or a block of a frame below 2^50, with a permission of two bits, gives
-- back the frame, the permission and the memory attributes (device or write-back), is marked as
-- accessed and inner shareable, and is a page or a block.
pub leaf-Fields :
    (frame permission : ℕ) (is_device : Bool)
    → frame < 2 ^ 38
    → permission < 4
    → let attributes = attribute is_device in
      Fields
        (page_descriptor (frame * 2 ^ 12) permission is_device)
        frame
        permission
        attributes
        0b11
      × Fields
          (block_descriptor (frame * 2 ^ 12) permission is_device)
          frame
          permission
          attributes
          0b01
unfolding page_descriptor block_descriptor validate_as_page_descriptor validate_as_block_descriptor
leaf-Fields frame permission is_device hf hp =
    let small = attribute-le is_device in
    (
      Fields-of _ frame permission (attribute is_device) 0b11 hf hp (omega arith) (omega arith)
          (kind_of frame permission is_device 0b11 hf hp (omega arith)),
      Fields-of _ frame permission (attribute is_device) 0b01 hf hp (omega arith) (omega arith)
          (kind_of frame permission is_device 0b01 hf hp (omega arith)),
    )

-- A block is not taken for a table.
block-not_table :
    (frame permission : ℕ) (is_device : Bool)
    → frame < 2 ^ 38
    → permission < 4
    → is_table_descriptor (block_descriptor (frame * 2 ^ 12) permission is_device) ≡ false
unfolding is_table_descriptor
block-not_table frame permission is_device hf hp =
    let d = block_descriptor (frame * 2 ^ 12) permission is_device in
    let fields = (leaf-Fields frame permission is_device hf hp).1 in
    ==-false (bit_and d 0b11) 0b11
      (λ e. absurd (omega (arith, bit_and_mask 2 d, fields.descriptor_kind)))

-- The descriptor of a table in a frame below 2^50 is a table and gives back the table's address, and
-- neither the descriptor of a block of that frame, with any permission of two bits and device or
-- not, nor a cleared descriptor is taken for a table.
pub table_descriptor-address :
    (frame : ℕ)
    → frame < 2 ^ 38
    → (get_next_level_table_address (table_descriptor (frame * 2 ^ 12)) ≡ frame * 2 ^ 12)
      × (is_table_descriptor (table_descriptor (frame * 2 ^ 12)) ≡ true)
      × ((permission : ℕ) (is_device : Bool)
          → permission < 4
          → is_table_descriptor (block_descriptor (frame * 2 ^ 12) permission is_device) ≡ false)
      × (is_table_descriptor new ≡ false)
unfolding get_next_level_table_address is_table_descriptor table_descriptor new
    validate_as_table_descriptor
table_descriptor-address frame hf =
    let e = addressed frame 0 hf (omega arith) in
    let q : frame * 2 ^ 12 + 2 ^ 10 ≡ (frame * 2 ^ 10 + 2 ^ 8) * 2 ^ 2 = omega arith in
    let whole : bit_or ((frame * 2 ^ 10 + 2 ^ 8) * 2 ^ 2) 0b11
        ≡ (frame * 2 ^ 10 + 2 ^ 8) * 2 ^ 2 + 3 =
      bit_or_parts 2 (frame * 2 ^ 10 + 2 ^ 8) 0b11 (omega arith) in
    let d : ℕ = (frame * 2 ^ 10 + 2 ^ 8) * 2 ^ 2 + 3 in
    let out : bit_and d ((2 ^ 38 - 1) * 2 ^ 12) ≡ frame * 2 ^ 12 =
      bit_and_shifted 12 d (2 ^ 38 - 1)
      ∙ ap (λ (t : ℕ). t * 2 ^ 12) (bit_and_mask 38 (shr d 12))
      ∙ omega arith in
    let kind : bit_and d 0b11 ≡ 3 = bit_and_mask 2 d ∙ omega arith in
    (
      rw (e, q, whole) out,
      rw (e, q, whole, kind) refl,
      λ permission is_device hp. block-not_table frame permission is_device hf hp,
      refl,
    )
