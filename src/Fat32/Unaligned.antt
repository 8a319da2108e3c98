-- ===== src/Fat32/Unaligned.antt =====
-- src/fat32.rs, write, at the second sector of a cluster.
use mini_visor_pi.Prelude.{
  ℕ, suc, ◌+◌, ◌-◌, ◌*◌, ◌/◌, ◌%◌, ◌^◌, ◌≤◌, ◌<◌, ◌≡◌, refl, ap, ◌∙◌, true, false, [], arith, ltb,
  leb, ◌==◌, ==-false,
}
use native.Mathlib.Nat.{div-eq_of_lt, mul-le-mul_right}
use mini_visor_pi.Fat32.{Fat32, FileInfo, err, bytes_per_cluster, walk, walk_start}
use mini_visor_pi.Fat32.Gather.{first_run, skip_sectors, gather_round, gather_write}
use mini_visor_pi.Fat32.Read.{clip}
use mini_visor_pi.Fat32.Write.{write_run, write_clusters, write}

module _ (f : Fat32) (two : 2 ≤ f.sectors_per_cluster) (pos : 0 < f.bytes_per_sector) where
  abbrev b : ℕ
  b = f.bytes_per_sector

  clusters-refused : (c fuel : ℕ) → write_clusters f (λ a s. true) b (suc fuel) c b 0 [] ≡ ([], err)
  unfolding write_clusters write_run gather_write gather_round
  clusters-refused c fuel =
      let z : b + 1 ≡ suc b = omega arith in
      let enough : ltb (b - 0) b ≡ false = ground arith in
      let keep : skip_sectors f (first_run c b) ≡ first_run c b = stays in
      let double : b + b ≤ bytes_per_cluster f =
        omega (arith, mul-le-mul_right f.bytes_per_sector two) in
      let fits : leb (b - 0 + b) (bytes_per_cluster f) ≡ true = ground arith in
      let misplaced : (b == 0) ≡ false = ==-false _ _ (omega arith) in
      rw (write_clusters, z, gather_write, enough, keep, gather_round, fits, misplaced) refl
    where
      stays : skip_sectors f (first_run c b) ≡ first_run c b
      stays = let e : ltb b b ≡ false = ground arith in rw (skip_sectors, e) refl

-- On a volume with at least two sectors in a cluster, a write of one whole sector at the second sector
-- of a file that has it is refused, although offset and length are multiples of the sector's size.
pub write-refused :
    (f : Fat32) (file_info : FileInfo) (fuel : ℕ)
    → 2 ≤ f.sectors_per_cluster
    → 0 < f.bytes_per_sector
    → 2 * f.bytes_per_sector ≤ file_info.file_size
    → file_info.walk_hint ≡ 0
    → write f (λ a s. true) file_info f.bytes_per_sector f.bytes_per_sector (suc fuel)
      ≡ (file_info, [], err)
unfolding write clip walk walk_start
write-refused f file_info fuel two pos inside fresh =
    let b = f.bytes_per_sector in
    let fits : ltb file_info.file_size ((b + b) % 2 ^ 64) ≡ false =
      let le : (b + b) % 2 ^ 64 ≤ file_info.file_size = omega arith in ground arith in
    let double : b + b ≤ bytes_per_cluster f =
      omega (arith, mul-le-mul_right f.bytes_per_sector two) in
    let nonzero : (bytes_per_cluster f == 0) ≡ false = ==-false _ _ (omega arith) in
    let at : b / bytes_per_cluster f ≡ 0 = div-eq_of_lt (omega arith) in
    let k = b / bytes_per_cluster f in
    let start : walk_start file_info k ≡ (file_info.entry_cluster, 0) = starts k in
    let none_left : k - 0 ≡ 0 = omega (arith, at) in
    let offset : b - k * bytes_per_cluster f ≡ b =
      let none : b - 0 * bytes_per_cluster f ≡ b = omega arith in
      ap (λ t. b - t * bytes_per_cluster f) at ∙ none in
    let run = clusters-refused f two pos file_info.entry_cluster fuel in
    rw (write, clip, fits, nonzero, start, none_left, walk, offset, run, start, none_left, walk)
      refl
  where
    starts : (k : ℕ) → walk_start file_info k ≡ (file_info.entry_cluster, 0)
    starts k = rw (walk_start, fresh) refl
