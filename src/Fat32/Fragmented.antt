-- ===== src/Fat32/Fragmented.antt =====
-- src/fat32.rs, read, across clusters that are not next to each other on the disk.
use mini_visor_pi.Prelude.{
  ℕ, suc, ◌+◌, ◌-◌, ◌*◌, ◌/◌, ◌%◌, ◌^◌, ◌≤◌, ◌<◌, ◌≡◌, ◌≢◌, refl, true, false, none, some, [], ◌∷◌,
  arith, ltb, leb, ◌==◌, ==-false,
}
use native.Mathlib.Nat.{zero-div}
use mini_visor_pi.Fat32.{
  Fat32, FileInfo, ok, err, get_next_cluster, bytes_per_cluster, cluster_to_sector, walk,
  walk_start,
}
use mini_visor_pi.Fat32.Gather.{
  Run, first_run, skip_sectors, whole_cluster, gather_round, gather_read,
}
use mini_visor_pi.Fat32.Read.{Transfer, disk_address, clip, read_run, read_clusters, read}

-- Two clusters, `c` and then `n`, the last one, which is not the next on the disk.
pub record Split (f : Fat32) (c n length : ℕ) : Type 0 where
  pub more : bytes_per_cluster f < length
  pub jump : n ≢ (c + 1) % 2 ^ 32
  pub link : get_next_cluster f c ≡ some n
  pub end : get_next_cluster f n ≡ none

-- What read_run makes of the first cluster, on a device that does not fail.
abbrev pub first_transfer : Fat32 → ℕ → Transfer
first_transfer f c = record {
  device = disk_address f ((cluster_to_sector f c + 0) % 2 ^ 32);
  moved = (0 + f.sectors_per_cluster) % 2 ^ 32 * f.bytes_per_sector;
  buffer = 0;
  disk = disk_address f ((cluster_to_sector f c + 0) % 2 ^ 32);
  bytes = (0 + f.sectors_per_cluster) % 2 ^ 32 * f.bytes_per_sector;
}

module _ (f : Fat32) (c n length : ℕ) (q : Split f c n length) where
  no_skip_first : (cluster : ℕ) → skip_sectors f (first_run cluster 0) ≡ first_run cluster 0
  unfolding skip_sectors
  no_skip_first cluster = let e : ltb f.bytes_per_sector 0 ≡ false = ground arith in rw e refl

  abbrev first_cluster : Run
  first_cluster = whole_cluster f (first_run c 0)

  over : leb (length - 0 + 0) (bytes_per_cluster f) ≡ false
  over = let m = q.more in ground arith

  first_round : gather_read f length (length + 1) (first_run c 0) ≡ ok first_cluster
  unfolding gather_read gather_round
  first_round =
      let z : length + 1 ≡ suc length = omega arith in
      let jump = ==-false _ _ q.jump in
      rw (z, gather_read, no_skip_first c, gather_round, over, q.link, no_skip_first c, jump) refl

  second_round : gather_read f length (length + 1) (first_run n 0) ≡ err
  unfolding gather_read gather_round
  second_round =
      let z : length + 1 ≡ suc length = omega arith in
      rw (z, gather_read, no_skip_first n, gather_round, over, q.end) refl

  clusters-fragmented :
      (fuel : ℕ)
      → read_clusters f (λ k. true) (λ a s. true) length (suc (suc fuel)) c 0 0 []
        ≡ (first_transfer f c ∷ [], err)
  unfolding read_clusters read_run
  clusters-fragmented fuel =
      let go : (length == 0 + (0 + (bytes_per_cluster f - 0))) ≡ false =
        ==-false _ _ (omega (arith, q.more)) in
      rw (read_clusters, first_round, go, q.link, second_round) refl

-- A file of two clusters that are not next to each other on the disk cannot be read whole: with a
-- device and an allocator that do not fail, a read from its start of more than one cluster's bytes
-- and within the file's size returns an error, after the transfer of the first cluster.
pub read-fragmented :
    (f : Fat32) (file_info : FileInfo) (n length fuel : ℕ)
    → Split f file_info.entry_cluster n length
    → 0 < bytes_per_cluster f
    → length ≤ file_info.file_size
    → file_info.walk_hint ≡ 0
    → read f (λ k. true) (λ a s. true) file_info 0 length (suc (suc fuel))
      ≡ (file_info, first_transfer f file_info.entry_cluster ∷ [], err)
unfolding read clip walk walk_start
read-fragmented f file_info n length fuel q pos inside fresh =
    let b = bytes_per_cluster f in
    let fits : ltb file_info.file_size ((0 + length) % 2 ^ 64) ≡ false =
      let le : (0 + length) % 2 ^ 64 ≤ file_info.file_size = omega arith in ground arith in
    let nonzero : (b == 0) ≡ false = ==-false _ _ (omega arith) in
    let at : 0 / b ≡ 0 = zero-div b in
    let start : walk_start file_info (0 / b) ≡ (file_info.entry_cluster, 0) = starts (0 / b) in
    let none_left : 0 / b - 0 ≡ 0 = omega (arith, at) in
    let no_offset : 0 - 0 / b * b ≡ 0 = omega arith in
    let run = clusters-fragmented f file_info.entry_cluster n length q fuel in
    rw (read, clip, fits, nonzero, start, none_left, walk, no_offset, run, start, none_left, walk)
      refl
  where
    starts : (k : ℕ) → walk_start file_info k ≡ (file_info.entry_cluster, 0)
    starts k = rw (walk_start, fresh) refl
