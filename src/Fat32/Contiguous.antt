-- ===== src/Fat32/Contiguous.antt =====
-- src/fat32.rs, read, where the clusters that the request touches are contiguous.
use mini_visor_pi.Prelude.{
  ℕ, suc, ◌+◌, ◌-◌, ◌*◌, ◌/◌, ◌%◌, ◌^◌, ◌≤◌, ◌<◌, ◌≡◌, refl, inl, inr, Bool, true, false, some,
  List, [], ◌∷◌, arith, ltb, ◌==◌, ==-true, ==-false, ==_iff, Bool-cases, if◌then◌else◌,
}
use native.Mathlib.Nat.{div-mul-le_self, lt-div-mul-add, lt_of_mul-lt-mul_left, le-mul_of_pos_right}
use mini_visor_pi.Fat32.{
  Fat32, FileInfo, Io, ok, bytes_per_cluster, cluster_to_sector, get_next_cluster, walk, walk_start,
}
use mini_visor_pi.Fat32.Gather.{Run, first_run, skip_sectors}
use mini_visor_pi.Fat32.Runs.{Request, Covers, run-Covers}
use mini_visor_pi.Fat32.Read.{Transfer, disk_address, clip, read_run, read_clusters, read}
use mini_visor_pi.Fat32.Walk.{HintIsValid, chain, walk_start-Walked}

-- The whole sectors that read skips when it starts `offset` bytes into a cluster, and the bytes that
-- are left of the offset.
abbrev pub skipped : Fat32 → ℕ → ℕ
skipped f offset = if ltb f.bytes_per_sector offset then offset / f.bytes_per_sector else 0

abbrev pub left_over : Fat32 → ℕ → ℕ
left_over f offset = offset - skipped f offset * f.bytes_per_sector

abbrev pub always : ℕ → ℕ → Bool
always address size = true

-- The request was served by one transfer, from the place that the file's bytes have on the disk, and
-- the device read all of them.
pub record Delivered (f : Fat32) (c offset length : ℕ) (r : List Transfer × Io ℕ) : Type 0 where
  pub transfer : Transfer
  pub result : r ≡ (transfer ∷ [], ok length)
  pub at_start : transfer.buffer ≡ 0
  pub source : transfer.disk ≡ disk_address f (cluster_to_sector f c) + offset
  pub enough : length ≤ transfer.bytes
  pub from_read : transfer.device ≤ transfer.disk
  pub all_read : transfer.disk + length ≤ transfer.device + transfer.moved

module _ (f : Fat32) (c offset length : ℕ) (q : Request f c (left_over f offset) length)
    (inside : offset < bytes_per_cluster f)
    (in_volume : cluster_to_sector f c + f.sectors_per_cluster < 2 ^ 32) where
  skipped_bytes : skipped f offset * f.bytes_per_sector ≤ offset
  skipped_bytes = elim (Bool-cases (ltb f.bytes_per_sector offset)) [
    | inl e ↦ rw e (div-mul-le_self offset f.bytes_per_sector)
    | inr e ↦ rw e (omega arith)
  ]

  skipped_lt : skipped f offset < f.sectors_per_cluster
  skipped_lt =
      lt_of_mul-lt-mul_left f.bytes_per_sector {m = skipped f offset} {n = f.sectors_per_cluster}
        (omega (arith, skipped_bytes, inside))

  run-Delivered :
      (r : Run)
      → Covers f (left_over f offset) length (skipped f offset) r
      → (t : Transfer) × (read_run f (λ n. true) always length c 0 r ≡ ok t)
        × (t.buffer ≡ 0)
        × (t.disk ≡ disk_address f (cluster_to_sector f c) + offset)
        × (length ≤ t.bytes)
        × (t.device ≤ t.disk)
        × (t.disk + length ≤ t.device + t.moved)
  unfolding read_run
  run-Delivered r covers =
      let b = f.bytes_per_sector in
      let s = skipped f offset in
      let d = left_over f offset in
      let sb = skipped_bytes in
      let sector : (cluster_to_sector f c + r.sector_offset) % 2 ^ 32 ≡ cluster_to_sector f c + s =
        rw covers.same_skip (omega (arith, in_volume, skipped_lt)) in
      let place : f.base_lba * f.lba_size + (cluster_to_sector f c + s) * b + d
          ≡ f.base_lba * f.lba_size + cluster_to_sector f c * b + offset =
        omega (arith, sb) in
      elim (Bool-cases (d == 0)) [
        | inl e ↦
            let z = (==_iff _ _).0 e in
            let test : (r.data_offset_backup == 0) ≡ true = rw covers.same_offset e in
            (
              record {
                device = disk_address f (cluster_to_sector f c + s);
                moved = r.sectors * b;
                buffer = 0;
                disk = disk_address f (cluster_to_sector f c + s);
                bytes = r.sectors * b;
              },
              rw (test, sector) refl,
              refl,
              omega (arith, place, z),
              omega (arith, covers.enough, z),
              omega arith,
              omega (arith, covers.enough, z),
            )
        | inr e ↦
            let test : (r.data_offset_backup == 0) ≡ false = rw covers.same_offset e in
            (
              record {
                device = disk_address f (cluster_to_sector f c + s);
                moved = r.sectors * b;
                buffer = 0;
                disk = disk_address f (cluster_to_sector f c + s) + r.data_offset_backup;
                bytes = r.bytes;
              },
              rw (test, sector) refl,
              refl,
              rw covers.same_offset place,
              omega (arith, covers.all),
              omega arith,
              omega (arith, covers.enough, covers.same_offset),
            )
      ]

  start_of :
      skip_sectors f (first_run c offset)
      ≡ record (first_run c (left_over f offset)) { sector_offset = skipped f offset }
  unfolding skip_sectors
  start_of = elim (Bool-cases (ltb f.bytes_per_sector offset)) [
    | inl e ↦
        let lt : offset / f.bytes_per_sector < f.sectors_per_cluster = rw e at skipped_lt in
        let small : offset / f.bytes_per_sector % 2 ^ 32 ≡ offset / f.bytes_per_sector =
          omega (arith, in_volume) in
        rw (e, small) refl
    | inr e ↦ let z : offset - 0 * f.bytes_per_sector ≡ offset = omega arith in rw (e, z) refl
  ]

  clusters-Delivered :
      (fuel : ℕ)
      → Delivered f c offset length
          (read_clusters f (λ n. true) always length (suc fuel) c offset 0 [])
  unfolding read_clusters
  clusters-Delivered fuel =
      let (r, run, covers) =
        run-Covers f c length offset (skipped f offset) (left_over f offset) q start_of in
      let (t, got, first, place, enough, from_read, all_read) = run-Delivered r covers in
      let all : (length == 0 + r.bytes) ≡ true = ==-true _ _ (omega (arith, covers.all)) in
      let whole : 0 + r.bytes ≡ length = omega (arith, covers.all) in
      record {
        transfer = t;
        result = rw (read_clusters, run, got, all, whole) refl;
        at_start = first;
        source = place;
        enough = enough;
        from_read = from_read;
        all_read = all_read;
      }

-- What a file keeps and a request asks for: `c` is the cluster of the chain that holds the offset,
-- and each cluster that the request goes past is followed in the chain by the next one on the disk.
pub record Readable (f : Fat32) (file_info : FileInfo) (c offset length : ℕ) : Type 0 where
  pub hint : HintIsValid f file_info
  pub at_cluster : chain f file_info.entry_cluster (offset / bytes_per_cluster f) ≡ some c
  pub in_file : offset + length ≤ file_info.file_size
  pub size_small : file_info.file_size < 2 ^ 32
  pub in_volume : cluster_to_sector f c + f.sectors_per_cluster < 2 ^ 32
  pub adjacent :
      (i : ℕ)
      → (i + 1) * bytes_per_cluster f
        < length + (offset - offset / bytes_per_cluster f * bytes_per_cluster f)
      → get_next_cluster f (c + i) ≡ some (c + i + 1)
  pub request :
      Request f c (left_over f (offset - offset / bytes_per_cluster f * bytes_per_cluster f)) length

module _ (f : Fat32) (file_info : FileInfo) (c offset length : ℕ)
    (h : Readable f file_info c offset length) where
  abbrev skip : ℕ
  skip = offset / bytes_per_cluster f

  abbrev inner : ℕ
  inner = offset - skip * bytes_per_cluster f

  cluster_bytes_pos : 0 < bytes_per_cluster f
  cluster_bytes_pos = omega (arith, h.request.inside)

  -- A read inside the file, whose clusters are contiguous from the one that holds the offset on, on a
  -- device and with an allocator that do not fail: one transfer, to the start of the buffer, of at
  -- least the bytes that were asked for, from the disk address of that cluster plus the offset in it,
  -- and the sectors that the device reads for it hold all of them. The result is the length, any fuel from 1 on is enough, and the walk hint stays valid.
  pub read-Delivered :
      (fuel : ℕ)
      → let r = read f (λ n. true) always file_info offset length (suc fuel) in
        Delivered f c inner length (r.1, r.2) × HintIsValid f r.0
  unfolding read clip
  read-Delivered fuel =
      let k = walk_start file_info skip in
      let w =
        walk_start-Walked f file_info skip
          (omega (
            arith,
            div-mul-le_self offset (bytes_per_cluster f),
            le-mul_of_pos_right skip cluster_bytes_pos,
            h.in_file,
            h.size_small,
          ))
          h.hint in
      let arrived : (walk f (skip - k.1) k.1 k.0 file_info).1 ≡ ok c =
        rw h.at_cluster at w.reached in
      let fits : ltb file_info.file_size ((offset + length) % 2 ^ 64) ≡ false =
        let le : (offset + length) % 2 ^ 64 ≤ file_info.file_size = omega (arith, h.in_file) in
        ground arith in
      let pos : (bytes_per_cluster f == 0) ≡ false =
        ==-false _ _ (omega (arith, cluster_bytes_pos)) in
      let inside : inner < bytes_per_cluster f = omega (
        arith,
        div-mul-le_self offset (bytes_per_cluster f),
        lt-div-mul-add {a = offset} cluster_bytes_pos,
      ) in
      let d = clusters-Delivered f c inner length h.request inside h.in_volume fuel in
      rw (read, clip, fits, pos, arrived) (d, w.hint)
