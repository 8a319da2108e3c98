-- ===== src/Fat32/Gather.antt =====
-- src/fat32.rs: the inner loops of read and write, which gather contiguous clusters into one run of
-- sectors.
use mini_visor_pi.Prelude.{
  ℕ, zero, suc, ◌+◌, ◌-◌, ◌*◌, ◌/◌, ◌%◌, ◌^◌, none, some, max, ltb, leb, ◌==◌, if◌then◌else◌,
}
use mini_visor_pi.Fat32.{Fat32, Io, ok, err, unfinished, bytes_per_cluster, get_next_cluster}

-- The variables of the inner loop. `bytes` is read_bytes or write_bytes, `cluster` is reading_cluster or
-- writing_cluster.
pub record Run : Type 0 where
  pub sectors : ℕ
  pub bytes : ℕ
  pub sector_offset : ℕ
  pub data_offset : ℕ
  pub data_offset_backup : ℕ
  pub cluster : ℕ

abbrev pub first_run : ℕ → ℕ → Run
first_run cluster data_offset = record {
  sectors = 0;
  bytes = 0;
  sector_offset = 0;
  data_offset = data_offset;
  data_offset_backup = data_offset;
  cluster = cluster;
}

-- The number of sectors to skip.
unfoldable pub skip_sectors : Fat32 → Run → Run
skip_sectors f r =
    if ltb f.bytes_per_sector r.data_offset
    then (let sector_offset = r.data_offset / f.bytes_per_sector % 2 ^ 32 in
        let data_offset = r.data_offset - sector_offset * f.bytes_per_sector in
        record r {
          sector_offset = sector_offset;
          data_offset = data_offset;
          data_offset_backup = data_offset;
        })
    else r

-- What is left fits in one cluster.
abbrev pub last_part : Fat32 → ℕ → Run → Run
last_part f length r =
    let rest = length - r.bytes + r.data_offset in
    let count = (1 + (max rest 1 - 1) / f.bytes_per_sector) % 2 ^ 32 in
    record r { sectors = (r.sectors + count) % 2 ^ 32; bytes = r.bytes + (length - r.bytes) }

abbrev pub whole_cluster : Fat32 → Run → Run
whole_cluster f r = record r {
  sectors = (r.sectors + f.sectors_per_cluster) % 2 ^ 32;
  bytes = r.bytes + (bytes_per_cluster f - r.data_offset);
}

-- A round of either inner loop after the sectors are skipped; `more` is the rest of the loop.
unfoldable pub gather_round : Fat32 → ℕ → (Run → Io Run) → Run → Io Run
unfolding get_next_cluster
gather_round f length more r =
    if leb (length - r.bytes + r.data_offset) (bytes_per_cluster f)
    then ok (last_part f length r)
    else (let r = whole_cluster f r in
        elim (get_next_cluster f r.cluster) [
          | none ↦ err
          | some next ↦
              if next == (r.cluster + 1) % 2 ^ 32
              then more (record r { data_offset = 0; cluster = next })
              else ok r
        ])

unfoldable pub gather_read : Fat32 → ℕ → ℕ → Run → Io Run
unfolding skip_sectors gather_round
gather_read f length zero r = unfinished
gather_read f length (suc fuel) r =
    gather_round f length (gather_read f length fuel) (skip_sectors f r)

-- First the check that what is left to write is at least a sector.
unfoldable pub gather_write : Fat32 → ℕ → ℕ → Run → Io Run
unfolding skip_sectors gather_round
gather_write f length zero r = unfinished
gather_write f length (suc fuel) r =
    if ltb (length - r.bytes) f.bytes_per_sector
    then err
    else gather_round f length (gather_write f length fuel) (skip_sectors f r)
