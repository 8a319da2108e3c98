-- ===== src/Fat32.antt =====
-- src/fat32.rs: the FAT32 volume, its cluster chains and the hint that a file keeps on its chain.
-- println! and the walk counter FAT_WALK_STEPS are left out.
use mini_visor_pi.Prelude.{
  ℕ, zero, suc, ◌+◌, ◌-◌, ◌*◌, ◌%◌, ◌^◌, Bool, true, false, ◌&&◌, Option, none, some, List, bit_or,
  ltb, leb, ◌==◌, if◌then◌else◌, get_elem?,
}
use mini_visor_pi.Prelude.Bits.{shr, shl}
pub mod Directory
pub mod Gather
pub mod Read
pub mod Write
pub mod Walk
pub mod Runs
pub mod Contiguous
pub mod Fragmented
pub mod Unaligned

-- `fat` is the slice of 32-bit words that get_next_cluster makes of the FAT's pages.
pub record Fat32 : Type 0 where
  pub base_lba : ℕ
  pub lba_size : ℕ
  pub bytes_per_sector : ℕ
  pub sectors_per_cluster : ℕ
  pub reserved_sectors : ℕ
  pub fat_sectors : ℕ
  pub number_of_fats : ℕ
  pub fat : List ℕ

pub record FileInfo : Type 0 where
  pub entry_cluster : ℕ
  pub file_size : ℕ
  pub walk_hint : ℕ

unfoldable pub walk_start : FileInfo → ℕ → ℕ × ℕ
walk_start file_info clusters_to_skip =
    let hint_index = shr file_info.walk_hint 32 in
    let hint_cluster = file_info.walk_hint % 2 ^ 32 in
    if leb 2 hint_cluster && leb hint_index clusters_to_skip
    then (hint_cluster, hint_index)
    else (file_info.entry_cluster, 0)

unfoldable pub update_walk_hint : FileInfo → ℕ → ℕ → FileInfo
update_walk_hint file_info index cluster = record file_info {
  walk_hint = bit_or (shl 64 index 32) cluster;
}

unfoldable pub cluster_to_sector : Fat32 → ℕ → ℕ
cluster_to_sector f cluster =
    (f.reserved_sectors
      + f.number_of_fats * f.fat_sectors
      + (cluster + (2 ^ 32 - 2)) % 2 ^ 32 * f.sectors_per_cluster)
    % 2 ^ 32

unfoldable pub get_next_cluster : Fat32 → ℕ → Option ℕ
get_next_cluster f cluster = elim (get_elem? f.fat cluster) [
  | none ↦ none
  | some n ↦ if leb 2 n && ltb n 0x0FFFFFF8 then some n else none
]

-- `sectors_per_cluster as usize * bytes_per_sector as usize`.
abbrev pub bytes_per_cluster : Fat32 → ℕ
bytes_per_cluster f = f.sectors_per_cluster * f.bytes_per_sector

-- How an operation on the volume ends: Ok, Err(()), a failed assertion, or not within the fuel.
pub data Io {ℓ} (A : Type ℓ) : Type ℓ where
  ok : A → Io A
  err : Io A
  panicked : Io A
  unfinished : Io A

-- The loop `for cluster_index in walk_start_index..clusters_to_skip`, `n` rounds of which are left.
unfoldable pub walk : Fat32 → ℕ → ℕ → ℕ → FileInfo → FileInfo × Io ℕ
unfolding get_next_cluster update_walk_hint
walk f zero cluster_index cluster file_info = (file_info, ok cluster)
walk f (suc n) cluster_index cluster file_info = elim (get_next_cluster f cluster) [
  | none ↦ (file_info, err)
  | some next ↦
      walk f n (cluster_index + 1) next (update_walk_hint file_info (cluster_index + 1) next)
]
