-- ===== src/Tests/Files.antt =====
-- src/fat32.rs at concrete inputs.
use mini_visor_pi.Prelude.{ℕ, ◌+◌, ◌-◌, ◌*◌, ◌<◌, ◌≡◌, refl, true, some, [], ◌∷◌, arith}
use mini_visor_pi.Fat32.{
  Fat32, FileInfo, err, get_next_cluster, walk, walk_start, cluster_to_sector,
}
use mini_visor_pi.Fat32.Read.{read}
use mini_visor_pi.Fat32.Write.{write}
use mini_visor_pi.Fat32.Walk.{HintIsValid, Walked, chain, walk_start-Walked}
use mini_visor_pi.Fat32.Contiguous.{Delivered, Readable, read-Delivered, always}
use mini_visor_pi.Fat32.Fragmented.{Split, first_transfer, read-fragmented}
use mini_visor_pi.Fat32.Unaligned.{write-refused}

-- Two sectors of 512 bytes in a cluster. The file of cluster 2 goes on in cluster 3, the one of
-- cluster 4 in cluster 6.
abbrev volume : Fat32
volume = record {
  base_lba = 8;
  lba_size = 512;
  bytes_per_sector = 512;
  sectors_per_cluster = 2;
  reserved_sectors = 4;
  fat_sectors = 1;
  number_of_fats = 2;
  fat = 0 ∷ 0 ∷ 3 ∷ 0x0FFFFFFF ∷ 6 ∷ 0 ∷ 0x0FFFFFFF ∷ [];
}

abbrev file_at : ℕ → FileInfo
file_at c = record { entry_cluster = c; file_size = 2048; walk_hint = 0 }

fresh-HintIsValid : (c : ℕ) → HintIsValid volume (file_at c)
unfolding HintIsValid
fresh-HintIsValid c two = absurd (omega arith)

walk_start-Walked_example :
    let start = walk_start (file_at 2) 1 in
    Walked volume (file_at 2) 1 (walk volume (1 - start.1) start.1 start.0 (file_at 2))
walk_start-Walked_example =
    walk_start-Walked volume (file_at 2) 1 (omega arith) (fresh-HintIsValid 2)

links : (i : ℕ) → (i + 1) * 1024 < 1500 → get_next_cluster volume (2 + i) ≡ some (2 + i + 1)
unfolding get_next_cluster
links i h = let e : i ≡ 0 = omega arith in rw e refl

readable : Readable volume (file_at 2) 2 0 1500
unfolding chain cluster_to_sector
readable = record {
  hint = fresh-HintIsValid 2;
  at_cluster = refl;
  in_file = omega arith;
  size_small = omega arith;
  in_volume = omega arith;
  adjacent = links;
  request = record {
    sector_pos = omega arith;
    cluster_pos = omega arith;
    inside = omega arith;
    first_sector = omega arith;
    small = omega arith;
    small_cluster = omega arith;
    contiguous = links;
  };
}

read-Delivered_example :
    let r = read volume (λ n. true) always (file_at 2) 0 1500 1 in
    Delivered volume 2 0 1500 (r.1, r.2) × HintIsValid volume r.0
read-Delivered_example = read-Delivered volume (file_at 2) 2 0 1500 readable 0

split : Split volume 4 6 2048
unfolding get_next_cluster
split = record { more = omega arith; jump = omega arith; link = refl; end = refl }

read-fragmented_example :
    read volume (λ k. true) (λ a s. true) (file_at 4) 0 2048 2
    ≡ (file_at 4, first_transfer volume 4 ∷ [], err)
read-fragmented_example =
    read-fragmented volume (file_at 4) 6 2048 0 split (omega arith) (omega arith) refl

write-refused_example : write volume (λ a s. true) (file_at 2) 512 512 1 ≡ (file_at 2, [], err)
write-refused_example =
    write-refused volume (file_at 2) 0 (omega arith) (omega arith) (omega arith) refl
