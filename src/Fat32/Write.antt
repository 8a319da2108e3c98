-- ===== src/Fat32/Write.antt =====
-- src/fat32.rs, Fat32::write.
use mini_visor_pi.Prelude.{
  ℕ, zero, suc, ◌+◌, ◌-◌, ◌*◌, ◌/◌, ◌%◌, ◌^◌, Bool, not, none, some, List, [], ◌∷◌, ◌++◌, ◌==◌,
  if◌then◌else◌,
}
use mini_visor_pi.Fat32.{
  Fat32, FileInfo, Io, ok, err, panicked, unfinished, bytes_per_cluster, get_next_cluster,
  walk_start, walk, cluster_to_sector,
}
use mini_visor_pi.Fat32.Gather.{Run, first_run, gather_write}
use mini_visor_pi.Fat32.Read.{Transfer, disk_address, clip}

module _ (f : Fat32) (transfers : ℕ → ℕ → Bool) (length : ℕ) where
  unfoldable pub write_run : ℕ → ℕ → Run → Io Transfer
  unfolding cluster_to_sector
  write_run first_cluster buffer_pointer r =
      let size = r.sectors * f.bytes_per_sector in
      let sector = (cluster_to_sector f first_cluster + r.sector_offset) % 2 ^ 32 in
      let address = disk_address f sector in
      if not (r.data_offset_backup == 0)
      then err
      else if not (transfers address size)
      then err
      else ok (record {
        device = address;
        moved = size;
        buffer = buffer_pointer;
        disk = address;
        bytes = size;
      })

  unfoldable pub write_clusters : ℕ → ℕ → ℕ → ℕ → List Transfer → List Transfer × Io ℕ
  unfolding gather_write write_run get_next_cluster
  write_clusters zero writing_cluster data_offset buffer_pointer done = (done, unfinished)
  write_clusters (suc fuel) writing_cluster data_offset buffer_pointer done =
      elim (gather_write f length (length + 1) (first_run writing_cluster data_offset)) [
        | err ↦ (done, err)
        | panicked ↦ (done, panicked)
        | unfinished ↦ (done, unfinished)
        | ok r ↦ elim (write_run writing_cluster buffer_pointer r) [
          | err ↦ (done, err)
          | panicked ↦ (done, panicked)
          | unfinished ↦ (done, unfinished)
          | ok transfer ↦
              let done = done ++ (transfer ∷ []) in
              let buffer_pointer = buffer_pointer + r.bytes in
              if length == buffer_pointer
              then (done, ok buffer_pointer)
              else elim (get_next_cluster f r.cluster) [
                | none ↦ (done, err)
                | some next ↦ write_clusters fuel next 0 buffer_pointer done
              ]
        ]
      ]

-- `fuel` bounds the rounds of the outer loop. A division by zero panics.
unfoldable pub write :
    Fat32 → (ℕ → ℕ → Bool) → FileInfo → ℕ → ℕ → ℕ → FileInfo × List Transfer × Io ℕ
unfolding clip walk_start walk write_clusters
write f transfers file_info offset length fuel = elim (clip file_info offset length) [
  | none ↦ (file_info, [], ok 0)
  | some length ↦
      if bytes_per_cluster f == 0
      then (file_info, [], panicked)
      else (let clusters_to_skip = offset / bytes_per_cluster f in
          let data_offset = offset - clusters_to_skip * bytes_per_cluster f in
          let (cluster, index) = walk_start file_info clusters_to_skip in
          let (file_info, walked) = walk f (clusters_to_skip - index) index cluster file_info in
          elim walked [
            | err ↦ (file_info, [], err)
            | panicked ↦ (file_info, [], panicked)
            | unfinished ↦ (file_info, [], unfinished)
            | ok cluster ↦
                let (done, result) =
                  write_clusters f transfers length fuel cluster data_offset 0 [] in
                (file_info, done, result)
          ])
]
