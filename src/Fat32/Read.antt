-- ===== src/Fat32/Read.antt =====
-- src/fat32.rs, Fat32::read. The block device and the page allocator are parameters: whether a transfer
-- of some bytes at some address succeeds, and whether some number of pages can be allocated.
use mini_visor_pi.Prelude.{
  ℕ, zero, suc, ◌+◌, ◌-◌, ◌*◌, ◌/◌, ◌%◌, ◌^◌, Bool, not, ◌&&◌, Option, none, some, List, [], ◌∷◌,
  ◌++◌, bit_and, ltb, leb, ◌==◌, if◌then◌else◌,
}
use mini_visor_pi.Prelude.Bits.{shr, complement}
use mini_visor_pi.Fat32.{
  Fat32, FileInfo, Io, ok, err, panicked, unfinished, bytes_per_cluster, get_next_cluster,
  walk_start, walk, cluster_to_sector,
}
use mini_visor_pi.Fat32.Gather.{Run, first_run, gather_read}

-- The device moves `moved` bytes from or to its address `device`, and `bytes` bytes go between its
-- address `disk` and the caller's buffer from `buffer` on.
pub record Transfer : Type 0 where
  pub device : ℕ
  pub moved : ℕ
  pub buffer : ℕ
  pub disk : ℕ
  pub bytes : ℕ

-- The device address that read_sectors and write_sectors pass on.
abbrev pub disk_address : Fat32 → ℕ → ℕ
disk_address f sector = f.base_lba * f.lba_size + sector * f.bytes_per_sector

-- The length after the check against the file's size; none when the offset is past its end.
unfoldable pub clip : FileInfo → ℕ → ℕ → Option ℕ
clip file_info offset length =
    if ltb file_info.file_size ((offset + length) % 2 ^ 64)
    then (if leb file_info.file_size offset then none else some (file_info.file_size - offset))
    else some length

module _ (f : Fat32) (allocates : ℕ → Bool) (transfers : ℕ → ℕ → Bool) (length : ℕ) where
  -- From the device access to the end of a round: what is read, or none when something fails.
  unfoldable pub read_run : ℕ → ℕ → Run → Io Transfer
  unfolding cluster_to_sector
  read_run first_cluster buffer_pointer r =
      let data_offset = r.data_offset_backup in
      let size = r.sectors * f.bytes_per_sector in
      let aligned_buffer_size = bit_and size (complement 64 (f.lba_size - 1)) + f.lba_size in
      let sector = (cluster_to_sector f first_cluster + r.sector_offset) % 2 ^ 32 in
      let address = disk_address f sector in
      if not (data_offset == 0) && not (allocates (shr aligned_buffer_size 12 + 1))
      then err
      else if not (transfers address size)
      then err
      else if data_offset == 0
      then ok (record {
        device = address;
        moved = size;
        buffer = buffer_pointer;
        disk = address;
        bytes = size;
      })
      else if buffer_pointer == 0
      then ok (record {
        device = address;
        moved = size;
        buffer = 0;
        disk = address + data_offset;
        bytes = r.bytes;
      })
      else panicked

  -- The outer loop: the transfers so far, and the result.
  unfoldable pub read_clusters : ℕ → ℕ → ℕ → ℕ → List Transfer → List Transfer × Io ℕ
  unfolding gather_read read_run get_next_cluster
  read_clusters zero reading_cluster data_offset buffer_pointer done = (done, unfinished)
  read_clusters (suc fuel) reading_cluster data_offset buffer_pointer done =
      elim (gather_read f length (length + 1) (first_run reading_cluster data_offset)) [
        | err ↦ (done, err)
        | panicked ↦ (done, panicked)
        | unfinished ↦ (done, unfinished)
        | ok r ↦ elim (read_run reading_cluster buffer_pointer r) [
          | err ↦ (done, err)
          | panicked ↦ (done, panicked)
          | unfinished ↦ (done, unfinished)
          | ok transfer ↦
              let done = done ++ (transfer ∷ []) in
              let buffer_pointer = buffer_pointer + r.bytes in
              if length == buffer_pointer
              then (done, ok buffer_pointer)
              else elim (get_next_cluster f r.cluster) [
                | none ↦ (done, err)
                | some next ↦ read_clusters fuel next 0 buffer_pointer done
              ]
        ]
      ]

-- `fuel` bounds the rounds of the outer loop. A division by zero panics.
unfoldable pub read :
    Fat32 → (ℕ → Bool) → (ℕ → ℕ → Bool) → FileInfo → ℕ → ℕ → ℕ → FileInfo × List Transfer × Io ℕ
unfolding clip walk_start walk read_clusters
read f allocates transfers file_info offset length fuel = elim (clip file_info offset length) [
  | none ↦ (file_info, [], ok 0)
  | some length ↦
      if bytes_per_cluster f == 0
      then (file_info, [], panicked)
      else (let clusters_to_skip = offset / bytes_per_cluster f in
          let data_offset = offset - clusters_to_skip * bytes_per_cluster f in
          let (cluster, index) = walk_start file_info clusters_to_skip in
          let (file_info, walked) = walk f (clusters_to_skip - index) index cluster file_info in
          elim walked [
            | err ↦ (file_info, [], err)
            | panicked ↦ (file_info, [], panicked)
            | unfinished ↦ (file_info, [], unfinished)
            | ok cluster ↦
                let (done, result) =
                  read_clusters f allocates transfers length fuel cluster data_offset 0 [] in
                (file_info, done, result)
          ])
]
