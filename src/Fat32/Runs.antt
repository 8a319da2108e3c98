-- ===== src/Fat32/Runs.antt =====
-- src/fat32.rs, the inner loop of read where the clusters that a request touches are contiguous.
use mini_visor_pi.Prelude.{
  ℕ, zero, suc, ◌+◌, ◌-◌, ◌*◌, ◌/◌, ◌%◌, ◌^◌, ◌≤◌, ◌<◌, ◌≡◌, refl, sym, ap, ◌∙◌, inl, inr, true,
  false, some, max, arith, ltb, leb, ◌==◌, ==-true, Bool-cases,
}
use native.Mathlib.Nat.{div-mul-le_self, lt-div-mul-add, le-mul_of_pos_right}
use mini_visor_pi.Fat32.{Fat32, ok, get_next_cluster, bytes_per_cluster}
use mini_visor_pi.Fat32.Gather.{
  Run, first_run, skip_sectors, last_part, whole_cluster, gather_round, gather_read,
}

-- A request of `length` bytes, `d` bytes into the run that starts at cluster `c`: each cluster that the
-- request goes past is followed in the chain by the next one on the disk.
pub record Request (f : Fat32) (c d length : ℕ) : Type 0 where
  pub sector_pos : 0 < f.bytes_per_sector
  pub cluster_pos : 0 < f.sectors_per_cluster
  pub inside : d < bytes_per_cluster f
  pub first_sector : d ≤ f.bytes_per_sector
  pub small : length + d + f.bytes_per_sector < 2 ^ 32
  pub small_cluster : c + length < 2 ^ 32
  pub contiguous :
      (i : ℕ)
      → (i + 1) * bytes_per_cluster f < length + d
      → get_next_cluster f (c + i) ≡ some (c + i + 1)

-- The state of the inner loop after `i` whole clusters.
record AtCluster (f : Fat32) (c d length i : ℕ) (s : ℕ) (r : Run) : Type 0 where
  in_sector : r.data_offset ≤ f.bytes_per_sector
  in_cluster : r.data_offset < bytes_per_cluster f
  bytes_are : r.bytes + d ≡ i * bytes_per_cluster f + r.data_offset
  sectors_are : r.sectors ≡ i * f.sectors_per_cluster
  cluster_is : r.cluster ≡ c + i
  within : r.bytes ≤ length
  steps : i ≤ r.bytes
  skipped : r.sector_offset ≡ s
  backup : r.data_offset_backup ≡ d

-- One run of sectors that covers the request.
pub record Covers (f : Fat32) (d length s : ℕ) (r : Run) : Type 0 where
  pub all : r.bytes ≡ length
  pub enough : length + d ≤ r.sectors * f.bytes_per_sector
  pub tight : r.sectors * f.bytes_per_sector ≤ length + d + f.bytes_per_sector
  pub same_skip : r.sector_offset ≡ s
  pub same_offset : r.data_offset_backup ≡ d

module _ (f : Fat32) (c d length : ℕ) (q : Request f c d length) where
  no_skip : (r : Run) → r.data_offset ≤ f.bytes_per_sector → skip_sectors f r ≡ r
  unfolding skip_sectors
  no_skip r h = let e : ltb f.bytes_per_sector r.data_offset ≡ false = ground arith in rw e refl

  last-Covers :
      (i s : ℕ) (r : Run)
      → AtCluster f c d length i s r
      → length - r.bytes + r.data_offset ≤ bytes_per_cluster f
      → Covers f d length s (last_part f length r)
  last-Covers i s r a fits =
      let b = f.bytes_per_sector in
      let rest = length - r.bytes + r.data_offset in
      let x = max rest 1 - 1 in
      let count = 1 + x / b in
      let low = div-mul-le_self x b in
      let high = lt-div-mul-add {a = x} q.sector_pos in
      let se : r.sectors * b ≡ i * bytes_per_cluster f = rw a.sectors_are (omega arith) in
      let sum : (r.sectors + count) * b ≡ r.sectors * b + x / b * b + b = omega arith in
      let at : r.bytes + d ≡ i * bytes_per_cluster f + r.data_offset = a.bytes_are in
      let upper : (r.sectors + count) * b ≤ length + d + b = omega (arith, a.within) in
      let lower : length + d ≤ (r.sectors + count) * b = omega (arith, a.within) in
      let bound : r.sectors + count ≤ (r.sectors + count) * b =
        le-mul_of_pos_right (r.sectors + count) q.sector_pos in
      let e : (r.sectors + count % 2 ^ 32) % 2 ^ 32 ≡ r.sectors + count = omega (arith, q.small) in
      record {
        all = omega (arith, a.within);
        enough = rw e lower;
        tight = rw e upper;
        same_skip = a.skipped;
        same_offset = a.backup;
      }

  next-AtCluster :
      (i s : ℕ) (r : Run)
      → AtCluster f c d length i s r
      → bytes_per_cluster f < length - r.bytes + r.data_offset
      → let r' = whole_cluster f r in
        AtCluster f c d length (i + 1) s (record r' { data_offset = 0; cluster = c + i + 1 })
  next-AtCluster i s r a more =
      let b = f.bytes_per_sector in
      let n = f.sectors_per_cluster in
      let bound : (i + 1) * n ≤ (i + 1) * n * b = le-mul_of_pos_right ((i + 1) * n) q.sector_pos in
      let same : (i + 1) * n * b ≡ i * (n * b) + n * b = omega arith in
      let at : r.bytes + d ≡ i * (n * b) + r.data_offset = a.bytes_are in
      let e : (r.sectors + n) % 2 ^ 32 ≡ r.sectors + n =
        omega (arith, a.within, a.sectors_are, q.small) in
      record {
        in_sector = omega arith;
        in_cluster = omega (arith, q.inside);
        bytes_are = omega (arith, a.in_cluster);
        sectors_are = rw e (omega (arith, a.sectors_are));
        cluster_is = omega arith;
        within = omega (arith, a.within, a.in_cluster);
        steps = omega (arith, a.steps, a.in_cluster);
        skipped = a.skipped;
        backup = a.backup;
      }

  gather-Covers :
      (fuel i s : ℕ) (r : Run)
      → AtCluster f c d length i s r
      → length < r.bytes + fuel
      → (r' : Run) × (gather_read f length fuel r ≡ ok r') × Covers f d length s r'
  unfolding gather_read
  gather-Covers zero i s r a h = absurd (omega (arith, a.within))
  gather-Covers (suc fuel) i s r a h =
      let still = no_skip r a.in_sector in
      elim (Bool-cases (leb (length - r.bytes + r.data_offset) (bytes_per_cluster f))) [
        | inl fits ↦
            let le : length - r.bytes + r.data_offset ≤ bytes_per_cluster f = ground arith in
            (last_part f length r, rw (still, fits) refl, last-Covers i s r a le)
        | inr over ↦
            let gt : bytes_per_cluster f < length - r.bytes + r.data_offset = ground arith in
            let on : get_next_cluster f r.cluster ≡ some (c + i + 1) =
              rw a.cluster_is (q.contiguous i (omega (arith, a.within, a.bytes_are))) in
            let here : (c + i + 1 == (r.cluster + 1) % 2 ^ 32) ≡ true =
              ==-true _ _
                (omega (arith, a.cluster_is, a.steps, a.within, a.in_cluster, q.small_cluster)) in
            let next = next-AtCluster i s r a gt in
            let (r', run, covers) =
              gather-Covers fuel (i + 1) s _ next (omega (arith, a.in_cluster)) in
            (r', rw (gather_read, still, over, on, still, here) run, covers)
      ]

-- The same from the offset `start` in the first cluster, where `s` whole sectors are skipped.
module _ (f : Fat32) (c length start s d : ℕ) (q : Request f c d length) where
  pub run-Covers :
      skip_sectors f (first_run c start) ≡ record (first_run c d) { sector_offset = s }
      → (r : Run) × (gather_read f length (length + 1) (first_run c start) ≡ ok r)
        × Covers f d length s r
  unfolding gather_read
  run-Covers e =
      let r0 : Run = record (first_run c d) { sector_offset = s } in
      let a : AtCluster f c d length 0 s r0 = record {
        in_sector = q.first_sector;
        in_cluster = q.inside;
        bytes_are = omega arith;
        sectors_are = omega arith;
        cluster_is = omega arith;
        within = omega arith;
        steps = omega arith;
        skipped = refl;
        backup = refl;
      } in
      let (r, run, covers) = gather-Covers f c d length q (suc length) 0 s r0 a (omega arith) in
      let z : length + 1 ≡ suc length = omega arith in
      let again = no_skip f c d length q r0 q.first_sector in
      let same : gather_read f length (suc length) (first_run c start)
          ≡ gather_read f length (suc length) r0 =
        ap (λ t. gather_round f length (gather_read f length length) t) (e ∙ sym again) in
      (r, ap (λ n. gather_read f length n (first_run c start)) z ∙ same ∙ run, covers)
