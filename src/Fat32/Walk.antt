-- ===== src/Fat32/Walk.antt =====
-- src/fat32.rs, FileInfo::walk_start and update_walk_hint: the hint against the walk from the start.
use mini_visor_pi.Prelude.{
  ℕ, zero, suc, ◌+◌, ◌-◌, ◌*◌, ◌/◌, ◌%◌, ◌^◌, ◌≤◌, ◌<◌, ◌≡◌, refl, ap, inl, inr, ◌&&◌, Option, none,
  some, Option-cases, arith, ltb, leb, Bool-cases, if◌then◌else◌, get_elem?, bit_or,
}
use mini_visor_pi.Prelude.Bits.{shl, bit_or_parts}
use mini_visor_pi.Fat32.{
  Fat32, FileInfo, Io, ok, err, walk_start, update_walk_hint, get_next_cluster, walk,
}

unfoldable pub next_of : Fat32 → Option ℕ → Option ℕ
next_of f none = none
next_of f (some c) = get_next_cluster f c

-- The cluster `n` steps down the chain from `cluster`.
unfoldable pub chain : Fat32 → ℕ → ℕ → Option ℕ
unfolding next_of
chain f cluster zero = some cluster
chain f cluster (suc n) = next_of f (chain f cluster n)

-- A hint that walk_start would use names the cluster at its index.
unfoldable pub HintIsValid : Fat32 → FileInfo → Type 0
HintIsValid f file_info =
    2 ≤ file_info.walk_hint % 2 ^ 32
    → chain f file_info.entry_cluster (file_info.walk_hint / 2 ^ 32)
      ≡ some (file_info.walk_hint % 2 ^ 32)

abbrev pub to_io : Option ℕ → Io ℕ
to_io none = err
to_io (some cluster) = ok cluster

-- A walk that ends at the cluster of the chain and leaves a valid hint.
pub record Walked (f : Fat32) (file_info : FileInfo) (steps : ℕ) (r : FileInfo × Io ℕ)
    : Type 0 where
  pub reached : r.1 ≡ to_io (chain f file_info.entry_cluster steps)
  pub hint : HintIsValid f r.0
  pub same_entry : r.0.entry_cluster ≡ file_info.entry_cluster
  pub same_size : r.0.file_size ≡ file_info.file_size

usable-lt :
    (o : Option ℕ) (n : ℕ)
    → elim o [ none ↦ none | some n ↦ if leb 2 n && ltb n 0x0FFFFFF8 then some n else none ]
      ≡ some n
    → n < 2 ^ 32
usable-lt none n e = cc
usable-lt (some m) n e = ground arith

pub next-lt : (f : Fat32) (c n : ℕ) → get_next_cluster f c ≡ some n → n < 2 ^ 32
unfolding get_next_cluster
next-lt f c n e = usable-lt (get_elem? f.fat c) n e

packed :
    (index cluster : ℕ)
    → index < 2 ^ 32
    → cluster < 2 ^ 32
    → bit_or (shl 64 index 32) cluster ≡ index * 2 ^ 32 + cluster
packed index cluster hi hc =
    let e : shl 64 index 32 ≡ index * 2 ^ 32 = omega arith in
    rw e (bit_or_parts 32 index cluster hc)

chain-none : (f : Fat32) (c k n : ℕ) → chain f c k ≡ none → chain f c (n + k) ≡ none
unfolding chain
chain-none f c k zero e = let z : 0 + k ≡ k = omega arith in rw z e
chain-none f c k (suc n) e =
    let z : suc n + k ≡ suc (n + k) = omega arith in rw z (ap (next_of f) (chain-none f c k n e))

update-HintIsValid :
    (f : Fat32) (file_info : FileInfo) (index cluster : ℕ)
    → index < 2 ^ 32
    → cluster < 2 ^ 32
    → chain f file_info.entry_cluster index ≡ some cluster
    → HintIsValid f (update_walk_hint file_info index cluster)
unfolding HintIsValid update_walk_hint
update-HintIsValid f file_info index cluster hi hc on two =
    let e = packed index cluster hi hc in
    let place : bit_or (shl 64 index 32) cluster / 2 ^ 32 ≡ index = omega (arith, e) in
    let number : bit_or (shl 64 index 32) cluster % 2 ^ 32 ≡ cluster = omega (arith, e) in
    rw (place, number) on

walk-Walked :
    (f : Fat32) (n index cluster : ℕ) (file_info : FileInfo)
    → index + n < 2 ^ 32
    → chain f file_info.entry_cluster index ≡ some cluster
    → HintIsValid f file_info
    → Walked f file_info (index + n) (walk f n index cluster file_info)
unfolding walk chain update_walk_hint
walk-Walked f zero index cluster file_info small on v = record {
  reached = let z : index + 0 ≡ index = omega arith in rw (z, on) refl;
  hint = v;
  same_entry = refl;
  same_size = refl;
}
walk-Walked f (suc n) index cluster file_info small on v =
    elim (Option-cases (get_next_cluster f cluster)) [
      | inl e ↦
          rw (walk, e)
            (record {
              reached =
                  let z : index + suc n ≡ n + suc index = omega arith in
                  rw (z, chain-none f file_info.entry_cluster (suc index) n (ends e)) refl;
              hint = v;
              same_entry = refl;
              same_size = refl;
            })
      | inr (next, e) ↦
          let updated = update_walk_hint file_info (index + 1) next in
          let z : index + suc n ≡ index + 1 + n = omega arith in
          let v' =
            update-HintIsValid f file_info (index + 1) next (omega arith) (next-lt f cluster next e)
              (goes next e) in
          let w = walk-Walked f n (index + 1) next updated (omega arith) (goes' next e) v' in
          rw (walk, e, z)
            (record {
              reached = w.reached;
              hint = w.hint;
              same_entry = w.same_entry;
              same_size = w.same_size;
            })
    ]
  where
    ends : get_next_cluster f cluster ≡ none → chain f file_info.entry_cluster (suc index) ≡ none
    ends e = rw on e

    goes :
        (next : ℕ)
        → get_next_cluster f cluster ≡ some next
        → chain f file_info.entry_cluster (index + 1) ≡ some next
    goes next e = let z : index + 1 ≡ suc index = omega arith in rw (z, on) e

    goes' :
        (next : ℕ)
        → get_next_cluster f cluster ≡ some next
        → chain f (update_walk_hint file_info (index + 1) next).entry_cluster (index + 1)
          ≡ some next
    goes' next e = goes next e

-- Started from the hint when that is valid and not ahead, the walk ends at the same cluster as a walk
-- of the chain from the file's first cluster, or fails where that chain ends; the hint that it leaves
-- is valid again, and the file's first cluster and size stay. Positions are below 2 ^ 32.
pub walk_start-Walked :
    (f : Fat32) (file_info : FileInfo) (clusters_to_skip : ℕ)
    → clusters_to_skip < 2 ^ 32
    → HintIsValid f file_info
    → let start = walk_start file_info clusters_to_skip in
      Walked f file_info clusters_to_skip
        (walk f (clusters_to_skip - start.1) start.1 start.0 file_info)
unfolding walk_start HintIsValid chain
walk_start-Walked f file_info skip small v =
    elim (Bool-cases
      (leb 2 (file_info.walk_hint % 2 ^ 32) && leb (file_info.walk_hint / 2 ^ 32) skip)) [
        | inl e ↦
            let two : 2 ≤ file_info.walk_hint % 2 ^ 32 = ground arith in
            let ahead : file_info.walk_hint / 2 ^ 32 ≤ skip = ground arith in
            let i = file_info.walk_hint / 2 ^ 32 in
            let z : i + (skip - i) ≡ skip = omega arith in
            let w =
              walk-Walked f (skip - i) i (file_info.walk_hint % 2 ^ 32) file_info (omega arith)
                (v two) v in
            rw e (rw z at w)
        | inr e ↦
            let z : 0 + (skip - 0) ≡ skip = omega arith in
            let w =
              walk-Walked f (skip - 0) 0 file_info.entry_cluster file_info (omega arith) refl v in
            rw e (rw z at w)
      ]
