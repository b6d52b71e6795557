-- ===== src/Fat/Whole.antt =====
-- fat16.c: a read of any length, from the beginning of a cluster on.
use libre_win.Prelude.{
  ℕ, zero, suc, ◌+◌, ◌-◌, ◌*◌, ◌%◌, ◌≤◌, ◌<◌, ◌≡◌, ◌≢◌, ◌⊎◌, refl, ap, ◌∙◌, arith, ltb, lt→ltb,
  true, false, inl, inr, if◌then◌else◌, some,
}
use libre_win.Prelude.Int.{ℤ, pos}
use libre_win.Memory.{Mem}
use libre_win.Memory.Laws.{within}
use libre_win.Stream.{Drive}
use libre_win.Stream.Bytes.{Copied, Copied-more}
use libre_win.Config.{u32, sector_size}
use libre_win.Fat.{
  FatPrivate, Fat, with_memory, size_of_cluster_bytes, fat16_cluster_to_sector,
  fat16_read_internal_from_stream, fat16_read_internal,
}
use libre_win.Fat.Cluster.{follow}
use libre_win.Fat.Read.{
  IsReadable, data_sector, data_sector-fat16_cluster_to_sector, cluster_position, file_byte,
  block_start, Copied-agree, read_step, read_one,
}

next_block : (b z : ℕ) → b * z + z ≡ suc b * z
next_block b z = grind arith

next_fuel : (total fuel z : ℕ) → total ≤ suc fuel * z → total - z ≤ fuel * z
next_fuel total fuel z h = grind (arith, next_block fuel z)

no_fuel : (total z : ℕ) → total ≤ zero * z → total ≡ 0
no_fuel total z h = grind arith

next_byte : (i b z : ℕ) → i + suc b * z ≡ z + i + b * z
next_byte i b z = grind (arith, next_block b z)

nothing_left : (total : ℕ) → ltb 0 (total - total) ≡ false
nothing_left total = ground arith

no_blocks : (z : ℕ) → 0 * z ≡ 0
no_blocks z = grind arith

no_sooner : (b z total : ℕ) → b * z < 0 * z + total → b * z < total
no_sooner b z total h = omega (arith, no_blocks z)

first_block : (i z : ℕ) → i + 0 * z ≡ i
first_block i z = grind arith

le_or_lt : (a b : ℕ) → (a ≤ b) ⊎ (b < a)
le_or_lt a b = omega arith

sooner : (b' b z total : ℕ) → z < total → b' * z < suc b * z + (total - z) → b' * z < b * z + total
sooner b' b z total h k = omega (arith, next_block b z)

take_total : (z total : ℕ) → total ≤ z → (if ltb z total then z else total) ≡ total
take_total z total h = ground arith

take_size : (z total : ℕ) → z < total → (if ltb z total then z else total) ≡ z
take_size z total h = ground arith

sector_start :
    (p : FatPrivate) (c : ℤ) (b z : ℕ)
    → u32 (fat16_cluster_to_sector p c * sector_size + b * z % z) ≡ cluster_position p c
sector_start p c b z =
    ap (λ (s : ℕ). u32 (s * sector_size + b * z % z)) (data_sector-fat16_cluster_to_sector p c)
    ∙ block_start (data_sector p c) b z

module _ (d : Drive) where
  read_last :
      (fuel : ℕ) (f : Fat) (stream : ℕ) (start : ℤ) (b total out : ℕ)
      → let p = f.private_data in
        let z = size_of_cluster_bytes p in
        p.fat_read_stream ≢ 0
        → 0 < z
        → total ≤ z
        → IsReadable p (follow d p b start)
        → (g : Fat) × (fat16_read_internal_from_stream d (suc fuel) f stream start (b * z) total out
            ≡ some (pos 0, g))
          × Copied f.kernel.mem out total (λ i. file_byte d p start (i + b * z)) g.kernel.mem
  read_last fuel f stream start b total out ne positive small readable =
      let p = f.private_data in
      let z = size_of_cluster_bytes p in
      let c = follow d p b start in
      let (s, s', m', e, r, bytes) =
        read_one d f stream start b total out ne positive readable small in
      let g : Fat = record (with_memory f m') { streams = s' } in
      (
        g,
        read_step d fuel f stream start (b * z) total out c s (cluster_position p c) total g e
              readable.0 (sector_start p c b z) (take_total z total small) r
            ∙ rw (nothing_left total) refl,
        bytes,
      )

  read_first :
      (fuel : ℕ) (f : Fat) (stream : ℕ) (start : ℤ) (b total out : ℕ)
      → let p = f.private_data in
        let z = size_of_cluster_bytes p in
        p.fat_read_stream ≢ 0
        → 0 < z
        → z < total
        → IsReadable p (follow d p b start)
        → (s' : ℕ → ℕ) × (m' : Mem) × (fat16_read_internal_from_stream d
              (suc fuel)
              f
              stream
              start
              (b * z)
              total
              out
            ≡ fat16_read_internal_from_stream d fuel
                (record (with_memory f m') { streams = s' })
                stream
                start
                (suc b * z)
                (total - z)
                (out + z))
          × Copied f.kernel.mem out z (λ i. file_byte d p start (i + b * z)) m'
  read_first fuel f stream start b total out ne positive large readable =
      let p = f.private_data in
      let z = size_of_cluster_bytes p in
      let c = follow d p b start in
      let (s, s', m', e, r, bytes) =
        read_one d f stream start b z out ne positive readable (omega arith) in
      let more : ltb 0 (total - z) ≡ true = lt→ltb 0 (total - z) (omega (arith, large)) in
      (
        s',
        m',
        read_step d fuel f stream start (b * z) total out c s (cluster_position p c) z _ e
              readable.0 (sector_start p c b z) (take_size z total large) r
            ∙ rw (more, next_block b z) refl,
        bytes,
      )

  read_clusters :
      (fuel : ℕ) (f : Fat) (stream : ℕ) (start : ℤ) (b total out : ℕ)
      → let p = f.private_data in
        let z = size_of_cluster_bytes p in
        p.fat_read_stream ≢ 0
        → 0 < z
        → 0 < total
        → total ≤ fuel * z
        → ((b' : ℕ) → b' * z < b * z + total → IsReadable p (follow d p b' start))
        → (g : Fat) × (fat16_read_internal_from_stream d fuel f stream start (b * z) total out
            ≡ some (pos 0, g))
          × Copied f.kernel.mem out total (λ i. file_byte d p start (i + b * z)) g.kernel.mem
  read_clusters zero f stream start b total out ne positive some_left enough readable =
      absurd (omega (arith, no_fuel total (size_of_cluster_bytes f.private_data) enough, some_left))
  read_clusters (suc fuel) f stream start b total out ne positive some_left enough readable =
      let p = f.private_data in
      let z = size_of_cluster_bytes p in
      elim (le_or_lt total z) [
        | inl small ↦
            read_last fuel f stream start b total out ne positive small
              (readable b (omega (arith, some_left)))
        | inr large ↦
            (let (s', m', e, first) =
                read_first fuel f stream start b total out ne positive large
                  (readable b (omega (arith, some_left))) in
              let (g, r, bytes) =
                read_clusters fuel (record (with_memory f m') { streams = s' }) stream start (suc b)
                  (total - z) (out + z) ne positive (omega (arith, large))
                  (next_fuel total fuel z enough)
                  (λ b' h. readable b' (sooner b' b z total large h)) in
              (
                g,
                e ∙ r,
                Copied-more f.kernel.mem m' g.kernel.mem out z total
                    (λ i. file_byte d p start (i + b * z))
                    (λ i. file_byte d p start (i + suc b * z)) (omega (arith, large))
                    (λ i. ap (file_byte d p start) (next_byte i b z)) first bytes,
              ))
      ]

  -- If each cluster of the first `total` bytes of a file is found and lies below 2 GB, a read of the file from its
  -- beginning puts these bytes, cluster after cluster, at `out`, and changes no other byte of the memory. The driver has
  -- its stream of the table, a cluster has a sector, and there is fuel for each cluster.
  pub fat16_read_internal_lem :
      (fuel : ℕ) (f : Fat) (start : ℤ) (total out : ℕ)
      → let p = f.private_data in
        let size = size_of_cluster_bytes p in
        p.fat_read_stream ≢ 0
        → 0 < size
        → 0 < total
        → total ≤ fuel * size
        → ((b : ℕ) → b * size < total → IsReadable p (follow d p b start))
        → (g : Fat) × (fat16_read_internal d fuel f start 0 total out ≡ some (pos 0, g))
          × ((x : ℕ)
              → g.kernel.mem x
                ≡ (if within out total x then file_byte d p start (x - out) else f.kernel.mem x))
  unfolding fat16_read_internal
  fat16_read_internal_lem fuel f start total out ne positive some_left enough readable =
      let p = f.private_data in
      let z = size_of_cluster_bytes p in
      let (g, r, bytes) =
        read_clusters fuel f p.cluster_read_stream start 0 total out ne positive some_left enough
          (λ b h. readable b (no_sooner b z total h)) in
      (
        g,
        rw (no_blocks z) at (r),
        Copied-agree f.kernel.mem g.kernel.mem out total (λ i. file_byte d p start (i + 0 * z)) _
            (λ i _. ap (file_byte d p start) (first_block i z)) bytes,
      )
