-- ===== src/Fat/Read.antt =====
-- fat16.c: reads that go over the clusters of a file.
use libre_win.Prelude.{
  ℕ, suc, ◌+◌, ◌-◌, ◌*◌, ◌/◌, ◌%◌, ◌^◌, ◌≤◌, ◌<◌, ◌≡◌, ◌≢◌, refl, ap, ◌∙◌, arith, ltb, false, inl,
  if◌then◌else◌, if_rel, some,
}
use native.Mathlib.Nat.{
  add-mul-div_right, add-mul-mod_self_right, div-eq_of_lt, mod-eq_of_lt, mul-div_cancel,
  mul-mod_left,
}
use libre_win.Prelude.Int.{ℤ, pos}
use libre_win.Config.{sector_size, u32, is_neg}
use libre_win.Memory.{Mem}
use libre_win.Memory.Laws.{within}
use libre_win.Stream.{Drive, diskstreamer_read}
use libre_win.Stream.Sector.{disk_byte}
use libre_win.Stream.Bytes.{Copied}
use libre_win.Stream.Read.{diskstreamer_read_lem}
use libre_win.Fat.{
  word_of, sectors_per_cluster, Fat, FatPrivate, chain, put, with_memory, diskstreamer_seek,
  read_memory, fat16_cluster_to_sector, size_of_cluster_bytes, fat16_get_cluster_for_offset,
  fat16_read_internal_from_stream,
}
use libre_win.Fat.Cluster.{follow, fat16_get_cluster_for_offset_lem}

-- The sector where the data of a cluster begins: the first cluster, which has the number 2, stands behind the root
-- directory, and each takes as many sectors as the header says.
abbrev pub data_sector : FatPrivate → ℤ → ℕ
data_sector p cluster =
    (p.root_directory.ending_sector_pos
      + (word_of cluster + (2 ^ 32 - 2)) * sectors_per_cluster p.header)
    % 2 ^ 32

-- Where the data of a cluster begins on the disk.
abbrev pub cluster_position : FatPrivate → ℤ → ℕ
cluster_position p cluster = data_sector p cluster * 512 % 2 ^ 32

pub data_sector-fat16_cluster_to_sector :
    (p : FatPrivate) (cluster : ℤ) → fat16_cluster_to_sector p cluster ≡ data_sector p cluster
unfolding fat16_cluster_to_sector
data_sector-fat16_cluster_to_sector p cluster = refl

-- Byte `i` of the file whose first cluster is `start`.
unfoldable pub file_byte : Drive → FatPrivate → ℤ → ℕ → ℕ
file_byte d p start i =
    let size = size_of_cluster_bytes p in
    disk_byte d (cluster_position p (follow d p (i / size) start) + i % size)

-- The first `size` bytes of a cluster lie below 2 GB.
abbrev pub IsReadable : FatPrivate → ℤ → Type 0
IsReadable p cluster =
    (is_neg cluster ≡ false) × (cluster_position p cluster + size_of_cluster_bytes p < 2 ^ 31)

position_on_sector : (sector : ℕ) → u32 (sector * 512) % 512 ≡ 0
position_on_sector sector = omega arith

add_zero : (b : ℕ) → 0 + b ≡ b
add_zero b = omega arith

-- A multiple of the size of a cluster begins a cluster.
pub block_start : (sector b z : ℕ) → u32 (sector * 512 + b * z % z) ≡ u32 (sector * 512)
block_start sector b z = rw (mul-mod_left b z) (omega arith)

not_zero : (n : ℕ) → 0 < n → n ≢ 0
not_zero n h e = omega arith

put_self : (store : ℕ → ℕ) (ptr a : ℕ) → put store ptr a ptr ≡ a
put_self store ptr a = ground arith

pub Copied-agree :
    (m m' : Mem) (out n : ℕ) (f g : ℕ → ℕ)
    → ((i : ℕ) → i < n → f i ≡ g i)
    → Copied m out n f m'
    → Copied m out n g m'
Copied-agree m m' out n f g same copied x =
    copied x
    ∙ if_rel (λ (a b : ℕ). a ≡ b) (within out n x) _ _ _ _ (λ t. same (x - out) (ground arith))
        (λ _. refl)

module _ (d : Drive) where
  read_memory_step :
      (f : Fat) (stream q n out q' : ℕ) (m' : Mem)
      → f.streams stream ≡ q
      → diskstreamer_read (suc (n / sector_size)) d q f.kernel.mem out n ≡ some (q', m')
      → read_memory d f stream out n
        ≡ some (record (with_memory f m') { streams = put f.streams stream q' })
  unfolding read_memory chain
  read_memory_step f stream q n out q' m' at e = rw (at, e) refl

  pub read_step :
      (fuel : ℕ) (f : Fat) (stream : ℕ) (cluster : ℤ) (offset total out : ℕ) (c : ℤ) (s : ℕ → ℕ)
      (q n : ℕ) (g : Fat)
      → fat16_get_cluster_for_offset d f cluster offset ≡ some (c, record f { streams = s })
      → is_neg c ≡ false
      → u32 (
          fat16_cluster_to_sector f.private_data c * sector_size
          + offset % size_of_cluster_bytes f.private_data)
        ≡ q
      → (if ltb (size_of_cluster_bytes f.private_data) total
          then size_of_cluster_bytes f.private_data
          else total)
        ≡ n
      → read_memory d (diskstreamer_seek (record f { streams = s }) stream q) stream out n ≡ some g
      → fat16_read_internal_from_stream d (suc fuel) f stream cluster offset total out ≡ (
          if ltb 0 (total - n)
          then fat16_read_internal_from_stream d fuel g stream cluster
              (offset + n)
              (total - n)
              (out + n)
          else some (pos 0, g))
  unfolding fat16_read_internal_from_stream chain
  read_step fuel f stream cluster offset total out c s q n g e live at_q at_n read =
      rw (e, live, at_q, at_n, read) refl

  -- A byte of the cluster `b`.
  file_byte_lem :
      (p : FatPrivate) (start : ℤ) (b i : ℕ)
      → i < size_of_cluster_bytes p
      → disk_byte d (cluster_position p (follow d p b start) + i)
        ≡ file_byte d p start (i + b * size_of_cluster_bytes p)
  unfolding file_byte
  file_byte_lem p start b i h =
      let z = size_of_cluster_bytes p in
      let block : (i + b * z) / z ≡ b =
        add-mul-div_right i b {z = z} (omega arith)
        ∙ (ap (λ (q : ℕ). q + b) (div-eq_of_lt h) ∙ add_zero b) in
      let rest : (i + b * z) % z ≡ i = add-mul-mod_self_right i b z ∙ mod-eq_of_lt h in
      rw (block, rest) refl

  -- What is read of the cluster `b` in one step.
  pub read_one :
      (f : Fat) (stream : ℕ) (start : ℤ) (b n out : ℕ)
      → let p = f.private_data in
        let c = follow d p b start in
        p.fat_read_stream ≢ 0
        → 0 < size_of_cluster_bytes p
        → IsReadable p c
        → n ≤ size_of_cluster_bytes p
        → (s : ℕ → ℕ) × (s' : ℕ → ℕ) × (m' : Mem) × (fat16_get_cluster_for_offset d f start
              (b * size_of_cluster_bytes p)
            ≡ some (c, record f { streams = s }))
          × (read_memory d
                (diskstreamer_seek (record f { streams = s }) stream (cluster_position p c))
                stream
                out
                n
              ≡ some (record (with_memory f m') { streams = s' }))
          × Copied f.kernel.mem out n
              (λ i. file_byte d p start (i + b * size_of_cluster_bytes p))
              m'
  unfolding diskstreamer_seek
  read_one f stream start b n out ne positive (live, low) small =
      let p = f.private_data in
      let z = size_of_cluster_bytes p in
      let q = cluster_position p (follow d p b start) in
      let (s, e) = fat16_get_cluster_for_offset_lem d f start (b * z) ne (not_zero z positive) in
      let (m', r, bytes) =
        diskstreamer_read_lem d q f.kernel.mem out n (omega (arith, low, small))
          (inl (position_on_sector (data_sector p (follow d p b start)))) in
      (
        s,
        put (put s stream q) stream (q + n),
        m',
        rw (mul-div_cancel b positive) at (e),
        read_memory_step (diskstreamer_seek (record f { streams = s }) stream q) stream q n out
            (q + n) m' (put_self s stream q) r,
        Copied-agree f.kernel.mem m' out n (λ i. disk_byte d (q + i)) _
            (λ i h. file_byte_lem p start b i (omega (arith, small))) bytes,
      )
