-- ===== src/Fat/Cluster.antt =====
-- fat16.c: the clusters of a file, followed through the file allocation table.
use libre_win.Prelude.{
  ℕ, zero, suc, ◌+◌, ◌*◌, ◌/◌, ◌%◌, ◌^◌, ◌≡◌, ◌≢◌, refl, sym, arith, List, [], ◌∷◌, Bool, ◌||◌, ap,
  ◌∙◌, Bool-cases, inl, inr, false, ◌==◌, if◌then◌else◌, some,
}
use libre_win.Prelude.Int.{ℤ, pos}
use libre_win.Config.{eio, minus, sector_size, u32}
use libre_win.Memory.{Mem}
use libre_win.Stream.{Drive, stream_offset, diskstreamer_read}
use libre_win.Stream.Read.{sector_at, read_start}
use libre_win.Fat.{
  Fat, FatPrivate, chain, load16, word_of, diskstreamer_seek, read_variable, fat_entry_position,
  fat16_get_fat_entry, is_mark, cluster_loop, size_of_cluster_bytes, fat16_get_cluster_for_offset,
  put, reserved_sectors, fat16_get_first_fat_sector,
}

sectors_of_product : (a x : ℕ) → u32 (u32 (a * 512) * x) % 512 ≡ 0
sectors_of_product a x =
    let low : u32 (a * 512) ≡ a % 2 ^ 23 * 512 = omega arith in
    let swap : a % 2 ^ 23 * 512 * x ≡ a % 2 ^ 23 * x * 512 = grind arith in
    rw (low, swap) (omega arith)

-- Every entry is read at the first byte of a sector, since the position of the table is multiplied with that of the
-- entry in the table.
pub fat_entry_position_lem : (p : FatPrivate) (cluster : ℤ) → fat_entry_position p cluster % 512 ≡ 0
unfolding fat_entry_position
fat_entry_position_lem p cluster = sectors_of_product _ (u32 (word_of cluster * 2))

-- Where the driver reads the entry of a cluster: the byte where the table begins times the byte of the entry in it.
abbrev pub entry_byte : FatPrivate → ℤ → ℕ
entry_byte p cluster =
    (reserved_sectors p.header * 512 % 2 ^ 32) * (word_of cluster * 2 % 2 ^ 32) % 2 ^ 32

entry_byte-fat_entry_position :
    (p : FatPrivate) (cluster : ℤ) → fat_entry_position p cluster ≡ entry_byte p cluster
unfolding fat_entry_position fat16_get_first_fat_sector
entry_byte-fat_entry_position p cluster = refl

-- The entry of a cluster: the two bytes there, the low one first.
unfoldable pub table_entry : Drive → FatPrivate → ℤ → ℕ
table_entry d p cluster =
    let sector = sector_at d (entry_byte p cluster) in sector 0 + 256 * sector 1

-- The entries behind which a file does not go on: a free cluster, the reserved ones, a bad one and the last of a file, by
-- the numbers that the driver has for them.
abbrev pub marks : List ℕ
marks = 0 ∷ 0xFF0 ∷ 0xFF6 ∷ 0xFF7 ∷ 0xFF8 ∷ 0xFFF ∷ []

unfoldable pub is_one_of : List ℕ → ℕ → Bool
is_one_of [] e = false
is_one_of (mark ∷ rest) e = (e == mark) || is_one_of rest e

is_mark-marks : (e : ℕ) → is_mark (pos e) ≡ is_one_of marks e
unfolding is_one_of
is_mark-marks e = ground arith

-- The cluster `left` entries after `cluster`, or -EIO where one of them is a mark.
unfoldable pub follow : Drive → FatPrivate → ℕ → ℤ → ℤ
unfolding table_entry
follow d p zero cluster = cluster
follow d p (suc left) cluster =
    let next = table_entry d p cluster in
    let rest = follow d p left (pos next) in if is_one_of marks next then minus eio else rest

start_of_sector : (p : ℕ) → p % 512 ≡ 0 → stream_offset p ≡ 0
start_of_sector p h = ground arith

module _ (d : Drive) where
  read_variable_step :
      (f : Fat) (stream p total : ℕ) (q : ℕ) (v : Mem)
      → f.streams stream ≡ p
      → diskstreamer_read (suc (total / sector_size)) d p (λ i. 0) 0 total ≡ some (q, v)
      → read_variable d f stream total ≡ some (v, record f { streams = put f.streams stream q })
  unfolding read_variable chain
  read_variable_step f stream p total q v at e = rw (at, e) refl

  read_variable_start :
      (f : Fat) (stream p : ℕ)
      → f.streams stream ≡ p
      → p % 512 ≡ 0
      → (v : Mem) × (read_variable d f stream 2
          ≡ some (v, record f { streams = put f.streams stream (u32 (p + 2)) }))
        × (load16 v 0 ≡ load16 (sector_at d p) 0)
  read_variable_start f stream p at start =
      let (v, e, bytes) = read_start 0 d p (λ i. 0) 0 2 (omega arith) (start_of_sector p start) in
      (
        v,
        read_variable_step f stream p 2 (u32 (p + 2)) v at e,
        ground (arith, bytes 0 (omega arith), bytes 1 (omega arith)),
      )

  put_self : (store : ℕ → ℕ) (ptr a : ℕ) → put store ptr a ptr ≡ a
  put_self store ptr a = ground arith

  entry_word :
      (p : FatPrivate) (cluster : ℤ)
      → load16 (sector_at d (fat_entry_position p cluster)) 0 ≡ table_entry d p cluster
  unfolding table_entry
  entry_word p cluster = rw (entry_byte-fat_entry_position p cluster) (omega arith)

  entry_step :
      (f : Fat) (cluster : ℤ) (v : Mem) (s : ℕ → ℕ)
      → f.private_data.fat_read_stream ≢ 0
      → read_variable d
          (diskstreamer_seek f f.private_data.fat_read_stream
            (fat_entry_position f.private_data cluster))
          f.private_data.fat_read_stream
          2
        ≡ some (v, record f { streams = s })
      → fat16_get_fat_entry d f cluster ≡ some (pos (load16 v 0), record f { streams = s })
  unfolding fat16_get_fat_entry chain
  entry_step f cluster v s ne e =
      let open_stream : (f.private_data.fat_read_stream == 0) ≡ false = ground arith in
      rw (open_stream, e) refl

  -- Only positions of streams change.
  fat16_get_fat_entry_lem :
      (f : Fat) (cluster : ℤ)
      → f.private_data.fat_read_stream ≢ 0
      → (s : ℕ → ℕ) × (fat16_get_fat_entry d f cluster
          ≡ some (pos (table_entry d f.private_data cluster), record f { streams = s }))
  unfolding table_entry diskstreamer_seek
  fat16_get_fat_entry_lem f cluster ne =
      let stream = f.private_data.fat_read_stream in
      let p = fat_entry_position f.private_data cluster in
      let (v, e, word) =
        read_variable_start (diskstreamer_seek f stream p) stream p (put_self f.streams stream p)
          (fat_entry_position_lem f.private_data cluster) in
      (
        put (put f.streams stream p) stream (u32 (p + 2)),
        entry_step f cluster v _ ne e
            ∙ ap
                (λ (w : ℕ).
                  some (
                    pos w,
                    record f { streams = put (put f.streams stream p) stream (u32 (p + 2)) },
                  ))
                (word ∙ entry_word f.private_data cluster),
      )

  -- The loop follows the table.
  cluster_loop_lem :
      (left : ℕ) (f : Fat) (cluster : ℤ)
      → f.private_data.fat_read_stream ≢ 0
      → (s : ℕ → ℕ) × (cluster_loop d left f cluster
          ≡ some (follow d f.private_data left cluster, record f { streams = s }))
  unfolding cluster_loop follow chain
  cluster_loop_lem zero f cluster ne = (f.streams, refl)
  cluster_loop_lem (suc left) f cluster ne =
      let (s, e) = fat16_get_fat_entry_lem f cluster ne in
      let next = table_entry d f.private_data cluster in
      let (s', e') = cluster_loop_lem left (record f { streams = s }) (pos next) ne in
      elim (Bool-cases (is_mark (pos next))) [
        | inl mark ↦ (s, rw (e, mark, sym (is_mark-marks next) ∙ mark) refl)
        | inr plain ↦ (s', rw (e, plain, sym (is_mark-marks next) ∙ plain) e')
      ]

  -- The cluster of an offset is as many entries of the table after the first one as there are whole clusters before
  -- the offset, or -EIO where one of these entries is a mark; and only positions of streams change. The driver has its
  -- stream of the table, and a cluster has a sector.
  pub fat16_get_cluster_for_offset_lem :
      (f : Fat) (starting_cluster : ℤ) (offset : ℕ)
      → f.private_data.fat_read_stream ≢ 0
      → size_of_cluster_bytes f.private_data ≢ 0
      → (s : ℕ → ℕ) × (fat16_get_cluster_for_offset d f starting_cluster offset
          ≡ some (
            follow d f.private_data
                (offset / size_of_cluster_bytes f.private_data)
                starting_cluster,
            record f { streams = s },
          ))
  unfolding fat16_get_cluster_for_offset
  fat16_get_cluster_for_offset_lem f starting_cluster offset ne positive =
      let (s, e) =
        cluster_loop_lem (offset / size_of_cluster_bytes f.private_data) f starting_cluster ne in
      let divides : (size_of_cluster_bytes f.private_data == 0) ≡ false = ground arith in
      (s, rw (divides) e)
