-- ===== src/Stream/Read.antt =====
-- streamer.c: reads from a stream that give the bytes of the disk, and reads past the buffer.
use libre_win.Prelude.{
  ℕ, zero, suc, ◌+◌, ◌-◌, ◌*◌, ◌/◌, ◌%◌, ◌^◌, ◌≤◌, ◌<◌, ◌≡◌, ◌⊎◌, inl, inr, refl, ap, arith, ltb,
  lt→ltb, if◌then◌else◌, false, none, some,
}
use libre_win.Config.{u32}
use libre_win.Memory.{Mem}
use libre_win.Memory.Laws.{within}
use libre_win.Stream.{
  Drive, disk_read_sector, copy_loop, stream_sector, stream_offset, diskstreamer_read,
}
use libre_win.Stream.Sector.{disk_byte}
use libre_win.Stream.Bytes.{Copied, Copied-sector, Copied-more, copy_loop_lem, copy_loop_past}

-- The buffer that one step reads.
abbrev pub sector_at : Drive → ℕ → Mem
sector_at d p = disk_read_sector d (stream_sector p) 1 (λ i. 0) 0

not_more : (total : ℕ) → total ≤ 512 → ltb 512 total ≡ false
not_more total h = ground arith

read_last :
    (fuel : ℕ) (d : Drive) (p : ℕ) (m : Mem) (out total : ℕ) (m' : Mem)
    → total ≤ 512
    → copy_loop total 0 (sector_at d p) (stream_offset p) out m ≡ some m'
    → diskstreamer_read (suc fuel) d p m out total ≡ some (u32 (p + total), m')
unfolding diskstreamer_read
read_last fuel d p m out total m' h e =
    rw (diskstreamer_read, not_more total h, e, not_more total h) refl

read_more :
    (fuel : ℕ) (d : Drive) (p : ℕ) (m : Mem) (out total : ℕ) (m' : Mem)
    → 512 < total
    → copy_loop 512 0 (sector_at d p) (stream_offset p) out m ≡ some m'
    → diskstreamer_read (suc fuel) d p m out total
      ≡ diskstreamer_read fuel d (u32 (p + 512)) m' (out + 512) (total - 512)
unfolding diskstreamer_read
read_more fuel d p m out total m' h e =
    rw (diskstreamer_read, lt→ltb 512 total h, e, lt→ltb 512 total h) refl

le_or_lt : (a b : ℕ) → (a ≤ b) ⊎ (b < a)
le_or_lt a b = omega arith

u32_small : (n : ℕ) → n < 2 ^ 31 → u32 n ≡ n
u32_small n h = ground arith

read_chain :
    (fuel : ℕ) (d : Drive) (p : ℕ) (m : Mem) (out total : ℕ) (m1 m2 : Mem)
    → p + total < 2 ^ 31
    → 512 < total
    → copy_loop 512 0 (sector_at d p) (stream_offset p) out m ≡ some m1
    → diskstreamer_read fuel d (p + 512) m1 (out + 512) (total - 512)
      ≡ some (p + 512 + (total - 512), m2)
    → diskstreamer_read (suc fuel) d p m out total ≡ some (p + total, m2)
read_chain fuel d p m out total m1 m2 h large e r =
    let sum : p + 512 + (total - 512) ≡ p + total = omega arith in
    rw (read_more fuel d p m out total m1 large e, u32_small (p + 512) (omega arith))
      (rw sum at (r))

-- A read of at most one sector from the first byte of a sector, at any position.
pub read_start :
    (fuel : ℕ) (d : Drive) (p : ℕ) (m : Mem) (out total : ℕ)
    → total ≤ 512
    → stream_offset p ≡ 0
    → (m' : Mem) × (diskstreamer_read (suc fuel) d p m out total ≡ some (u32 (p + total), m'))
      × ((i : ℕ) → i < total → m' (out + i) ≡ sector_at d p i)
read_start fuel d p m out total h start =
    let (m', e, bytes) = copy_loop_lem total 0 (sector_at d p) 0 out m (omega arith) in
    (m', read_last fuel d p m out total m' h (rw start e), λ i hi. ground (arith, bytes (out + i)))

-- Before the end the position is on a sector, or all that is left is in the one sector.
abbrev pub Straight : ℕ → ℕ → Type 0
Straight p total = (p % 512 ≡ 0) ⊎ (p % 512 + total ≤ 512)

next_sector : (p i : ℕ) → p + 512 + i ≡ p + (512 + i)
next_sector p i = omega arith

read_bytes :
    (fuel : ℕ) (d : Drive) (p : ℕ) (m : Mem) (out total : ℕ)
    → p + total < 2 ^ 31
    → Straight p total
    → 0 < fuel
    → total ≤ fuel * 512
    → (m' : Mem) × (diskstreamer_read fuel d p m out total ≡ some (p + total, m'))
      × Copied m out total (λ i. disk_byte d (p + i)) m'
read_bytes zero d p m out total h s pf enough = absurd (omega arith)
read_bytes (suc fuel) d p m out total h s pf enough = elim (le_or_lt total 512) [
  | inl small ↦
      (let (m', e, bytes) = Copied-sector d p m out total (omega arith) (omega arith) in
        (m', rw (u32_small (p + total) h) at (read_last fuel d p m out total m' small e), bytes))
  | inr large ↦
      (let (m1, e, first) = Copied-sector d p m out 512 (omega arith) (omega arith) in
        let (m2, r, bytes) =
          read_bytes fuel d (p + 512) m1 (out + 512) (total - 512) (omega arith) (inl (omega arith))
            (omega arith) (omega arith) in
        (
          m2,
          read_chain fuel d p m out total m1 m2 h large e r,
          Copied-more m m1 m2 out 512 total (λ i. disk_byte d (p + i))
              (λ i. disk_byte d (p + 512 + i)) (omega arith)
              (λ i. ap (disk_byte d) (next_sector p i)) first bytes,
        ))
]

-- With fuel for each sector, a read that ends below 2 GB, from a position on a sector or within one sector, puts the
-- disk's bytes from the position on at the `total` addresses from `out` on, changes no other byte, and moves the
-- position past them.
pub diskstreamer_read_lem :
    (d : Drive) (p : ℕ) (m : Mem) (out total : ℕ)
    → p + total < 2 ^ 31
    → Straight p total
    → (m' : Mem) × (diskstreamer_read (suc (total / 512)) d p m out total ≡ some (p + total, m'))
      × ((x : ℕ) → m' x ≡ (if within out total x then disk_byte d (p + (x - out)) else m x))
diskstreamer_read_lem d p m out total h s =
    read_bytes (suc (total / 512)) d p m out total h s (omega arith) (omega arith)

-- A read that starts inside a sector and reaches the next one reads past the buffer of one sector, whatever the disk
-- holds, from a position below 2 GB.
pub diskstreamer_read_past :
    (fuel : ℕ) (d : Drive) (p : ℕ) (m : Mem) (out total : ℕ)
    → p < 2 ^ 31
    → 512 < p % 512 + total
    → 0 < p % 512
    → diskstreamer_read fuel d p m out total ≡ none
unfolding diskstreamer_read
diskstreamer_read_past zero d p m out total h past off = refl
diskstreamer_read_past (suc fuel) d p m out total h past off =
    let offset : stream_offset p ≡ p % 512 = ground arith in
    rw
      (
        diskstreamer_read,
        copy_loop_past (if ltb 512 total then 512 else total) 0 (sector_at d p) (stream_offset p)
            out m (rw offset (ground arith)) (ground arith),
      )
      refl
