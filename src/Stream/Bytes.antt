-- ===== src/Stream/Bytes.antt =====
-- streamer.c: the bytes that a read from a stream gives.
use libre_win.Prelude.{
  ℕ, zero, suc, ◌+◌, ◌-◌, ◌*◌, ◌/◌, ◌%◌, ◌^◌, ◌≤◌, ◌<◌, ◌≡◌, refl, ◌∙◌, true, if_rel, arith,
  if◌then◌else◌, none, some,
}
use libre_win.Memory.{Mem, write}
use libre_win.Memory.Laws.{within}
use libre_win.Stream.{Drive, disk_read_sector, copy_loop, stream_sector, stream_offset}
use libre_win.Stream.Sector.{disk_byte, disk_read_sector_lem}

-- `m'` is `m` with the `n` bytes from `out` on taken from `f`.
abbrev pub Copied : Mem → ℕ → ℕ → (ℕ → ℕ) → Mem → Type 0
Copied m out n f m' = (x : ℕ) → m' x ≡ (if within out n x then f (x - out) else m x)

pub copy_loop_lem :
    (left i : ℕ) (buf : Mem) (offset out : ℕ) (m : Mem)
    → offset + i + left ≤ 512
    → (m' : Mem) × (copy_loop left i buf offset out m ≡ some m')
      × ((x : ℕ) → m' x ≡ (if within (out + i) left x then buf (offset + (x - out)) else m x))
unfolding copy_loop write
copy_loop_lem zero i buf offset out m h = (m, refl, λ x. ground arith)
copy_loop_lem (suc left) i buf offset out m h =
    let (m', e, bytes) =
      copy_loop_lem left (i + 1) buf offset out (write m (out + i) (buf (offset + i)))
        (omega arith) in
    (m', ground arith, λ x. ground (arith, bytes x))

pub copy_loop_past :
    (left i : ℕ) (buf : Mem) (offset out : ℕ) (m : Mem)
    → 512 < offset + i + left
    → 0 < left
    → copy_loop left i buf offset out m ≡ none
unfolding copy_loop
copy_loop_past zero i buf offset out m h p = absurd (omega arith)
copy_loop_past (suc zero) i buf offset out m h p = ground arith
copy_loop_past (suc (suc left)) i buf offset out m h p =
    rw
      (copy_loop_past (suc left) (i + 1) buf offset out (write m (out + i) (buf (offset + i)))
        (omega arith) (omega arith))
      (ground arith)

in_sector :
    (out n x offset : ℕ) → within out n x ≡ true → offset + n ≤ 512 → offset + (x - out) < 512
in_sector out n x offset t fit = ground arith

byte_of :
    (d : Drive) (sector offset i : ℕ)
    → sector < 2 ^ 28
    → offset + i < 512
    → disk_read_sector d sector 1 (λ j. 0) 0 (offset + i) ≡ disk_byte d (sector * 512 + offset + i)
byte_of d sector offset i h fit =
    let sum : sector * 512 + offset + i ≡ sector * 512 + (offset + i) = omega arith in
    rw sum (disk_read_sector_lem d sector (offset + i) (λ j. 0) h fit)

Copied-from :
    (d : Drive) (sector offset : ℕ) (m : Mem) (out n : ℕ)
    → sector < 2 ^ 28
    → offset + n ≤ 512
    → (m' : Mem) × (copy_loop n 0 (disk_read_sector d sector 1 (λ i. 0) 0) offset out m ≡ some m')
      × Copied m out n (λ i. disk_byte d (sector * 512 + offset + i)) m'
Copied-from d sector offset m out n h fit =
    let (m', e, bytes) =
      copy_loop_lem n 0 (disk_read_sector d sector 1 (λ i. 0) 0) offset out m (omega arith) in
    let start : out + 0 ≡ out = omega arith in
    (
      m',
      e,
      λ x.
          rw start at (bytes x)
          ∙ if_rel (λ (a b : ℕ). a ≡ b) (within out n x) _ _ _ _
              (λ t. rw (byte_of d sector offset (x - out) h (in_sector out n x offset t fit)) refl)
              (λ _. refl),
    )

-- A step of the read that stays in one sector.
pub Copied-sector :
    (d : Drive) (p : ℕ) (m : Mem) (out n : ℕ)
    → p < 2 ^ 31
    → p % 512 + n ≤ 512
    → (m' : Mem) × (copy_loop n 0
          (disk_read_sector d (stream_sector p) 1 (λ i. 0) 0)
          (stream_offset p)
          out
          m
        ≡ some m')
      × Copied m out n (λ i. disk_byte d (p + i)) m'
Copied-sector d p m out n h fit =
    let sector : stream_sector p ≡ p / 512 = ground arith in
    let offset : stream_offset p ≡ p % 512 = ground arith in
    let split : p / 512 * 512 + p % 512 ≡ p = omega arith in
    rw sector
      (rw offset (rw split at (Copied-from d (p / 512) (p % 512) m out n (omega arith) fit)))

-- One more piece, of `n` bytes, before the rest.
pub Copied-more :
    (m m1 m2 : Mem) (out n total : ℕ) (f rest : ℕ → ℕ)
    → n ≤ total
    → ((i : ℕ) → rest i ≡ f (n + i))
    → Copied m out n f m1
    → Copied m1 (out + n) (total - n) rest m2
    → Copied m out total f m2
Copied-more m m1 m2 out n total f rest h same first more x =
    ground (arith, first x, more x, same (x - (out + n)))
