-- ===== src/Stream.antt =====
-- librewin/base/txos/ke/disk/disk.c and streamer.c: sectors from the drive, and a stream of bytes over them. The
-- position of a stream is an `int`, by its 32 bits. The drive behind the ports is a parameter.
pub mod Sector
pub mod Bytes
pub mod Read
mod Tests
use libre_win.Prelude.{
  ℕ, zero, suc, ◌+◌, ◌-◌, ◌*◌, ◌/◌, ◌%◌, ◌^◌, bit_or, Bool, ltb, leb, ◌==◌, if◌then◌else◌, Option,
  none, some,
}
use libre_win.Config.{sector_size, u32}
use libre_win.Memory.{Mem, write}

-- The words that the data port gives after a read of sectors is asked for, by the number of the first sector as
-- the drive reads it from its registers, and by their index. That the drive gets ready is assumed.
pub record Drive : Type 0 where
  pub word : ℕ → ℕ → ℕ

-- The ports 0x1F3 to 0x1F6.
pub record Registers : Type 0 where
  pub low : ℕ
  pub middle : ℕ
  pub high : ℕ
  pub top : ℕ

unfoldable pub select_sector : ℕ → Registers
select_sector lba = record {
  low = lba % 2 ^ 8;
  middle = lba / 2 ^ 8 % 2 ^ 8;
  high = lba / 2 ^ 16 % 2 ^ 8;
  top = bit_or (lba / 2 ^ 24) 0xE0 % 2 ^ 8;
}

-- The drive takes 28 bits: the upper half of the last register is no part of the number.
abbrev pub selected : Registers → ℕ
selected r = r.low + r.middle * 2 ^ 8 + r.high * 2 ^ 16 + r.top % 16 * 2 ^ 24

-- The words that are left, from word `i` on.
unfoldable pub word_loop : ℕ → ℕ → (ℕ → ℕ) → ℕ → Mem → Mem
word_loop zero i word buf m = m
word_loop (suc left) i word buf m =
    word_loop left (i + 1) word buf
      (write (write m (buf + 2 * i) (word i % 2 ^ 8)) (buf + 2 * i + 1) (word i / 2 ^ 8 % 2 ^ 8))

unfoldable pub disk_read_sector : Drive → ℕ → ℕ → Mem → ℕ → Mem
unfolding select_sector word_loop
disk_read_sector d lba total m buf =
    word_loop (total * 256) 0 (d.word (selected (select_sector lba))) buf m

-- The bytes of a buffer that are left, from byte `i` on. `none` where the code reads past the buffer.
unfoldable pub copy_loop : ℕ → ℕ → Mem → ℕ → ℕ → Mem → Option Mem
copy_loop zero i buf offset out m = some m
copy_loop (suc left) i buf offset out m =
    let more = copy_loop left (i + 1) buf offset out (write m (out + i) (buf (offset + i))) in
    if leb sector_size (offset + i) then none else more

-- The sector of a position as an unsigned number: the division rounds a negative position up.
abbrev pub stream_sector : ℕ → ℕ
stream_sector p =
    if ltb p (2 ^ 31) then p / sector_size else u32 (2 ^ 32 - (2 ^ 32 - p) / sector_size)

-- The offset in the sector. A negative offset is outside the buffer: it is past it here.
abbrev pub stream_offset : ℕ → ℕ
stream_offset p =
    if ltb p (2 ^ 31)
    then p % sector_size
    else if ((2 ^ 32 - p) % sector_size) == 0
    then 0
    else sector_size

-- The position and the memory afterwards; `none` where the code reads outside its buffer of one sector, or the
-- fuel runs out. The status is always 0.
unfoldable pub diskstreamer_read : ℕ → Drive → ℕ → Mem → ℕ → ℕ → Option (ℕ × Mem)
unfolding disk_read_sector copy_loop
diskstreamer_read zero d p m out total = none
diskstreamer_read (suc fuel) d p m out total =
    let buf = disk_read_sector d (stream_sector p) 1 (λ i. 0) 0 in
    let total_to_read = (if ltb sector_size total then sector_size else total) in
    elim (copy_loop total_to_read 0 buf (stream_offset p) out m) [
      | none ↦ none
      | some m' ↦
          (let p' = u32 (p + total_to_read) in
            let rest = diskstreamer_read fuel d p' m' (out + total_to_read) (total - sector_size) in
            if ltb sector_size total then rest else some (p', m'))
    ]
