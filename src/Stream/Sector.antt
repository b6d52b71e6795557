-- ===== src/Stream/Sector.antt =====
-- disk.c: the bytes that a read of one sector puts into memory.
use libre_win.Prelude.{
  ℕ, zero, suc, ◌+◌, ◌-◌, ◌*◌, ◌/◌, ◌%◌, ◌^◌, ◌<◌, ◌≡◌, bit_or, arith, ◌==◌, if◌then◌else◌,
}
use libre_win.Prelude.Bits.{bit_or-zero, bit_or_split}
use libre_win.Memory.{Mem, write}
use libre_win.Memory.Laws.{within}
use libre_win.Stream.{Drive, select_sector, selected, word_loop, disk_read_sector}

marked_lba : (x : ℕ) → x < 16 → bit_or x 0xE0 ≡ 0xE0 + x
marked_lba x h =
    let low : 0 * 2 ^ 4 + x ≡ x = omega arith in
    omega (arith, rw low at (bit_or_split 4 0 x 14 0 h (omega arith)), bit_or-zero x)

-- The drive reads the sector that was asked for, if its number has 28 bits.
selected-select_sector : (lba : ℕ) → lba < 2 ^ 28 → selected (select_sector lba) ≡ lba
unfolding select_sector
selected-select_sector lba h = ground (arith, marked_lba (lba / 2 ^ 24) (omega arith))

-- Byte `k` of the words from address 0 on.
abbrev pub byte_of_words : (ℕ → ℕ) → ℕ → ℕ
byte_of_words word k = if (k % 2) == 0 then word (k / 2) % 2 ^ 8 else word (k / 2) / 2 ^ 8 % 2 ^ 8

word_loop_lem :
    (left i : ℕ) (word : ℕ → ℕ) (buf : ℕ) (m : Mem) (k : ℕ)
    → word_loop left i word buf m k
      ≡ (if within (buf + 2 * i) (2 * left) k then byte_of_words word (k - buf) else m k)
unfolding word_loop write
word_loop_lem zero i word buf m k = ground arith
word_loop_lem (suc left) i word buf m k = ground (
  arith,
  word_loop_lem left (i + 1) word buf
      (write (write m (buf + 2 * i) (word i % 2 ^ 8)) (buf + 2 * i + 1) (word i / 2 ^ 8 % 2 ^ 8)) k,
)

-- The byte at a position of the disk.
unfoldable pub disk_byte : Drive → ℕ → ℕ
disk_byte d pos = byte_of_words (d.word (pos / 512)) (pos % 512)

-- The bytes of the sectors, from address `buf` on.
disk_read_sectors_lem :
    (d : Drive) (lba total : ℕ) (m : Mem) (buf k : ℕ)
    → lba < 2 ^ 28
    → disk_read_sector d lba total m buf k
      ≡ (if within buf (total * 512) k then byte_of_words (d.word lba) (k - buf) else m k)
unfolding disk_read_sector
disk_read_sectors_lem d lba total m buf k h =
    rw (selected-select_sector lba h)
      (ground (arith, word_loop_lem (total * 256) 0 (d.word lba) buf m k))

pub disk_read_sector_lem :
    (d : Drive) (lba k : ℕ) (m : Mem)
    → lba < 2 ^ 28
    → k < 512
    → disk_read_sector d lba 1 m 0 k ≡ disk_byte d (lba * 512 + k)
unfolding disk_byte
disk_read_sector_lem d lba k m h hk = rw (disk_read_sectors_lem d lba 1 m 0 k h) (ground arith)
