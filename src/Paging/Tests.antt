-- ===== src/Paging/Tests.antt =====
-- The theorems of paging.c on a directory at 1 MB whose tables follow each other from 2 MB on.
use libre_win.Prelude.{
  ℕ, ◌+◌, ◌-◌, ◌*◌, ◌/◌, ◌%◌, ◌^◌, ◌<◌, ◌≡◌, refl, arith, ltb, leb, ◌==◌, if◌then◌else◌, true, ◌&&◌,
}
use libre_win.Prelude.Int.{pos}
use libre_win.Memory.{Mem}
use libre_win.Memory.Words.{load32}
use libre_win.Paging.{paging_set, paging_map, paging_map_range, paging_map_to}
use libre_win.Paging.Walk.{page_entry, IsDirectory, paging_set_lem}
use libre_win.Paging.Map.{paging_map_range-paging_map, paging_map_to_first_page}

abbrev byte_of : ℕ → ℕ → ℕ
byte_of w i =
    if i == 0
    then w % 256
    else if i == 1
    then w / 256 % 256
    else if i == 2
    then w / 65536 % 256
    else w / 16777216 % 256

-- Word `i` of the directory is the table's address with the flags 7.
memory : Mem
memory x =
    if leb 0x100000 x && ltb x 0x101000
    then byte_of (0x200007 + (x - 0x100000) / 4 * 4096) (x % 4)
    else 0

memory_byte :
    (i k x : ℕ)
    → i < 1024
    → k < 4
    → x ≡ 0x100000 + 4 * i + k
    → memory x ≡ byte_of (0x200007 + i * 4096) k
unfolding memory
memory_byte i k x h h' e =
    let inside : (leb 0x100000 x && ltb x 0x101000) ≡ true = ground arith in
    let word : (x - 0x100000) / 4 ≡ i = omega arith in
    let byte : x % 4 ≡ k = omega arith in rw (inside, word, byte) refl

word-memory : (i : ℕ) → i < 1024 → load32 memory (0x100000 + 4 * i) ≡ 0x200007 + i * 4096
unfolding load32
word-memory i h = omega (
  arith,
  memory_byte i 0 (0x100000 + 4 * i) h (omega arith) (omega arith),
  memory_byte i 1 (0x100000 + 4 * i + 1) h (omega arith) refl,
  memory_byte i 2 (0x100000 + 4 * i + 2) h (omega arith) refl,
  memory_byte i 3 (0x100000 + 4 * i + 3) h (omega arith) refl,
)

memory-IsDirectory : IsDirectory memory 0x100000
memory-IsDirectory = record {
  aligned = refl;
  words = λ i h. rw (word-memory i h) (omega arith);
  no_self = λ i h. rw (word-memory i h) (omega arith);
  distinct = λ i j h h' e. omega (arith, e, word-memory i h, word-memory j h');
}

paging_set_lem_example :
    let (res, m') = paging_set memory 0x100000 0x403000 0x5007 in
    (res ≡ pos 0)
    × IsDirectory m' 0x100000
    × ((w : ℕ)
        → w % 4096 ≡ 0
        → w < 2 ^ 32
        → page_entry m' 0x100000 w
          ≡ (if w == 0x403000 then 0x5007 else page_entry memory 0x100000 w))
paging_set_lem_example =
    paging_set_lem memory 0x100000 memory-IsDirectory 0x403000 0x5007 (omega arith) refl
      (omega arith)

paging_map_range-paging_map_example :
    paging_map_range memory 0x100000 0x403000 0x5000 3 7
    ≡ paging_map memory 0x100000 0x403000 0x5000 7
paging_map_range-paging_map_example =
    paging_map_range-paging_map memory 0x100000 0x403000 0x5000 3 7 (omega arith)

paging_map_to_first_page_example :
    let (res, m') = paging_map_to memory 0x100000 0x403000 0x5000 0x8000 7 in
    (res ≡ pos 0)
    × IsDirectory m' 0x100000
    × ((w : ℕ)
        → w % 4096 ≡ 0
        → w < 2 ^ 32
        → page_entry m' 0x100000 w
          ≡ (if w == 0x403000 then 0x5007 else page_entry memory 0x100000 w))
paging_map_to_first_page_example =
    paging_map_to_first_page memory 0x100000 0x403000 0x5000 0x8000 7 memory-IsDirectory refl
      (omega arith) refl refl (omega arith) (omega arith) (omega arith)
