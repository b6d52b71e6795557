-- ===== src/Paging/Chunk.antt =====
-- paging.c: paging_new_4gb and paging_free_4gb, a directory and its 1024 tables from the kernel's heap. A chunk is the
-- address of a structure of one word, the directory's address. No allocation is checked: where one fails, the words go
-- to the memory from address 0 on, as they do in the code.
use libre_win.Prelude.{ℕ, zero, suc, ◌+◌, ◌*◌, bit_and, bit_or, Option, none, some}
use libre_win.Config.{u32}
use libre_win.Memory.{Mem}
use libre_win.Memory.Words.{load32, store32}
use libre_win.Kheap.{Kernel, kzalloc, kfree}
use libre_win.Paging.{total_entries_per_table, page_size}

abbrev pub paging_is_writeable : ℕ
paging_is_writeable = 2

-- The words of a table that are left, from `b` on. `offset` is an `int`, by its 32 bits.
unfoldable pub words_loop : ℕ → ℕ → ℕ → ℕ → ℕ → Mem → Mem
words_loop zero b entry offset flags m = m
words_loop (suc left) b entry offset flags m =
    words_loop left (b + 1) entry offset flags
      (store32 m (entry + 4 * b) (bit_or (u32 (offset + b * page_size)) flags))

abbrev pub with_mem : Kernel → Mem → Kernel
with_mem k m = record k { mem = m }

-- A round of the loop over the tables.
unfoldable pub new_table : ℕ → ℕ → ℕ → ℕ → Kernel → Kernel
new_table i directory offset flags k =
    let (entry, k') = kzalloc k (4 * total_entries_per_table) in
    let filled = words_loop total_entries_per_table 0 entry offset flags k'.mem in
    with_mem k'
      (store32 filled (directory + 4 * i) (bit_or (bit_or entry flags) paging_is_writeable))

unfoldable pub tables_loop : ℕ → ℕ → ℕ → ℕ → ℕ → Kernel → Kernel
tables_loop zero i directory offset flags k = k
tables_loop (suc left) i directory offset flags k =
    tables_loop left (i + 1) directory (u32 (offset + total_entries_per_table * page_size)) flags
      (new_table i directory offset flags k)

-- The chunk, and the kernel.
unfoldable pub paging_new_4gb : Kernel → ℕ → ℕ × Kernel
paging_new_4gb k flags =
    let (directory, k') = kzalloc k (4 * total_entries_per_table) in
    let mapped = tables_loop total_entries_per_table 0 directory 0 flags k' in
    let (chunk_4gb, k'') = kzalloc mapped 4 in
    (chunk_4gb, with_mem k'' (store32 k''.mem chunk_4gb directory))

unfoldable pub paging_4gb_chunk_get_directory : Mem → ℕ → ℕ
paging_4gb_chunk_get_directory m chunk = load32 m chunk

-- The directory is read anew in each round; `none` where kfree has no answer.
pub free_tables_loop : ℕ → ℕ → ℕ → Kernel → Option Kernel
free_tables_loop zero i chunk k = some k
free_tables_loop (suc left) i chunk k =
    let entry = load32 k.mem (load32 k.mem chunk + 4 * i) in
    let table = bit_and entry 0xfffff000 in
    elim (kfree k table) [ none ↦ none | some k' ↦ free_tables_loop left (i + 1) chunk k' ]

pub paging_free_4gb : Kernel → ℕ → Option Kernel
paging_free_4gb k chunk = elim (free_tables_loop 1024 0 chunk k) [
  | none ↦ none
  | some tables_freed ↦ elim (kfree tables_freed (load32 tables_freed.mem chunk)) [
    | none ↦ none
    | some directory_freed ↦ kfree directory_freed chunk
  ]
]
