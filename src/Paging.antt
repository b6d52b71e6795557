-- ===== src/Paging.antt =====
-- librewin/base/txos/ke/memory/paging/paging.c: page directories and tables in memory. A directory
-- is the address of 1024 words, and each names the page that holds a table of 1024 words.
pub mod Chunk
pub mod Create
pub mod Identity
pub mod Map
pub mod Round
pub mod Walk
pub mod Whole
mod Tests
use libre_win.Prelude.{
  ℕ, zero, suc, ◌+◌, ◌-◌, ◌*◌, ◌/◌, ◌%◌, bit_and, bit_or, Bool, ◌||◌, not, ltb, ◌==◌, if◌then◌else◌,
}
use libre_win.Prelude.Int.{ℤ, pos}
use libre_win.Config.{einvarg, minus, is_neg, u32, sub32}
use libre_win.Memory.{Mem}
use libre_win.Memory.Words.{load32, store32}

-- PAGING_TOTAL_ENTRIES_PER_TABLE and PAGING_PAGE_SIZE
abbrev pub total_entries_per_table : ℕ
total_entries_per_table = 1024

abbrev pub page_size : ℕ
page_size = 4096

pub paging_is_aligned : ℕ → Bool
paging_is_aligned addr = (addr % page_size) == 0

-- The status, and what `directory_index_out` and `table_index_out` point to afterwards.
pub record Indexes : Type 0 where
  pub res : ℤ
  pub directory_index : ℕ
  pub table_index : ℕ

pub paging_get_indexes : ℕ → ℕ → ℕ → Indexes
unfolding paging_is_aligned
paging_get_indexes virtual_address directory_index table_index =
    if not (paging_is_aligned virtual_address)
    then record {
      res = minus einvarg;
      directory_index = directory_index;
      table_index = table_index;
    }
    else record {
      res = pos 0;
      directory_index = virtual_address / (total_entries_per_table * page_size);
      table_index = virtual_address % (total_entries_per_table * page_size) / page_size;
    }

pub paging_align_address : ℕ → ℕ
paging_align_address ptr =
    if not ((ptr % page_size) == 0) then u32 (ptr + page_size - ptr % page_size) else ptr

pub paging_set : Mem → ℕ → ℕ → ℕ → ℤ × Mem
unfolding paging_is_aligned paging_get_indexes
paging_set m directory virt val =
    if not (paging_is_aligned virt)
    then (minus einvarg, m)
    else (let ix = paging_get_indexes virt 0 0 in
        if is_neg ix.res
        then (ix.res, m)
        else (let entry = load32 m (directory + 4 * ix.directory_index) in
            let table = bit_and entry 0xfffff000 in
            (pos 0, store32 m (table + 4 * ix.table_index) val)))

pub paging_map : Mem → ℕ → ℕ → ℕ → ℕ → ℤ × Mem
unfolding paging_set
paging_map m directory virt phys flags =
    if not ((virt % page_size) == 0) || not ((phys % page_size) == 0)
    then (minus einvarg, m)
    else paging_set m directory virt (bit_or phys flags)

abbrev pub is_zero : ℤ → Bool
is_zero (pos n) = n == 0
is_zero (ℤ.negsuc n) = Bool.false

-- The rounds that are left, and the status and memory so far. The loop ends where a round answers 0.
pub map_range_loop : ℕ → ℕ → ℕ → ℕ → ℕ → ℤ × Mem → ℤ × Mem
unfolding paging_map
map_range_loop zero directory virt phys flags (res, m) = (res, m)
map_range_loop (suc left) directory virt phys flags (res, m) =
    let (res', m') = paging_map m directory virt phys flags in
    let more =
      map_range_loop left directory (u32 (virt + page_size)) (u32 (phys + page_size)) flags
        (res', m') in
    if is_zero res' then (res', m') else more

pub paging_map_range : Mem → ℕ → ℕ → ℕ → ℕ → ℕ → ℤ × Mem
unfolding map_range_loop
paging_map_range m directory virt phys count flags =
    map_range_loop count directory virt phys flags (pos 0, m)

pub paging_map_to : Mem → ℕ → ℕ → ℕ → ℕ → ℕ → ℤ × Mem
unfolding paging_map_range
paging_map_to m directory virt phys phys_end flags =
    if not ((virt % page_size) == 0)
    then (minus einvarg, m)
    else if not ((phys % page_size) == 0)
    then (minus einvarg, m)
    else if not ((phys_end % page_size) == 0)
    then (minus einvarg, m)
    else if ltb phys_end phys
    then (minus einvarg, m)
    else (let total_bytes = sub32 phys_end phys in
        let total_pages = total_bytes / page_size in
        paging_map_range m directory virt phys total_pages flags)
