-- ===== src/Heap.antt =====
-- librewin/base/txos/ke/memory/heap/heap.c: the block allocator.
-- The block table is a memory of one byte for each block, read and written from offset 0, the
-- address of `table->entries`. An offset from `total` on is memory behind the table.
pub mod Alloc
pub mod Create
pub mod Live
pub mod Machine
pub mod RoundTrip
pub mod Malloc
pub mod Marks
pub mod Search
mod Tests
use libre_win.Prelude.{
  ℕ, zero, suc, ◌+◌, ◌-◌, ◌*◌, ◌/◌, ◌%◌, ◌^◌, bit_and, bit_or, Bool, not, ◌||◌, Option, none, some,
  ltb, ◌==◌, if◌then◌else◌,
}
use libre_win.Prelude.Int.{ℤ, pos}
use libre_win.Config.{block_size, einvarg, enomem, minus, is_neg, u32, sub32}
use libre_win.Memory.{Mem, write, memset}

-- HEAP_BLOCK_TABLE_ENTRY_TAKEN, HEAP_BLOCK_TABLE_ENTRY_FREE, HEAP_BLOCK_HAS_NEXT, HEAP_BLOCK_IS_FIRST
abbrev pub entry_taken : ℕ
entry_taken = 0x01

abbrev pub entry_free : ℕ
entry_free = 0x00

abbrev pub has_next : ℕ
has_next = 0b10000000

abbrev pub is_first : ℕ
is_first = 0b01000000

pub record HeapTable : Type 0 where
  pub entries : Mem
  pub total : ℕ

-- The table that `heap->table` points to is part of the heap.
pub record Heap : Type 0 where
  pub table : HeapTable
  pub saddr : ℕ

pub heap_validate_table : ℕ → ℕ → HeapTable → ℤ
heap_validate_table ptr end table =
    let table_size = sub32 end ptr in
    let total_blocks = table_size / block_size in
    if not (table.total == total_blocks) then minus einvarg else pos 0

pub heap_validate_alignment : ℕ → Bool
heap_validate_alignment ptr = (ptr % block_size) == 0

-- The status and the heap afterwards.
pub heap_create : Heap → ℕ → ℕ → HeapTable → ℤ × Heap
unfolding heap_validate_table heap_validate_alignment
heap_create heap ptr end table =
    if not (heap_validate_alignment ptr) || not (heap_validate_alignment end)
    then (minus einvarg, heap)
    else (let res = heap_validate_table ptr end table in
        if is_neg res then (res, record { table = table; saddr = ptr }) else (
          res,
          record {
            table = record table { entries = memset table.entries 0 entry_free table.total };
            saddr = ptr;
          },
        ))

pub heap_align_value_to_upper : ℕ → ℕ
heap_align_value_to_upper val =
    if (val % block_size) == 0 then val else u32 (val - val % block_size + block_size)

unfoldable pub heap_get_entry_type : ℕ → ℕ
heap_get_entry_type entry = bit_and entry 0x0f

-- `bs`, where `none` is the -1 that says that no run of free blocks is open.
pub first_block : Option ℕ → ℕ → Option ℕ
first_block none i = some i
first_block (some bs) i = some bs

-- The rounds `left` from block `i` on, with the length `bc` of the open run; `bs` at the end.
pub start_block_loop : Mem → ℕ → ℕ → ℕ → ℕ → Option ℕ → Option ℕ
unfolding heap_get_entry_type first_block
start_block_loop entries total_blocks zero i bc bs = bs
start_block_loop entries total_blocks (suc left) i bc bs =
    let taken = start_block_loop entries total_blocks left (i + 1) 0 none in
    let free = start_block_loop entries total_blocks left (i + 1) (bc + 1) (first_block bs i) in
    if not (heap_get_entry_type (entries i) == entry_free)
    then taken
    else (if (bc + 1) == total_blocks then first_block bs i else free)

pub block_or_enomem : Option ℕ → ℤ
block_or_enomem none = minus enomem
block_or_enomem (some bs) = pos bs

pub heap_get_start_block : Heap → ℕ → ℤ
unfolding start_block_loop block_or_enomem
heap_get_start_block heap total_blocks =
    block_or_enomem (start_block_loop heap.table.entries total_blocks heap.table.total 0 0 none)

pub heap_block_to_address : Heap → ℕ → ℕ
heap_block_to_address heap block = u32 (heap.saddr + block * block_size)

-- `stop` is `end_block + 1`: the loop runs while `i < stop`, and `i != end_block - 1` is
-- `i + 2 != stop`, which also holds where `end_block - 1` is negative.
pub mark_taken_loop : ℕ → ℕ → ℕ → ℕ → Mem → Mem
mark_taken_loop zero i stop entry entries = entries
mark_taken_loop (suc left) i stop entry entries =
    mark_taken_loop left (i + 1) stop
      (if not ((i + 2) == stop) then bit_or entry_taken has_next else entry_taken)
      (write entries i entry)

pub heap_mark_blocks_taken : Heap → ℕ → ℕ → Heap
unfolding mark_taken_loop
heap_mark_blocks_taken heap start_block total_blocks =
    let first = bit_or entry_taken is_first in
    let entry = (if ltb 1 total_blocks then bit_or first has_next else first) in
    record heap {
      table = record (heap.table) {
        entries =
            mark_taken_loop total_blocks start_block (start_block + total_blocks) entry
              heap.table.entries;
      };
    }

-- The address, 0 where there is none, and the heap.
pub malloc_at : Heap → ℕ → ℤ → ℕ × Heap
malloc_at heap total_blocks (ℤ.negsuc e) = (0, heap)
malloc_at heap total_blocks (pos start_block) =
    (heap_block_to_address heap start_block, heap_mark_blocks_taken heap start_block total_blocks)

pub heap_malloc_blocks : Heap → ℕ → ℕ × Heap
unfolding malloc_at
heap_malloc_blocks heap total_blocks =
    malloc_at heap total_blocks (heap_get_start_block heap total_blocks)

pub mark_free_loop : ℕ → ℕ → Mem → Mem
mark_free_loop zero i entries = entries
mark_free_loop (suc left) i entries =
    let more = mark_free_loop left (i + 1) (write entries i entry_free) in
    if bit_and (entries i) has_next == 0 then write entries i entry_free else more

pub heap_mark_blocks_free : Heap → ℕ → Heap
unfolding mark_free_loop
heap_mark_blocks_free heap starting_block = record heap {
  table = record (heap.table) {
    entries = mark_free_loop (heap.table.total - starting_block) starting_block heap.table.entries;
  };
}

-- The distance is a pointer difference cast to `int`, and the division rounds towards 0.
pub heap_address_to_block : Heap → ℕ → ℤ
heap_address_to_block heap address =
    let distance = sub32 address heap.saddr in
    if ltb distance (2 ^ 31)
    then pos (distance / block_size)
    else minus ((2 ^ 32 - distance) / block_size)

pub heap_malloc : Heap → ℕ → ℕ × Heap
heap_malloc heap size =
    let aligned_size = heap_align_value_to_upper size in
    let total_blocks = aligned_size / block_size in heap_malloc_blocks heap total_blocks

-- `none` where the block number is negative, as for the null pointer: the code then clears bytes in
-- front of the table, which the model does not have.
pub free_from : Heap → ℤ → Option Heap
free_from heap (ℤ.negsuc block) = none
free_from heap (pos block) = some (heap_mark_blocks_free heap block)

pub heap_free : Heap → ℕ → Option Heap
unfolding free_from
heap_free heap ptr = free_from heap (heap_address_to_block heap ptr)
