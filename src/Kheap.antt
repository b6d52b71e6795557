-- ===== src/Kheap.antt =====
-- librewin/base/txos/ke/memory/heap/kheap.c: the kernel's heap, and memory from it.
pub mod Block
pub mod Laws
mod Tests
use libre_win.Prelude.{ℕ, ◌+◌, ◌/◌, Bool, true, false, ◌==◌, if◌then◌else◌, Option, none, some}
use libre_win.Prelude.Int.{ℤ}
use libre_win.Config.{heap_size_bytes, block_size, heap_address, heap_table_address, is_neg}
use libre_win.Memory.{Mem, memset}
use libre_win.Heap.{HeapTable, Heap, heap_create, heap_malloc, heap_free}

-- The memory that the kernel's heap hands out, and the heap. The block table, which lies at
-- LIBREWIN_HEAP_TABLE_ADDRESS below the heap, is the heap's own.
pub record Kernel : Type 0 where
  pub mem : Mem
  pub kernel_heap : Heap

-- The table is the memory at its address. The flag tells that "Failed to create heap" is printed.
pub kheap_init : Kernel → Bool × Kernel
kheap_init k =
    let total_table_entries = heap_size_bytes / block_size in
    let kernel_heap_table : HeapTable = record {
      entries = λ i. k.mem (heap_table_address + i);
      total = total_table_entries;
    } in
    let end = heap_address + heap_size_bytes in
    let (res, heap) = heap_create k.kernel_heap heap_address end kernel_heap_table in
    (is_neg res, record k { kernel_heap = heap })

pub kmalloc : Kernel → ℕ → ℕ × Kernel
kmalloc k size =
    let (ptr, heap) = heap_malloc k.kernel_heap size in (ptr, record k { kernel_heap = heap })

pub kzalloc : Kernel → ℕ → ℕ × Kernel
unfolding kmalloc
kzalloc k size =
    let (ptr, k') = kmalloc k size in
    if ptr == 0 then (0, k') else (ptr, record k' { mem = memset k'.mem ptr 0x00 size })

unfoldable pub with_heap : Kernel → Option Heap → Option Kernel
with_heap k none = none
with_heap k (some heap) = some (record k { kernel_heap = heap })

-- `none` where the pointer lies below the heap (see heap_free).
unfoldable pub kfree : Kernel → ℕ → Option Kernel
unfolding with_heap
kfree k ptr = with_heap k (heap_free k.kernel_heap ptr)

-- kzalloc and kfree, over the state `S` of the heap: an allocation answers 0 where it fails.
pub record Allocator (S : Type 0) : Type 0 where
  pub alloc : S → ℕ → ℕ × S
  pub free : S → ℕ → Option S

-- The kernel's heap is the allocator that the kernel has.
abbrev pub kernel_allocator : Allocator Kernel
kernel_allocator = record { alloc = kzalloc; free = kfree }
