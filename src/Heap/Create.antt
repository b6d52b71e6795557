-- ===== src/Heap/Create.antt =====
-- heap_create of heap.c: when it succeeds, and the heap that it makes.
use libre_win.Prelude.{ℕ, ◌+◌, ◌*◌, ◌/◌, ◌%◌, ◌^◌, ◌<◌, ◌≡◌, ◌≢◌, ◌⊎◌, refl, arith, []}
use libre_win.Prelude.Int.{pos}
use libre_win.Config.{minus, einvarg, sub32}
use libre_win.Memory.{memset}
use libre_win.Memory.Laws.{memset_lem}
use libre_win.Heap.{HeapTable, Heap, entry_free, heap_create}
use libre_win.Heap.Live.{IsHeap}

-- The start or the end is no multiple of the block size: -EINVARG, and the heap is not touched.
pub heap_create_unaligned :
    (heap : Heap) (ptr end : ℕ) (table : HeapTable)
    → (ptr % 4096 ≢ 0) ⊎ (end % 4096 ≢ 0)
    → heap_create heap ptr end table ≡ (minus einvarg, heap)
unfolding heap_create
heap_create_unaligned heap ptr end table h = ground arith

-- The table has another number of entries than the range has blocks: -EINVARG, and no entry of the
-- table is cleared.
pub heap_create_mismatched :
    (heap : Heap) (ptr end : ℕ) (table : HeapTable)
    → ptr % 4096 ≡ 0
    → end % 4096 ≡ 0
    → table.total ≢ sub32 end ptr / 4096
    → heap_create heap ptr end table ≡ (minus einvarg, record { table = table; saddr = ptr })
unfolding heap_create
heap_create_mismatched heap ptr end table p q h = ground arith

abbrev cleared : HeapTable → ℕ → Heap
cleared table ptr = record {
  table = record table { entries = memset table.entries 0 entry_free table.total };
  saddr = ptr;
}

heap_create_matched :
    (heap : Heap) (ptr end : ℕ) (table : HeapTable)
    → ptr % 4096 ≡ 0
    → end % 4096 ≡ 0
    → table.total ≡ sub32 end ptr / 4096
    → heap_create heap ptr end table ≡ (pos 0, cleared table ptr)
unfolding heap_create
heap_create_matched heap ptr end table p q e = ground arith

cleared-IsHeap :
    (ptr : ℕ) (table : HeapTable)
    → ptr % 4096 ≡ 0
    → 0 < ptr
    → ptr + table.total * 4096 < 2 ^ 32
    → table.total * 4096 < 2 ^ 31
    → IsHeap (cleared table ptr) []
cleared-IsHeap ptr table aligned not_null bounded small = record {
  aligned = aligned;
  not_null = not_null;
  bounded = bounded;
  small = small;
  chunks = tt;
  apart = tt;
  rest = λ x p c. ground (arith, memset_lem table.entries 0 0 table.total x);
}

-- A range of blocks above the null page and below 2 GB long, with a table of its size, makes a
-- heap in which every block is free.
pub heap_create-IsHeap :
    (heap : Heap) (ptr : ℕ) (table : HeapTable)
    → ptr % 4096 ≡ 0
    → 0 < ptr
    → ptr + table.total * 4096 < 2 ^ 32
    → table.total * 4096 < 2 ^ 31
    → let (res, h) = heap_create heap ptr (ptr + table.total * 4096) table in
      (res ≡ pos 0) × (h.saddr ≡ ptr) × (h.table.total ≡ table.total) × IsHeap h []
heap_create-IsHeap heap ptr table aligned not_null bounded small =
    rw
      (heap_create_matched heap ptr (ptr + table.total * 4096) table aligned (omega arith)
        (omega arith))
      (refl, refl, refl, cleared-IsHeap ptr table aligned not_null bounded small)
