-- ===== src/Kheap/Laws.antt =====
-- kheap.c: the heap after kheap_init, and what kzalloc answers.
use libre_win.Prelude.{
  ℕ, ◌+◌, ◌*◌, ◌^◌, ◌≤◌, ◌<◌, ◌≡◌, refl, false, [], List, ◌∷◌, arith, ap, if◌then◌else◌,
}
use libre_win.Memory.Laws.{within, memset_lem}
use libre_win.Memory.{memset}
use libre_win.Config.{heap_address, heap_table_address, is_neg}
use libre_win.Heap.{Heap, heap_malloc}
use libre_win.Heap.Search.{IsFree}
use libre_win.Heap.Live.{Chunk, IsHeap}
use libre_win.Heap.Create.{heap_create-IsHeap}
use libre_win.Heap.Malloc.{blocks_for, heap_malloc-Outcome}
use libre_win.Heap.RoundTrip.{given_of_run}
use libre_win.Kheap.{Kernel, kheap_init, kzalloc}

-- kheap_init succeeds on every memory and makes a heap of 25600 free blocks from 16 MB on.
pub kheap_init-IsHeap :
    (k : Kernel)
    → let (failed, k') = kheap_init k in
      (failed ≡ false)
      × (k'.kernel_heap.saddr ≡ 0x01000000)
      × (k'.kernel_heap.table.total ≡ 25600)
      × IsHeap k'.kernel_heap []
unfolding kheap_init
kheap_init-IsHeap k =
    let (created, at_16_mb, blocks, valid) =
      heap_create-IsHeap k.kernel_heap heap_address
        (record { entries = λ i. k.mem (heap_table_address + i); total = 25600 }) refl (omega arith)
        (omega arith) (omega arith) in
    (ap is_neg created, at_16_mb, blocks, valid)

pub kzalloc_of_kmalloc :
    (k : Kernel) (size p : ℕ) (heap : Heap)
    → heap_malloc k.kernel_heap size ≡ (p, heap)
    → 0 < p
    → kzalloc k size ≡ (p, record { mem = memset k.mem p 0 size; kernel_heap = heap })
unfolding kzalloc
kzalloc_of_kmalloc k size p heap e positive = rw e (ground arith)

-- If a run of free blocks that is long enough is there in a valid heap, kzalloc of at least one byte, which does not
-- wrap around, answers an address in the heap; the bytes there are zero, no other byte has changed, and the blocks
-- are in use.
pub kzalloc_lem :
    (k : Kernel) {live : List Chunk} (size s : ℕ)
    → IsHeap k.kernel_heap live
    → 0 < size
    → size + 4095 < 2 ^ 32
    → s + blocks_for size ≤ k.kernel_heap.table.total
    → IsFree k.kernel_heap.table.entries s (s + blocks_for size)
    → let (p, k') = kzalloc k size in
      (b : ℕ) × (p ≡ k.kernel_heap.saddr + b * 4096)
      × (b + blocks_for size ≤ k.kernel_heap.table.total)
      × IsHeap k'.kernel_heap ((b, blocks_for size) ∷ live)
      × ((x : ℕ) → k'.mem x ≡ (if within p size x then 0 else k.mem x))
kzalloc_lem k size s v positive small inside run =
    let (b, fit, _, e, valid) =
      given_of_run k.kernel_heap v s inside run
        (heap_malloc-Outcome k.kernel_heap v size positive small) in
    rw (kzalloc_of_kmalloc k size _ _ e (omega (arith, v.not_null)))
      (b, refl, fit, valid, λ x. memset_lem k.mem (k.kernel_heap.saddr + b * 4096) 0 size x)
