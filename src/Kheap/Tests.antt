-- ===== src/Kheap/Tests.antt =====
-- The theorems of kheap.c on a memory of zeros.
use libre_win.Prelude.{ℕ, ◌+◌, ◌*◌, ◌≤◌, ◌≡◌, refl, [], ◌∷◌, arith, if◌then◌else◌}
use libre_win.Heap.{Heap, heap_get_entry_type}
use libre_win.Heap.Search.{IsFree}
use libre_win.Heap.Live.{IsHeap}
use libre_win.Memory.Laws.{within}
use libre_win.Kheap.{Kernel, kzalloc}
use libre_win.Kheap.Laws.{kzalloc_lem}

abbrev small_heap : Heap
small_heap = record { table = record { entries = λ i. 0; total = 4 }; saddr = 0x1000000 }

-- A kernel with a heap of four free blocks and a memory full of ones.
abbrev kernel : Kernel
kernel = record { mem = λ x. 1; kernel_heap = small_heap }

small_heap-IsHeap : IsHeap small_heap []
small_heap-IsHeap = record {
  aligned = refl;
  not_null = omega arith;
  bounded = omega arith;
  small = omega arith;
  chunks = tt;
  apart = tt;
  rest = λ x p c. refl;
}

small_heap-IsFree : IsFree small_heap.table.entries 0 2
unfolding heap_get_entry_type
small_heap-IsFree j p q = refl

kzalloc_lem_example :
    let (p, k') = kzalloc kernel 5000 in
    (b : ℕ) × (p ≡ 0x1000000 + b * 4096)
    × (b + 2 ≤ 4)
    × IsHeap k'.kernel_heap ((b, 2) ∷ [])
    × ((x : ℕ) → k'.mem x ≡ (if within p 5000 x then 0 else 1))
kzalloc_lem_example =
    kzalloc_lem kernel 5000 0 small_heap-IsHeap (omega arith) (omega arith) (omega arith)
      small_heap-IsFree
