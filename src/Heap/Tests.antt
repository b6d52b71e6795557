-- ===== src/Heap/Tests.antt =====
-- The theorems of heap.c at a heap of four blocks, and runs of the allocator on it.
use libre_win.Prelude.{
  ℕ, zero, suc, ◌+◌, ◌*◌, ◌≤◌, ◌<◌, ◌≡◌, refl, some, [], ◌∷◌, arith, ◌==◌, if◌then◌else◌,
}
use libre_win.Heap.{
  Heap, heap_get_entry_type, heap_get_start_block, heap_malloc, heap_malloc_blocks, heap_free,
  heap_block_to_address, heap_mark_blocks_taken, heap_align_value_to_upper,
}
use libre_win.Heap.Marks.{block_entry}
use libre_win.Heap.Search.{IsFree, IsBlocked, HasNoRun}
use libre_win.Heap.Live.{IsHeap, here}
use libre_win.Heap.Malloc.{Outcome, heap_malloc-Outcome, heap_free-IsHeap}
use libre_win.Heap.RoundTrip.{heap_free-heap_malloc, heap_malloc_spills}
use libre_win.Heap.Machine.{Reach, start, next, malloc, Reach-IsHeap}

abbrev four : Heap
four = record { table = record { entries = λ i. 0; total = 4 }; saddr = 0x1000000 }

four-IsHeap : IsHeap four []
four-IsHeap = record {
  aligned = refl;
  not_null = omega arith;
  bounded = omega arith;
  small = omega arith;
  chunks = tt;
  apart = tt;
  rest = λ x p c. refl;
}

four-IsFree : (n : ℕ) → IsFree four.table.entries 0 n
unfolding heap_get_entry_type
four-IsFree n j p q = refl

-- Blocks 0 to 2 are taken and block 3 is free.
abbrev crowded : Heap
crowded = record {
  table = record {
    entries = λ i. if i == 0 then 0xc1 else if i == 1 then 0x81 else if i == 2 then 0x01 else 0;
    total = 4;
  };
  saddr = 0x1000000;
}

crowded_second : (heap_malloc crowded 100).0 ≡ 0x1003000
unfolding heap_malloc heap_malloc_blocks heap_align_value_to_upper heap_get_start_block
    heap_block_to_address heap_mark_blocks_taken
crowded_second = refl

-- Two blocks are asked for and one is left, at the end.
crowded_spills : (heap_malloc crowded 5000).0 ≡ 0x1003000
unfolding heap_malloc heap_malloc_blocks heap_align_value_to_upper heap_get_start_block
    heap_block_to_address heap_mark_blocks_taken
crowded_spills = refl

heap_malloc-Outcome_example : Outcome four [] 2 (heap_malloc four 5000)
heap_malloc-Outcome_example = heap_malloc-Outcome four four-IsHeap 5000 (omega arith) (omega arith)

crowded-IsHeap : IsHeap crowded ((0, 3) ∷ [])
crowded-IsHeap = record {
  aligned = refl;
  not_null = omega arith;
  bounded = omega arith;
  small = omega arith;
  chunks = ((omega arith, omega arith, λ j p q. ground arith), tt);
  apart = (tt, tt);
  rest = λ x p c. ground arith;
}

heap_free-IsHeap_example : (h : Heap) × (heap_free crowded 0x1000000 ≡ some h) × IsHeap h []
heap_free-IsHeap_example = heap_free-IsHeap crowded crowded-IsHeap {s = 0} {n = 3} here

heap_free-heap_malloc_example :
    let (p, h) = heap_malloc four 5000 in
    (0 < p) × (g : Heap) × (heap_free h p ≡ some g) × ((x : ℕ) → g.table.entries x ≡ 0)
heap_free-heap_malloc_example =
    heap_free-heap_malloc four four-IsHeap 5000 0 (omega arith) (omega arith) (omega arith)
      (four-IsFree 2)

crowded-HasNoRun : HasNoRun crowded.table.entries 2 4
unfolding heap_get_entry_type
crowded-HasNoRun zero p free = omega (arith, free 0 (omega arith) (omega arith))
crowded-HasNoRun (suc zero) p free = omega (arith, free 1 (omega arith) (omega arith))
crowded-HasNoRun (suc (suc zero)) p free = omega (arith, free 2 (omega arith) (omega arith))
crowded-HasNoRun (suc (suc (suc s))) p free = absurd (omega arith)

crowded_open : ¬ IsBlocked crowded.table.entries 4
unfolding heap_get_entry_type
crowded_open blocked = blocked 3 (omega arith) (λ j p q. ground arith)

heap_malloc_spills_example :
    (b : ℕ) × (b < 4)
    × (4 < b + 2)
    × ((heap_malloc crowded 5000).0 ≡ 0x1000000 + b * 4096)
    × ((x : ℕ)
        → 4 ≤ x
        → x < b + 2
        → (heap_malloc crowded 5000).1.table.entries x ≡ block_entry b 2 x)
heap_malloc_spills_example =
    heap_malloc_spills crowded crowded-IsHeap 5000 (omega arith) (omega arith) crowded-HasNoRun
      crowded_open

first_fit : heap_malloc four 5000 ≡ (0x1000000, heap_mark_blocks_taken four 0 2)
unfolding heap_malloc heap_malloc_blocks heap_align_value_to_upper heap_get_start_block
    heap_block_to_address
first_fit = refl

-- One request of two blocks.
one_request :
    Reach
      (record { heap = four; live = [] })
      (record { heap = heap_mark_blocks_taken four 0 2; live = (0, 2) ∷ [] })
one_request =
    next start (malloc 5000 0 0 (omega arith) (omega arith) (omega arith) (four-IsFree 2) first_fit)

Reach-IsHeap_example : IsHeap (heap_mark_blocks_taken four 0 2) ((0, 2) ∷ [])
Reach-IsHeap_example = Reach-IsHeap four-IsHeap one_request
