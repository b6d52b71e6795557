-- ===== src/Kheap/Block.antt =====
-- kheap.c: kzalloc of at most one block, while a run of free blocks is left.
use libre_win.Prelude.{ℕ, suc, ◌+◌, ◌*◌, ◌≤◌, ◌<◌, ◌≡◌, false, List, ◌∷◌, arith, ap, if◌then◌else◌}
use native.Mathlib.Decide.{dec_lt}
use libre_win.Memory.{memset}
use libre_win.Memory.Laws.{within, memset_lem}
use libre_win.Heap.{Heap, heap_mark_blocks_taken}
use libre_win.Heap.Marks.{heap_mark_blocks_taken_lem, heap_mark_blocks_taken-place}
use libre_win.Heap.Search.{IsFree}
use libre_win.Heap.Live.{Chunk, IsHeap, covers, not_covered_of_IsApart}
use libre_win.Heap.Malloc.{blocks_for, Outcome, given, refused, spilled, heap_malloc-Outcome}
use libre_win.Kheap.{Kernel, kzalloc}
use libre_win.Kheap.Laws.{kzalloc_of_kmalloc}

-- The kernel after `size` bytes were given from block `b`, a block that was in use by none before. Of a run of free
-- blocks from `s` on, `n` are left.
pub record GotBlock (k : Kernel) (live : List Chunk) (s n size b : ℕ) (k' : Kernel) : Type 0 where
  pub answer : kzalloc k size ≡ (k.kernel_heap.saddr + b * 4096, k')
  pub fits : b < k.kernel_heap.table.total
  pub unused : covers live b ≡ false
  pub valid : IsHeap k'.kernel_heap ((b, 1) ∷ live)
  pub same_saddr : k'.kernel_heap.saddr ≡ k.kernel_heap.saddr
  pub same_total : k'.kernel_heap.table.total ≡ k.kernel_heap.table.total
  pub free : IsFree k'.kernel_heap.table.entries (suc s) (suc s + n)
  pub bytes :
      (x : ℕ) → k'.mem x ≡ (if within (k.kernel_heap.saddr + b * 4096) size x then 0 else k.mem x)

-- The lowest free block lies at `s` or below.
lowest_block :
    (h : Heap) {live : List Chunk} {o : ℕ × Heap} (s n : ℕ)
    → s + suc n ≤ h.table.total
    → IsFree h.table.entries s (s + suc n)
    → Outcome h live 1 o
    → (b : ℕ) × (b ≤ s)
      × (b < h.table.total)
      × (o ≡ (h.saddr + b * 4096, heap_mark_blocks_taken h b 1))
      × IsHeap (heap_mark_blocks_taken h b 1) ((b, 1) ∷ live)
lowest_block h s n inside run (given b fit free first e valid) = elim (dec_lt s b) [
  | yes below ↦ absurd (first s below (λ j p q. run j p (omega arith)))
  | no above ↦ (b, omega arith, omega arith, ap (λ g. (h.saddr + b * 4096, g)) e, rw e at valid)
]
lowest_block h s n inside run (refused no_run blocked) =
    absurd (no_run s (omega arith) (λ j p q. run j p (omega arith)))
lowest_block h s n inside run (spilled b low high free no_run e) =
    absurd (no_run s (omega arith) (λ j p q. run j p (omega arith)))

-- The rest of the run stays free.
rest-IsFree :
    (h : Heap) (s n b : ℕ)
    → b ≤ s
    → IsFree h.table.entries s (s + suc n)
    → IsFree (heap_mark_blocks_taken h b 1).table.entries (suc s) (suc s + n)
rest-IsFree h s n b low run j p q =
    ground (arith, heap_mark_blocks_taken_lem h b 1 j, run j (omega arith) (omega arith))

-- In a valid heap with a run of free blocks from `s` on, a request for one block's bytes, at least one, is met.
pub kzalloc-GotBlock :
    (k : Kernel) {live : List Chunk} (size s n : ℕ)
    → IsHeap k.kernel_heap live
    → 0 < size
    → size ≤ 4096
    → s + suc n ≤ k.kernel_heap.table.total
    → IsFree k.kernel_heap.table.entries s (s + suc n)
    → (b : ℕ) × (k' : Kernel) × GotBlock k live s n size b k'
kzalloc-GotBlock k {live} size s n v positive small inside run =
    let one : blocks_for size ≡ 1 = omega arith in
    let outcome = heap_malloc-Outcome k.kernel_heap v size positive (omega arith) in
    let (b, low, fit, e, valid) = lowest_block k.kernel_heap s n inside run (rw one at outcome) in
    (
      b,
      record {
        mem = memset k.mem (k.kernel_heap.saddr + b * 4096) 0 size;
        kernel_heap = heap_mark_blocks_taken k.kernel_heap b 1;
      },
      record {
        answer = kzalloc_of_kmalloc k size _ _ e (omega (arith, v.not_null));
        fits = fit;
        unused = not_covered_of_IsApart b 1 b live valid.apart.0 (ground arith);
        valid = valid;
        same_saddr = (heap_mark_blocks_taken-place k.kernel_heap b 1).0;
        same_total = (heap_mark_blocks_taken-place k.kernel_heap b 1).1;
        free = rest-IsFree k.kernel_heap s n b low run;
        bytes = λ x. memset_lem k.mem (k.kernel_heap.saddr + b * 4096) 0 size x;
      },
    )
