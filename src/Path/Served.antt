-- ===== src/Path/Served.antt =====
-- pparser.c on the kernel's heap: it serves as many requests as it has free blocks in a row.
use libre_win.Prelude.{ℕ, suc, ◌+◌, ◌≤◌, ◌<◌, ◌≡◌, ◌≢◌, arith, List, ◌∷◌, some, refl}
use libre_win.Heap.Search.{IsFree}
use libre_win.Heap.Live.{Chunk, IsHeap, here}
use libre_win.Heap.Malloc.{heap_free-IsHeap}
use libre_win.Kheap.{Kernel, kzalloc, kfree, with_heap, kernel_allocator}
use libre_win.Kheap.Block.{kzalloc-GotBlock}
use libre_win.Path.Split.{Serves}

-- A valid heap with `n` free blocks in a row.
abbrev pub HasFreeBlocks : ℕ → Kernel → Type 0
HasFreeBlocks n k =
    (live : List Chunk) × (s : ℕ) × IsHeap k.kernel_heap live
    × (s + n ≤ k.kernel_heap.table.total)
    × IsFree k.kernel_heap.table.entries s (s + n)

pub kernel_gives :
    (n : ℕ) (k : Kernel) (size : ℕ)
    → 0 < size
    → size ≤ 4096
    → HasFreeBlocks (suc n) k
    → ((kzalloc k size).0 ≢ 0) × HasFreeBlocks n (kzalloc k size).1
kernel_gives n k size positive small (live, s, v, inside, run) =
    let (b, k', got) = kzalloc-GotBlock k size s n v positive small inside run in
    rw (got.answer) (
      (λ e. absurd (omega (arith, e, v.not_null))),
      ((b, 1) ∷ live, suc s, got.valid, omega (arith, got.same_total), got.free),
    )

pub kernel_frees :
    (n : ℕ) (k : Kernel) (size : ℕ)
    → 0 < size
    → size ≤ 4096
    → HasFreeBlocks (suc n) k
    → (k'' : Kernel) × (kfree (kzalloc k size).1 (kzalloc k size).0 ≡ some k'')
unfolding kfree with_heap
kernel_frees n k size positive small (live, s, v, inside, run) =
    let (b, k', got) = kzalloc-GotBlock k size s n v positive small inside run in
    let (h, e, _) = heap_free-IsHeap k'.kernel_heap got.valid {s = b} {n = 1} here in
    rw (got.answer) (record k' { kernel_heap = h }, rw (rw (got.same_saddr) at e) refl)

abbrev pub kernel_serves : Serves kernel_allocator
kernel_serves = record { ReadyFor = HasFreeBlocks; gives = kernel_gives; frees = kernel_frees }
