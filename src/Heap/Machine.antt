-- ===== src/Heap/Machine.antt =====
-- Runs of the allocator of heap.c: requests and frees in any order, by a client that frees only what
-- it holds.
use libre_win.Prelude.{ℕ, ◌+◌, ◌*◌, ◌^◌, ◌≤◌, ◌<◌, ◌≡◌, List, ◌∷◌, some, arith, ap}
use mathlib.Core.Path.{subst, subst₂, sym, ◌∙◌}
use mathlib.Core.Option.{some-injective}
use libre_win.Heap.{Heap, heap_malloc, heap_free}
use libre_win.Heap.Search.{IsFree}
use libre_win.Heap.Live.{Chunk, IsHeap, Pick}
use libre_win.Heap.Malloc.{
  blocks_for, Outcome, given, refused, spilled, heap_malloc-Outcome, heap_free-IsHeap,
}

-- A state of a run: the heap and the allocations that the client holds.
pub record Run : Type 0 where
  pub heap : Heap
  pub live : List Chunk

-- A request is made while a long enough run of free blocks is there (the code checks this wrongly,
-- see RoundTrip); the client holds the blocks at the address that was answered.
pub data Step : Run → Run → Type 0 where
  malloc :
      {h h' : Heap} {live : List Chunk} (size s b : ℕ)
      → 0 < size
      → size + 4095 < 2 ^ 32
      → s + blocks_for size ≤ h.table.total
      → IsFree h.table.entries s (s + blocks_for size)
      → heap_malloc h size ≡ (h.saddr + b * 4096, h')
      → Step
          (record { heap = h; live = live })
          (record { heap = h'; live = (b, blocks_for size) ∷ live })
  free :
      {h h' : Heap} {live rest : List Chunk} (s n : ℕ)
      → Pick (s, n) live rest
      → heap_free h (h.saddr + s * 4096) ≡ some h'
      → Step (record { heap = h; live = live }) (record { heap = h'; live = rest })

pub data Reach (r : Run) : Run → Type 0 where
  start : Reach r r
  next : {s t : Run} → Reach r s → Step s t → Reach r t

given-IsHeap :
    {h h' : Heap} {live : List Chunk} {n : ℕ} {o : ℕ × Heap} (s b : ℕ)
    → s + n ≤ h.table.total
    → IsFree h.table.entries s (s + n)
    → Outcome h live n o
    → o ≡ (h.saddr + b * 4096, h')
    → IsHeap h' ((b, n) ∷ live)
given-IsHeap {live} {n} s b inside run (given c fit _ first e valid) eq =
    let same : c ≡ b = omega (arith, ap (λ (o : ℕ × Heap). o.0) eq) in
    subst₂ (λ k g. IsHeap g ((k, n) ∷ live)) same (ap (λ (o : ℕ × Heap). o.1) eq) valid
given-IsHeap s b inside run (refused no_run blocked) eq = absurd (no_run s inside run)
given-IsHeap s b inside run (spilled c low high _ no_run e) eq = absurd (no_run s inside run)

Step-IsHeap : {r t : Run} → Step r t → IsHeap r.heap r.live → IsHeap t.heap t.live
Step-IsHeap (malloc {h} size s b positive small inside run e) v =
    given-IsHeap s b inside run (heap_malloc-Outcome h v size positive small) e
Step-IsHeap (free {h} {rest} s n p e) v =
    let (g, freed, valid) = heap_free-IsHeap h v p in
    subst (λ k. IsHeap k rest) (some-injective g _ (sym freed ∙ e)) valid

-- Allocations of at least one byte for which a run of free blocks that is long enough is there, and frees of
-- allocations in use, in any order and number, lead from a valid heap to a valid one: no two allocations in
-- use share a block, and the table says which blocks they have.
pub Reach-IsHeap : {r t : Run} → IsHeap r.heap r.live → Reach r t → IsHeap t.heap t.live
Reach-IsHeap v start = v
Reach-IsHeap v (next r s) = Step-IsHeap s (Reach-IsHeap v r)
