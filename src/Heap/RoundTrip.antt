-- ===== src/Heap/RoundTrip.antt =====
-- heap.c: what a request answers when a run of free blocks is there, freeing what was just
-- allocated, and the request that spills over the end of the table.
use libre_win.Prelude.{ℕ, ◌+◌, ◌*◌, ◌^◌, ◌≤◌, ◌<◌, ◌≡◌, refl, some, List, ◌∷◌, arith, ap}
use libre_win.Heap.{Heap, heap_mark_blocks_taken, heap_mark_blocks_free, heap_free, heap_malloc}
use libre_win.Heap.Marks.{
  block_entry, heap_mark_blocks_taken_lem, heap_mark_blocks_free_lem, block_entry-IsChain,
}
use libre_win.Heap.Search.{IsFree, IsBlocked, HasNoRun}
use libre_win.Heap.Live.{Chunk, IsHeap}
use libre_win.Heap.Alloc.{not_covered_free}
use libre_win.Heap.Malloc.{
  blocks_for, Outcome, given, refused, spilled, heap_malloc-Outcome,
  heap_free-heap_mark_blocks_free,
}

module _ (h : Heap) {live : List Chunk} (v : IsHeap h live) where
  free_marked :
      (b n : ℕ)
      → 0 < n
      → b + n ≤ h.table.total
      → IsFree h.table.entries b (b + n)
      → (x : ℕ)
      → (heap_mark_blocks_free (heap_mark_blocks_taken h b n) b).table.entries x ≡ h.table.entries x
  unfolding heap_mark_blocks_taken
  free_marked b n positive inside free x = ground (
    arith,
    heap_mark_blocks_free_lem (heap_mark_blocks_taken h b n) b n x
        (block_entry-IsChain _ b n (λ j p q. ground (arith, heap_mark_blocks_taken_lem h b n j)))
        positive inside,
    heap_mark_blocks_taken_lem h b n x,
    free x,
    not_covered_free h v x,
    v.rest x,
  )

  -- A run of `n` free blocks rules out every outcome but the first.
  pub given_of_run :
      {n : ℕ} {o : ℕ × Heap} (s : ℕ)
      → s + n ≤ h.table.total
      → IsFree h.table.entries s (s + n)
      → Outcome h live n o
      → (b : ℕ) × (b + n ≤ h.table.total)
        × IsFree h.table.entries b (b + n)
        × (o ≡ (h.saddr + b * 4096, heap_mark_blocks_taken h b n))
        × IsHeap (heap_mark_blocks_taken h b n) ((b, n) ∷ live)
  given_of_run s inside run (given b fit free first e valid) =
      (b, fit, free, ap (λ g. (h.saddr + b * 4096, g)) e, rw e at valid)
  given_of_run s inside run (refused no_run blocked) = absurd (no_run s inside run)
  given_of_run s inside run (spilled b low high free no_run e) = absurd (no_run s inside run)

  -- If a run of free blocks that is long enough is there in a valid heap, then a request for at least one byte,
  -- which does not wrap around, succeeds, and freeing the address that it answered gives back the table as it
  -- was, entry by entry.
  pub heap_free-heap_malloc :
      (size s : ℕ)
      → 0 < size
      → size + 4095 < 2 ^ 32
      → s + blocks_for size ≤ h.table.total
      → IsFree h.table.entries s (s + blocks_for size)
      → let (p, h') = heap_malloc h size in
        (0 < p)
        × (g : Heap) × (heap_free h' p ≡ some g)
        × ((x : ℕ) → g.table.entries x ≡ h.table.entries x)
  unfolding heap_mark_blocks_taken
  heap_free-heap_malloc size s positive small inside run =
      let (b, fit, free, e, valid) =
        given_of_run s inside run (heap_malloc-Outcome h v size positive small) in
      rw e (
        omega (arith, v.not_null),
        heap_mark_blocks_free (heap_mark_blocks_taken h b (blocks_for size)) b,
        heap_free-heap_mark_blocks_free _ valid b (omega arith),
        free_marked b (blocks_for size) (omega arith) fit free,
      )

  spill_of_Outcome :
      {n : ℕ} {o : ℕ × Heap}
      → HasNoRun h.table.entries n h.table.total
      → ¬ IsBlocked h.table.entries h.table.total
      → Outcome h live n o
      → (b : ℕ) × (b < h.table.total)
        × (h.table.total < b + n)
        × (o ≡ (h.saddr + b * 4096, heap_mark_blocks_taken h b n))
  spill_of_Outcome no_run unblocked (given b fit free first e valid) = absurd (no_run b fit free)
  spill_of_Outcome no_run unblocked (refused _ blocked) = absurd (unblocked blocked)
  spill_of_Outcome no_run unblocked (spilled b low high free _ e) =
      (b, low, high, ap (λ g. (h.saddr + b * 4096, g)) e)

-- Where no run of free blocks in a valid heap is long enough but the last block is free, a request for at least one
-- byte that does not wrap around is not refused: it answers an address in the heap, and the entries behind the end of
-- the table, up to the number of blocks asked for, are overwritten with marks.
pub heap_malloc_spills :
    (h : Heap) {live : List Chunk}
    → IsHeap h live
    → (size : ℕ) → 0 < size
    → size + 4095 < 2 ^ 32
    → HasNoRun h.table.entries (blocks_for size) h.table.total
    → ¬ IsBlocked h.table.entries h.table.total
    → (b : ℕ) × (b < h.table.total)
      × (h.table.total < b + blocks_for size)
      × ((heap_malloc h size).0 ≡ h.saddr + b * 4096)
      × ((x : ℕ)
          → h.table.total ≤ x
          → x < b + blocks_for size
          → (heap_malloc h size).1.table.entries x ≡ block_entry b (blocks_for size) x)
heap_malloc_spills h v size positive small no_run unblocked =
    let (b, low, high, e) =
      spill_of_Outcome h v no_run unblocked (heap_malloc-Outcome h v size positive small) in
    (
      b,
      low,
      high,
      rw e refl,
      λ x p q. rw e (ground (arith, heap_mark_blocks_taken_lem h b (blocks_for size) x)),
    )
