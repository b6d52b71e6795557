-- ===== src/Heap/Malloc.antt =====
-- heap_malloc and heap_free of heap.c: every outcome of a request, and the round trip.
use libre_win.Prelude.{
  ℕ, ◌+◌, ◌-◌, ◌*◌, ◌/◌, ◌^◌, ◌≤◌, ◌<◌, ◌≡◌, refl, Option, some, List, ◌∷◌, arith, ltb,
  if◌then◌else◌, ap,
}
use libre_win.Prelude.Int.{pos}
use libre_win.Heap.{
  Heap, block_or_enomem, malloc_at, heap_block_to_address, heap_mark_blocks_taken,
  heap_malloc_blocks, heap_mark_blocks_free, heap_address_to_block, free_from, heap_free,
  heap_malloc, heap_align_value_to_upper,
}
use libre_win.Heap.Search.{
  IsFree, IsBlocked, HasNoRun, Found, fits, overruns, full, heap_get_start_block-Found,
}
use libre_win.Heap.Live.{Chunk, IsHeap, Pick, Pick-IsChunk}
use libre_win.Heap.Alloc.{heap_mark_blocks_taken-IsHeap, heap_mark_blocks_free-IsHeap}

-- The least number of blocks that hold `size` bytes.
abbrev pub blocks_for : ℕ → ℕ
blocks_for size = (size + 4095) / 4096

-- A size is rounded up to the next multiple of the block size, unless that is 2 ^ 32 or more: then
-- the sum wraps to 0.
pub heap_align_value_to_upper_lem :
    (val : ℕ)
    → val < 2 ^ 32
    → heap_align_value_to_upper val ≡ (if ltb (2 ^ 32 - 4096) val then 0 else blocks_for val * 4096)
unfolding heap_align_value_to_upper
heap_align_value_to_upper_lem val h = ground arith

-- What a request for `n` blocks can answer: the lowest run of `n` free blocks, which then is in use;
-- the null pointer, with the heap unchanged; or, where no run of `n` free blocks is left but the
-- last block is free, the free blocks at the end, with the marks written past the end of the table.
pub data Outcome (h : Heap) (live : List Chunk) (n : ℕ) : ℕ × Heap → Type 0 where
  given :
      {h' : Heap} (b : ℕ)
      → b + n ≤ h.table.total
      → IsFree h.table.entries b (b + n)
      → ((s : ℕ) → s < b → ¬ IsFree h.table.entries s (s + n))
      → h' ≡ heap_mark_blocks_taken h b n
      → IsHeap h' ((b, n) ∷ live)
      → Outcome h live n (h.saddr + b * 4096, h')
  refused :
      HasNoRun h.table.entries n h.table.total
      → IsBlocked h.table.entries h.table.total
      → Outcome h live n (0, h)
  spilled :
      {h' : Heap} (b : ℕ)
      → b < h.table.total
      → h.table.total < b + n
      → IsFree h.table.entries b h.table.total
      → HasNoRun h.table.entries n h.table.total
      → h' ≡ heap_mark_blocks_taken h b n
      → Outcome h live n (h.saddr + b * 4096, h')

module _ (h : Heap) {live : List Chunk} (v : IsHeap h live) where
  heap_block_to_address_lem :
      (b : ℕ) → b ≤ h.table.total → heap_block_to_address h b ≡ h.saddr + b * 4096
  unfolding heap_block_to_address
  heap_block_to_address_lem b le = omega (arith, v.bounded)

  Found-Outcome :
      (n : ℕ) {r : Option ℕ}
      → 0 < n
      → Found h.table.entries h.table.total n r
      → Outcome h live n (malloc_at h n (block_or_enomem r))
  unfolding malloc_at block_or_enomem
  Found-Outcome n positive (fits {b} inside free first) =
      rw (heap_block_to_address_lem b (omega arith)) (
        given b inside free first refl (heap_mark_blocks_taken-IsHeap h v b n positive inside free))
  Found-Outcome n positive (overruns {b} low high free no_run) =
      rw (heap_block_to_address_lem b (omega arith)) (spilled b low high free no_run refl)
  Found-Outcome n positive (full no_run blocked) = refused no_run blocked

  heap_malloc_blocks-Outcome : (n : ℕ) → 0 < n → Outcome h live n (heap_malloc_blocks h n)
  unfolding heap_malloc_blocks
  heap_malloc_blocks-Outcome n positive =
      let (r, e, found) = heap_get_start_block-Found h n positive in
      rw e (Found-Outcome n positive found)

  heap_malloc-blocks_for :
      (size : ℕ)
      → size + 4095 < 2 ^ 32
      → heap_malloc h size ≡ heap_malloc_blocks h (blocks_for size)
  unfolding heap_malloc
  heap_malloc-blocks_for size small =
      ap (heap_malloc_blocks h) (ground (arith, heap_align_value_to_upper_lem size))

  -- heap_malloc on a valid heap, for a request of at least one byte that does not wrap around, hands out the
  -- first run of as many free blocks as hold the bytes, or refuses where there is none and the last block is
  -- in use, or, where there is none and the last block is free, takes the free blocks at the end and marks
  -- past the table.
  pub heap_malloc-Outcome :
      (size : ℕ)
      → 0 < size
      → size + 4095 < 2 ^ 32
      → Outcome h live (blocks_for size) (heap_malloc h size)
  heap_malloc-Outcome size positive small =
      rw (heap_malloc-blocks_for size small)
        (heap_malloc_blocks-Outcome (blocks_for size) (omega arith))

  heap_address_to_block_lem :
      (b : ℕ) → b < h.table.total → heap_address_to_block h (h.saddr + b * 4096) ≡ pos b
  unfolding heap_address_to_block
  heap_address_to_block_lem b lt = ground (arith, v.bounded, v.small)

  pub heap_free-heap_mark_blocks_free :
      (b : ℕ)
      → b < h.table.total
      → heap_free h (h.saddr + b * 4096) ≡ some (heap_mark_blocks_free h b)
  unfolding heap_free free_from
  heap_free-heap_mark_blocks_free b lt = rw (heap_address_to_block_lem b lt)

  -- In a valid heap, freeing the address of an allocation in use succeeds and leaves a valid heap without that
  -- allocation.
  pub heap_free-IsHeap :
      {s n : ℕ} {rest : List Chunk}
      → Pick (s, n) live rest
      → (h' : Heap) × (heap_free h (h.saddr + s * 4096) ≡ some h') × IsHeap h' rest
  heap_free-IsHeap {s} {n} p =
      let (chunk, others) = Pick-IsChunk h.table.entries h.table.total p v.chunks in
      (
        heap_mark_blocks_free h s,
        heap_free-heap_mark_blocks_free s (omega arith),
        heap_mark_blocks_free-IsHeap h v p,
      )
