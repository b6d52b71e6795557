-- ===== src/Heap/Alloc.antt =====
-- heap_malloc_blocks and heap_free of heap.c keep the invariant, and what they answer.
use libre_win.Prelude.{
  ℕ, ◌+◌, ◌≤◌, ◌<◌, ◌≡◌, false, List, ◌∷◌, arith, if◌then◌else◌, Bool-cases, inl, inr,
}
use libre_win.Memory.Laws.{within}
use libre_win.Heap.{Heap, heap_get_entry_type, heap_mark_blocks_taken, heap_mark_blocks_free}
use libre_win.Heap.Marks.{
  heap_mark_blocks_taken_lem, heap_mark_blocks_free_lem, block_entry-IsChain,
}
use libre_win.Heap.Search.{IsFree}
use libre_win.Heap.Live.{
  Chunk, covers, IsChunk, AllChunks, IsApart, AllApart, IsHeap, Pick, free-IsApart, AllChunks-frame,
  taken_of_covers, Pick-IsChunk, not_covered_of_IsApart, covers-Pick, AllApart-Pick,
}

module _ (h : Heap) {live : List Chunk} (v : IsHeap h live) where
  pub not_covered_free :
      (x : ℕ) → heap_get_entry_type (h.table.entries x) ≡ 0 → covers live x ≡ false
  not_covered_free x free = elim (Bool-cases (covers live x)) [
    | inl c ↦
        absurd
          (omega (arith, taken_of_covers h.table.entries h.table.total live x v.chunks c, free))
    | inr c ↦ c
  ]

  -- Marking a run of free blocks as taken adds it to the chunks in use.
  pub heap_mark_blocks_taken-IsHeap :
      (b n : ℕ)
      → 0 < n
      → b + n ≤ h.table.total
      → IsFree h.table.entries b (b + n)
      → IsHeap (heap_mark_blocks_taken h b n) ((b, n) ∷ live)
  unfolding heap_mark_blocks_taken
  heap_mark_blocks_taken-IsHeap b n positive inside free = record {
    aligned = v.aligned;
    not_null = v.not_null;
    bounded = v.bounded;
    small = v.small;
    chunks = (
      (positive, inside, λ j p q. ground (arith, heap_mark_blocks_taken_lem h b n j)),
      AllChunks-frame h.table.entries h.table.total _ live
          (λ x c.
            ground
              (arith, heap_mark_blocks_taken_lem h b n x, not_covered_of_IsApart b n x live apart))
          v.chunks,
    );
    apart = (apart, v.apart);
    rest = λ x p c. ground (arith, heap_mark_blocks_taken_lem h b n x, v.rest x);
  }
    where
      apart : IsApart (b, n) live
      apart = free-IsApart h.table.entries h.table.total b n live positive free v.chunks

  -- Freeing from the first block of a chunk in use takes it out of the chunks in use.
  pub heap_mark_blocks_free-IsHeap :
      {s n : ℕ} {rest : List Chunk}
      → Pick (s, n) live rest
      → IsHeap (heap_mark_blocks_free h s) rest
  unfolding heap_mark_blocks_free
  heap_mark_blocks_free-IsHeap {s} {n} {rest} p = record {
    aligned = v.aligned;
    not_null = v.not_null;
    bounded = v.bounded;
    small = v.small;
    chunks =
        AllChunks-frame h.table.entries h.table.total _ rest
          (λ x c. ground (arith, cleared x, not_covered_of_IsApart s n x rest apart.0)) picked.1;
    apart = apart.1;
    rest = λ x q c. ground (arith, cleared x, covers-Pick p x, v.rest x);
  }
    where
      picked :
          IsChunk h.table.entries h.table.total (s, n)
          × AllChunks h.table.entries h.table.total rest
      picked = Pick-IsChunk h.table.entries h.table.total p v.chunks

      apart : IsApart (s, n) rest × AllApart rest
      apart = AllApart-Pick p v.apart

      cleared :
          (x : ℕ)
          → (heap_mark_blocks_free h s).table.entries x
            ≡ (if within s n x then 0 else h.table.entries x)
      cleared x =
          heap_mark_blocks_free_lem h s n x (block_entry-IsChain h.table.entries s n picked.0.2)
            picked.0.0 picked.0.1
