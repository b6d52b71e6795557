-- ===== src/Heap/Marks.antt =====
-- heap_mark_blocks_taken and heap_mark_blocks_free of heap.c, entry by entry.
use libre_win.Prelude.{
  ℕ, zero, suc, ◌+◌, ◌-◌, ◌≤◌, ◌<◌, ◌≡◌, refl, bit_and, ◌&&◌, arith, ltb, leb, ◌==◌, if◌then◌else◌,
  Bool-cases, inl, inr,
}
use libre_win.Memory.{Mem, write}
use libre_win.Memory.Laws.{within}
use libre_win.Heap.{
  Heap, has_next, mark_taken_loop, heap_mark_blocks_taken, mark_free_loop, heap_mark_blocks_free,
}

-- The entry of block `i` of an allocation of `n` blocks from block `s` on: it is taken, the first
-- block says so, and every block but the last says that another one follows.
abbrev pub block_entry : ℕ → ℕ → ℕ → ℕ
block_entry s n i = (if i == s then 0x41 else 0x01) + (if ltb (i + 1) (s + n) then 0x80 else 0)

mark_taken_loop_lem :
    (left i stop entry : ℕ) (entries : Mem) (x : ℕ)
    → i + left ≡ stop
    → mark_taken_loop left i stop entry entries x ≡ (
        if within i left x
        then (if x == i then entry else (if ltb (x + 1) stop then 0x81 else 0x01))
        else entries x)
unfolding mark_taken_loop write
mark_taken_loop_lem zero i stop entry entries x e = ground arith
mark_taken_loop_lem (suc left) i stop entry entries x e = ground (
  arith,
  mark_taken_loop_lem left (i + 1) stop (if (i + 2) == stop then 0x01 else 0x81)
      (write entries i entry) x (omega arith),
)

-- Marking `n` blocks from `s` on as taken writes the entries of an allocation there, and no other.
pub heap_mark_blocks_taken_lem :
    (h : Heap) (s n x : ℕ)
    → (heap_mark_blocks_taken h s n).table.entries x
      ≡ (if within s n x then block_entry s n x else h.table.entries x)
unfolding heap_mark_blocks_taken
heap_mark_blocks_taken_lem h s n x =
    ground (
      arith,
      mark_taken_loop_lem n s (s + n) (if ltb 1 n then 0xc1 else 0x41) h.table.entries x refl,
    )

-- It changes neither the place of the heap nor its size.
pub heap_mark_blocks_taken-place :
    (h : Heap) (s n : ℕ)
    → let h' = heap_mark_blocks_taken h s n in
      (h'.saddr ≡ h.saddr) × (h'.table.total ≡ h.table.total)
unfolding heap_mark_blocks_taken
heap_mark_blocks_taken-place h s n = (refl, refl)

-- Among the blocks from `lo` to `stop` every one but the last says that another one follows.
abbrev pub IsChain : Mem → ℕ → ℕ → Type 0
IsChain entries lo stop =
    (j : ℕ) → lo ≤ j → j < stop → (bit_and (entries j) has_next == 0) ≡ leb stop (j + 1)

mark_free_loop_lem :
    (left i stop : ℕ) (entries : Mem) (x : ℕ)
    → IsChain entries i stop
    → i < stop
    → stop ≤ i + left
    → mark_free_loop left i entries x ≡ (if leb i x && ltb x stop then 0 else entries x)
unfolding mark_free_loop write
mark_free_loop_lem zero i stop entries x chain h k = absurd (omega arith)
mark_free_loop_lem (suc left) i stop entries x chain h k = elim (Bool-cases (leb stop (i + 1))) [
  | inl last ↦ ground (arith, chain i)
  | inr more ↦ ground (
    arith,
    chain i,
    mark_free_loop_lem left (i + 1) stop (write entries i 0) x (λ j p q. ground (arith, chain j))
        (ground arith) (omega arith),
  )
]

-- Freeing from the first block of a chain clears the entries of the chain, and no other.
pub heap_mark_blocks_free_lem :
    (h : Heap) (s n x : ℕ)
    → IsChain h.table.entries s (s + n)
    → 0 < n
    → s + n ≤ h.table.total
    → (heap_mark_blocks_free h s).table.entries x ≡ (if within s n x then 0 else h.table.entries x)
unfolding heap_mark_blocks_free
heap_mark_blocks_free_lem h s n x chain pos fits =
    mark_free_loop_lem (h.table.total - s) s (s + n) h.table.entries x chain (omega arith)
      (omega arith)

-- What was marked as taken is a chain, so freeing it undoes the marks.
pub block_entry-IsChain :
    (entries : Mem) (s n : ℕ)
    → ((j : ℕ) → s ≤ j → j < s + n → entries j ≡ block_entry s n j)
    → IsChain entries s (s + n)
block_entry-IsChain entries s n marked j p q = ground (arith, marked j)
