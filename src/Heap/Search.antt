-- ===== src/Heap/Search.antt =====
-- heap_get_start_block of heap.c: what the search for a run of free blocks finds.
use libre_win.Prelude.{
  ℕ, zero, suc, ◌+◌, ◌≤◌, ◌<◌, ◌≡◌, ◌≢◌, inl, inr, refl, Option, none, some, arith, ◌==◌,
  Bool-cases,
}
use native.Mathlib.Decide.{dec_lt}
use libre_win.Memory.{Mem}
use libre_win.Heap.{
  Heap, heap_get_entry_type, first_block, start_block_loop, block_or_enomem, heap_get_start_block,
}

-- Every block from `lo` to `hi` has the type of a free block.
abbrev pub IsFree : Mem → ℕ → ℕ → Type 0
IsFree entries lo hi = (j : ℕ) → lo ≤ j → j < hi → heap_get_entry_type (entries j) ≡ 0

-- No run of free blocks that ends at `b` can be lengthened downwards: the block before is taken.
abbrev pub IsBlocked : Mem → ℕ → Type 0
IsBlocked entries b = (s : ℕ) → s < b → ¬ IsFree entries s b

-- No run of `n` free blocks lies below `hi`.
abbrev pub HasNoRun : Mem → ℕ → ℕ → Type 0
HasNoRun entries n hi = (s : ℕ) → s + n ≤ hi → ¬ IsFree entries s (s + n)

-- The three outcomes of a search for `n` free blocks among `total`: the lowest run of `n` free blocks;
-- the free blocks at the end of the table, which are fewer than `n`, if there is no run of `n`;
-- and no block, if there is no run of `n` and the last block is taken.
pub data Found (entries : Mem) (total n : ℕ) : Option ℕ → Type 0 where
  fits :
      {b : ℕ}
      → b + n ≤ total
      → IsFree entries b (b + n)
      → ((s : ℕ) → s < b → ¬ IsFree entries s (s + n))
      → Found entries total n (some b)
  overruns :
      {b : ℕ}
      → b < total
      → total < b + n
      → IsFree entries b total
      → HasNoRun entries n total
      → Found entries total n (some b)
  full : HasNoRun entries n total → IsBlocked entries total → Found entries total n none

-- The open run begins at `b` and has `bc` blocks so far; an empty run is `none`.
abbrev IsRun : Option ℕ → ℕ → ℕ → Type 0
IsRun none b bc = bc ≡ 0
IsRun (some bs) b bc = (bs ≡ b) × (0 < bc)

IsRun-first_block :
    (bs : Option ℕ) (b bc i : ℕ) → b + bc ≡ i → IsRun bs b bc → first_block bs i ≡ some b
unfolding first_block
IsRun-first_block none b bc i e r = ground arith
IsRun-first_block (some bs) b bc i e r = ground arith

module _ (entries : Mem) (n : ℕ) (pos_n : 0 < n) where
  taken-IsBlocked : (i : ℕ) → heap_get_entry_type (entries i) ≢ 0 → IsBlocked entries (i + 1)
  taken-IsBlocked i taken s h free = taken (free i (omega arith) (omega arith))

  taken-HasNoRun :
      (i : ℕ)
      → heap_get_entry_type (entries i) ≢ 0
      → HasNoRun entries n i
      → HasNoRun entries n (i + 1)
  taken-HasNoRun i taken before s h free = elim (dec_lt i (s + n)) [
    | yes p ↦ taken (free i (omega arith) p)
    | no p ↦ before s (omega arith) free
  ]

  IsFree-suc :
      (b i : ℕ)
      → heap_get_entry_type (entries i) ≡ 0
      → IsFree entries b i
      → IsFree entries b (i + 1)
  IsFree-suc b i free run j p q = elim (dec_lt j i) [
    | yes h ↦ run j p h
    | no h ↦ let e : j ≡ i = omega arith in rw e free
  ]

  -- Behind a taken block a run shorter than `n` holds no run of `n`.
  short-HasNoRun :
      (b bc i : ℕ)
      → b + bc ≡ i
      → bc + 1 < n
      → IsBlocked entries b
      → HasNoRun entries n i
      → HasNoRun entries n (i + 1)
  short-HasNoRun b bc i e short blocked before s h free = elim (dec_lt i (s + n)) [
    | yes p ↦ blocked s (omega arith) (λ j lo hi. free j lo (omega arith))
    | no p ↦ before s (omega arith) free
  ]

  start_block_loop-Found :
      (left i b bc total : ℕ) (bs : Option ℕ)
      → i + left ≡ total
      → b + bc ≡ i
      → IsRun bs b bc
      → bc < n
      → IsFree entries b i
      → IsBlocked entries b
      → HasNoRun entries n i
      → Found entries total n (start_block_loop entries n left i bc bs)
  unfolding start_block_loop
  start_block_loop-Found zero i b bc total none e run r short free blocked no_run =
      let e1 : i ≡ total = omega arith in
      let e2 : b ≡ total = omega arith in full (rw e1 at no_run) (rw e2 at blocked)
  start_block_loop-Found zero i b bc total (some bs) e run r short free blocked no_run =
      let e1 : i ≡ total = omega arith in
      rw r.0 (overruns (omega arith) (omega arith) (rw e1 at free) (rw e1 at no_run))
  start_block_loop-Found (suc left) i b bc total bs e run r short free blocked no_run =
      elim (Bool-cases (heap_get_entry_type (entries i) == 0)) [
        | inl is_free ↦
            let run' : IsFree entries b (i + 1) = IsFree-suc b i (ground arith) free in
            rw (is_free, IsRun-first_block bs b bc i run r)
              (elim (Bool-cases ((bc + 1) == n)) [
                | inl enough ↦
                    let e3 : i + 1 ≡ b + n = ground arith in
                    rw enough (fits (omega arith) (rw e3 at run') (λ s h. no_run s (omega arith)))
                | inr more ↦ rw more (
                    start_block_loop-Found left (i + 1) b (bc + 1) total (some b) (omega arith)
                      (omega arith) (refl, omega arith) (ground arith) run' blocked
                      (short-HasNoRun b bc i run (ground arith) blocked no_run))
              ])
        | inr taken ↦ rw taken (
            start_block_loop-Found left (i + 1) (i + 1) 0 total none (omega arith) (omega arith)
              refl pos_n (λ j p q. absurd (omega arith)) (taken-IsBlocked i (ground arith))
              (taken-HasNoRun i (ground arith) no_run))
      ]

-- The search for at least one block answers with the number of the first block of the first run of free
-- blocks that is long enough, or, where there is none, with the first block of a shorter free run at the
-- end of the table, or with -ENOMEM where the last block is in use.
pub heap_get_start_block-Found :
    (h : Heap) (n : ℕ)
    → 0 < n
    → (r : Option ℕ) × (heap_get_start_block h n ≡ block_or_enomem r)
      × Found h.table.entries h.table.total n r
unfolding heap_get_start_block
heap_get_start_block-Found h n pos_n = (
  start_block_loop h.table.entries n h.table.total 0 0 none,
  refl,
  start_block_loop-Found h.table.entries n pos_n h.table.total 0 0 0 h.table.total none
      (omega arith) (omega arith) refl pos_n (λ j p q. absurd (omega arith))
      (λ s p. absurd (omega arith)) (λ s p. absurd (omega arith)),
)
