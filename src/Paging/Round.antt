-- ===== src/Paging/Round.antt =====
-- paging.c: one round of paging_new_4gb, which takes a table from the heap, fills it and enters it in the directory.
use native.Mathlib.Decide.{ℕ_discrete, dec_lt}
use libre_win.Prelude.{
  ℕ, ◌+◌, ◌*◌, ◌/◌, ◌%◌, ◌^◌, ◌≤◌, ◌<◌, ◌≡◌, ◌≢◌, ◌⊎◌, inl, inr, ◌∙◌, bit_or, true, List, arith, ap,
}
use libre_win.Prelude.Bits.{bit_or-add, bit_or_split, bit_or-zero, bit_or_low}
use libre_win.Memory.{Mem}
use libre_win.Memory.Words.{load32, store32, store32_frame, load32-ext}
use libre_win.Heap.Live.{Chunk, IsHeap, covers}
use libre_win.Kheap.{Kernel}
use libre_win.Kheap.Block.{GotBlock}
use libre_win.Paging.Chunk.{words_loop, with_mem, new_table}
use libre_win.Paging.Identity.{words_loop_frame}

-- The word of a directory for the table in block `b` of a heap at `a`.
abbrev pub table_word : ℕ → ℕ → ℕ → ℕ
table_word a flags b = a + b * 4096 + bit_or flags 2

pub bit_or_2 : (x : ℕ) → bit_or x 2 ≤ x + 2
bit_or_2 x = ground (arith, bit_or_low x 2, bit_or_low (x / 2) 1, bit_or-zero (x / 2 / 2))

-- The word that the code puts together.
pub directory_word :
    (p flags : ℕ) → p % 4096 ≡ 0 → flags < 4096 → bit_or (bit_or p flags) 2 ≡ p + bit_or flags 2
directory_word p flags aligned fits =
    let page : p / 4096 * 2 ^ 12 ≡ p = omega arith in
    let joined : bit_or p flags ≡ p + flags = rw page at (bit_or-add 12 (p / 4096) flags fits) in
    let split : bit_or (p + flags) 2 ≡ bit_or (p / 4096) 0 * 2 ^ 12 + bit_or flags 2 =
      rw page at (bit_or_split 12 (p / 4096) flags 0 2 fits (omega arith)) in
    rw joined (omega (arith, split, bit_or-zero (p / 4096)))

-- The first `i` tables of the directory in block `d` lie in the blocks `t 0`, …, which are in use, and map their pages
-- to themselves.
pub record Mapped (a total d flags i : ℕ) (t : ℕ → ℕ) (k : Kernel) (live : List Chunk)
    : Type 0 where
  pub valid : IsHeap k.kernel_heap live
  pub at_a : k.kernel_heap.saddr ≡ a
  pub size : k.kernel_heap.table.total ≡ total
  pub own : covers live d ≡ true
  pub tables : (j : ℕ) → j < i → (covers live (t j) ≡ true) × (t j < total) × (t j ≢ d)
  pub distinct : (j l : ℕ) → j < i → l < i → t j ≡ t l → j ≡ l
  pub words : (j : ℕ) → j < i → load32 k.mem (a + d * 4096 + 4 * j) ≡ table_word a flags (t j)
  pub entries :
      (j c : ℕ)
      → j < i
      → c < 1024
      → load32 k.mem (a + t j * 4096 + 4 * c) ≡ j * 2 ^ 22 + c * 4096 + flags

-- The memory after a round, whose table is at `entry`.
abbrev pub round_mem : ℕ → ℕ → ℕ → ℕ → ℕ → Mem → Mem
round_mem entry directory i offset flags m =
    store32 (words_loop 1024 0 entry offset flags m) (directory + 4 * i)
      (bit_or (bit_or entry flags) 2)

pub new_table-round_mem :
    (k : Kernel) {live : List Chunk} {s n b : ℕ} {k' : Kernel} (a i directory offset flags : ℕ)
    → GotBlock k live s n 4096 b k'
    → k.kernel_heap.saddr ≡ a
    → new_table i directory offset flags k
      ≡ with_mem k' (round_mem (a + b * 4096) directory i offset flags k'.mem)
unfolding new_table
new_table-round_mem k {b} {k'} a i directory offset flags g at_a =
    rw (g.answer)
      (ap (λ (p : ℕ). with_mem k' (round_mem (p + b * 4096) directory i offset flags k'.mem)) at_a)

-- A word outside the table and the directory's word is as before.
module _ (entry directory i offset flags : ℕ) (m : Mem) where
  pub round_mem_frame :
      (x : ℕ)
      → (x < entry) ⊎ (entry + 4096 ≤ x)
      → (x < directory + 4 * i) ⊎ (directory + 4 * i + 4 ≤ x)
      → round_mem entry directory i offset flags m x ≡ m x
  round_mem_frame x out other =
      store32_frame _ (directory + 4 * i) _ x other
      ∙ words_loop_frame entry offset flags 1024 0 x m (ground (arith, out))

  pub load32-round_mem :
      (q : ℕ)
      → (q + 4 ≤ entry) ⊎ (entry + 4096 ≤ q)
      → (q + 4 ≤ directory + 4 * i) ⊎ (directory + 4 * i + 4 ≤ q)
      → load32 (round_mem entry directory i offset flags m) q ≡ load32 m q
  load32-round_mem q out other =
      load32-ext _ m q
        (λ j h. round_mem_frame (q + j) (ground (arith, out)) (ground (arith, other)))

-- Words of different blocks, and the pages of these, lie apart.
pub block_apart :
    (a p q c : ℕ)
    → p ≢ q
    → c < 1024
    → (a + q * 4096 + 4 * c + 4 ≤ a + p * 4096) ⊎ (a + p * 4096 + 4096 ≤ a + q * 4096 + 4 * c)
block_apart a p q c ne h = elim (dec_lt p q) [
  | yes below ↦ inr (omega arith)
  | no above ↦ inl (omega arith)
]

pub word_apart :
    (a p q c e : ℕ)
    → (p ≡ q → c ≢ e)
    → c < 1024
    → e < 1024
    → (a + p * 4096 + 4 * c + 4 ≤ a + q * 4096 + 4 * e)
      ⊎ (a + q * 4096 + 4 * e + 4 ≤ a + p * 4096 + 4 * c)
word_apart a p q c e ne h h' = elim (ℕ_discrete p q) [
  | yes same ↦ elim (dec_lt c e) [
    | yes below ↦ inl (omega arith)
    | no above ↦ inr (omega (arith, ne same))
  ]
  | no other ↦ elim (dec_lt p q) [ yes below ↦ inl (omega arith) | no above ↦ inr (omega arith) ]
]
