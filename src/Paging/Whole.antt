-- ===== src/Paging/Whole.antt =====
-- paging.c: the directory that paging_new_4gb makes.
use native.Mathlib.Decide.{ℕ_discrete}
use libre_win.Prelude.{
  ℕ, zero, suc, ◌+◌, ◌*◌, ◌%◌, ◌^◌, ◌≤◌, ◌<◌, ◌≡◌, ◌≢◌, ◌⊎◌, refl, sym, ◌∙◌, true, List, ◌∷◌, arith,
  ap, ◌==◌, if◌then◌else◌,
}
use libre_win.Memory.{Mem}
use libre_win.Memory.Words.{load32, load32-store32, load32-store32_apart, load32-ext}
use libre_win.Heap.Search.{IsFree}
use libre_win.Heap.Live.{Chunk, covers}
use libre_win.Kheap.{Kernel}
use libre_win.Kheap.Block.{GotBlock, kzalloc-GotBlock}
use libre_win.Paging.Chunk.{with_mem, new_table, tables_loop}
use libre_win.Paging.Identity.{words_loop_lem}
use libre_win.Paging.Round.{
  Mapped, table_word, bit_or_2, directory_word, round_mem, new_table-round_mem, load32-round_mem,
  block_apart, word_apart,
}

-- The blocks of the tables, with `b` for table `i`.
abbrev pub with_table : (ℕ → ℕ) → ℕ → ℕ → ℕ → ℕ
with_table t i b j = if j == i then b else t j

pub covers-more :
    (live : List Chunk) (b x : ℕ) → covers live x ≡ true → covers ((b, 1) ∷ live) x ≡ true
covers-more live b x h = ground arith

pub covers-new : (live : List Chunk) (b : ℕ) → covers ((b, 1) ∷ live) b ≡ true
covers-new live b = ground arith

with_table_at : (t : ℕ → ℕ) (i b j : ℕ) → j ≡ i → with_table t i b j ≡ b
with_table_at t i b j e = ground arith

with_table_else : (t : ℕ → ℕ) (i b j : ℕ) → j ≢ i → with_table t i b j ≡ t j
with_table_else t i b j ne = ground arith

module _ (a total d flags i offset : ℕ) (t : ℕ → ℕ) (k k' : Kernel) {live : List Chunk} (s n b : ℕ)
    (small : flags < 256) (inside : i < 1024) (place : offset ≡ i * 2 ^ 22) (in_heap : d < total)
    (v : Mapped a total d flags i t k live) (g : GotBlock k live s n 4096 b k') where
  not_own : b ≢ d
  not_own e = cc (v.own, g.unused, ap (covers live) e)

  not_table : (j : ℕ) → j < i → b ≢ t j
  not_table j h e = cc ((v.tables j h).0, g.unused, ap (covers live) e)

  pub after : Mem
  after = round_mem (a + b * 4096) (a + d * 4096) i offset flags k'.mem

  -- A word outside the new table and the directory's new word.
  kept :
      (q : ℕ)
      → (q + 4 ≤ a + b * 4096) ⊎ (a + b * 4096 + 4096 ≤ q)
      → (q + 4 ≤ a + d * 4096 + 4 * i) ⊎ (a + d * 4096 + 4 * i + 4 ≤ q)
      → load32 after q ≡ load32 k.mem q
  unfolding after
  kept q out other =
      load32-round_mem (a + b * 4096) (a + d * 4096) i offset flags k'.mem q out other
      ∙ load32-ext _ k.mem q (λ j h. ground (arith, g.bytes (q + j), v.at_a, out))

  new_word : load32 after (a + d * 4096 + 4 * i) ≡ table_word a flags b
  unfolding after
  new_word =
      let page : (a + b * 4096) % 4096 ≡ 0 = omega (arith, v.valid.aligned, v.at_a) in
      let word = directory_word (a + b * 4096) flags page (omega arith) in
      load32-store32 _ (a + d * 4096 + 4 * i) _
        (omega (arith, word, bit_or_2 flags, v.valid.bounded, v.at_a, v.size, g.fits))
      ∙ word

  new_entry :
      (c : ℕ) → c < 1024 → load32 after (a + b * 4096 + 4 * c) ≡ i * 2 ^ 22 + c * 4096 + flags
  unfolding after
  new_entry c h =
      load32-store32_apart _ (a + d * 4096 + 4 * i) _ (a + b * 4096 + 4 * c)
        (word_apart a b d c i (λ e. absurd (not_own e)) h inside)
      ∙ (words_loop_lem (a + b * 4096) offset flags k'.mem (omega arith) (omega arith)
            (omega arith)).0
          c h
      ∙ omega (arith, place)

  pub round-Mapped :
      Mapped a total d flags (suc i) (with_table t i b) (with_mem k' after) ((b, 1) ∷ live)
  round-Mapped = record {
    valid = g.valid;
    at_a = g.same_saddr ∙ v.at_a;
    size = g.same_total ∙ v.size;
    own = covers-more live b d v.own;
    tables = λ j h. elim (ℕ_discrete j i) [
      | yes same ↦
          rw (with_table_at t i b j same)
            (covers-new live b, omega (arith, g.fits, v.size), not_own)
      | no other ↦
          let (covered, below, apart) = v.tables j (omega arith) in
          rw (with_table_else t i b j other) (covers-more live b (t j) covered, below, apart)
    ];
    distinct = λ j l h h' e. elim (ℕ_discrete j i) [
      | yes same ↦ elim (ℕ_discrete l i) [
        | yes also ↦ omega arith
        | no other ↦ absurd (
            not_table l (omega arith)
              (sym (with_table_at t i b j same) ∙ e ∙ with_table_else t i b l other))
      ]
      | no other ↦ elim (ℕ_discrete l i) [
        | yes same ↦ absurd (
            not_table j (omega arith)
              (sym (with_table_at t i b l same) ∙ sym e ∙ with_table_else t i b j other))
        | no also ↦
            v.distinct j l (omega arith) (omega arith)
              (sym (with_table_else t i b j other) ∙ e ∙ with_table_else t i b l also)
      ]
    ];
    words = λ j h. elim (ℕ_discrete j i) [
      | yes same ↦ rw (with_table_at t i b j same) (rw same new_word)
      | no other ↦ rw (with_table_else t i b j other) (
          kept (a + d * 4096 + 4 * j) (block_apart a b d j not_own (omega arith))
            (word_apart a d d j i (λ e. other) (omega arith) inside)
          ∙ v.words j (omega arith))
    ];
    entries = λ j c h h'. elim (ℕ_discrete j i) [
      | yes same ↦ rw (with_table_at t i b j same) (rw same (new_entry c h'))
      | no other ↦ rw (with_table_else t i b j other) (
          kept (a + t j * 4096 + 4 * c) (block_apart a b (t j) c (not_table j (omega arith)) h')
            (word_apart a (t j) d c i (λ e. absurd ((v.tables j (omega arith)).2 e)) h' inside)
          ∙ v.entries j c (omega arith) h')
    ];
  }

-- What a number of rounds leaves: a kernel with `i` tables, and `n` free blocks from `s` on.
pub record Rounds (a total d flags i s n : ℕ) (k : Kernel) : Type 0 where
  pub t : ℕ → ℕ
  pub live : List Chunk
  pub mapped : Mapped a total d flags i t k live
  pub room : s + n ≤ total
  pub free : IsFree k.kernel_heap.table.entries s (s + n)

module _ (a total d flags : ℕ) (small : flags < 256) (in_heap : d < total) where
  new_table-Rounds :
      (i offset s n : ℕ) (k : Kernel)
      → i < 1024
      → offset ≡ i * 2 ^ 22
      → Rounds a total d flags i s (suc n) k
      → Rounds a total d flags (suc i) (suc s) n (new_table i (a + d * 4096) offset flags k)
  unfolding after
  new_table-Rounds i offset s n k inside place r =
      let v = r.mapped in
      let (b, k', g) =
        kzalloc-GotBlock k 4096 s n v.valid (omega arith) (omega arith)
          (omega (arith, r.room, v.size)) r.free in
      rw (new_table-round_mem k a i (a + d * 4096) offset flags g v.at_a) (record {
        t = with_table r.t i b;
        live = (b, 1) ∷ r.live;
        mapped =
            round-Mapped a total d flags i offset r.t k k' s n b small inside place in_heap v g;
        room = omega (arith, r.room);
        free = g.free;
      })

  pub tables_loop-Rounds :
      (left i offset s s' m n : ℕ) (k : Kernel)
      → i + left ≡ 1024
      → s + left ≡ s'
      → m ≡ left + n
      → offset ≡ i * 2 ^ 22 % 2 ^ 32
      → Rounds a total d flags i s m k
      → Rounds a total d flags 1024 s' n (tables_loop left i (a + d * 4096) offset flags k)
  unfolding tables_loop
  tables_loop-Rounds zero i offset s s' m n k all end rest place r =
      let e : i ≡ 1024 = omega arith in
      let f : s ≡ s' = omega arith in let g : m ≡ n = omega arith in rw (e, f, g) at r
  tables_loop-Rounds (suc left) i offset s s' m n k all end rest place r =
      let more : m ≡ suc (left + n) = omega arith in
      let next : suc i ≡ i + 1 = omega arith in
      let step =
        new_table-Rounds i offset s (left + n) k (omega arith) (omega arith) (rw more at r) in
      tables_loop-Rounds left (i + 1) _ (suc s) s' (left + n) n _ (omega arith) (omega arith) refl
        (omega arith) (rw next at step)
