-- ===== src/Paging/Create.antt =====
-- paging.c: the whole of paging_new_4gb, as the processor reads its directory.
use libre_win.Prelude.{
  ℕ, suc, ◌+◌, ◌*◌, ◌/◌, ◌%◌, ◌^◌, ◌≤◌, ◌<◌, ◌≡◌, ◌≢◌, ◌⊎◌, refl, ◌∙◌, List, ◌∷◌, arith, ap, true,
  false,
}
use libre_win.Memory.{Mem}
use libre_win.Memory.Words.{store32, store32_frame, load32-store32, load32-ext}
use libre_win.Heap.Search.{IsFree}
use libre_win.Heap.Live.{Chunk, IsHeap, covers}
use libre_win.Kheap.{Kernel, kzalloc}
use libre_win.Kheap.Block.{GotBlock, kzalloc-GotBlock}
use libre_win.Paging.Chunk.{with_mem, tables_loop, paging_new_4gb, paging_4gb_chunk_get_directory}
use libre_win.Paging.Round.{Mapped, bit_or_2, block_apart}
use libre_win.Paging.Walk.{IsDirectory, table_of, page_entry}
use libre_win.Paging.Whole.{Rounds, covers-new, covers-more, tables_loop-Rounds}

-- The processor finds every page at its own address, with the flags.
abbrev pub IsIdentity : Mem → ℕ → ℕ → Type 0
IsIdentity m directory flags =
    (virt : ℕ) → virt % 4096 ≡ 0 → virt < 2 ^ 32 → page_entry m directory virt ≡ virt + flags

module _ (a total d flags : ℕ) (t : ℕ → ℕ) (k : Kernel) {live : List Chunk} (small : flags < 256)
    (v : Mapped a total d flags 1024 t k live) where
  table_of-block : (j : ℕ) → j < 1024 → table_of k.mem (a + d * 4096) j ≡ a + t j * 4096
  table_of-block j h = omega (arith, v.words j h, bit_or_2 flags, v.valid.aligned, v.at_a)

  pub Mapped-IsDirectory : IsDirectory k.mem (a + d * 4096)
  Mapped-IsDirectory = record {
    aligned = omega (arith, v.valid.aligned, v.at_a);
    words = λ j h.
        omega
          (arith, v.words j h, bit_or_2 flags, (v.tables j h).1, v.valid.bounded, v.at_a, v.size);
    no_self = λ j h e. (v.tables j h).2 (omega (arith, table_of-block j h, e));
    distinct = λ j l h h' e.
        v.distinct j l h h' (omega (arith, table_of-block j h, table_of-block l h', e));
  }

  pub Mapped-IsIdentity : IsIdentity k.mem (a + d * 4096) flags
  Mapped-IsIdentity virt aligned bound =
      rw (table_of-block (virt / 2 ^ 22) (omega arith))
        (v.entries (virt / 2 ^ 22) (virt / 2 ^ 12 % 1024) (omega arith) (omega arith) ∙ omega arith)

-- The directory stays while only a block changes that was given after it.
pub Mapped-frame :
    (a total d flags i : ℕ) (t : ℕ → ℕ) (k k' : Kernel) {live : List Chunk} (b : ℕ)
    → Mapped a total d flags i t k live
    → i ≤ 1024
    → covers live b ≡ false
    → IsHeap k'.kernel_heap ((b, 1) ∷ live)
    → k'.kernel_heap.saddr ≡ k.kernel_heap.saddr
    → k'.kernel_heap.table.total ≡ k.kernel_heap.table.total
    → ((x : ℕ) → (x < a + b * 4096) ⊎ (a + b * 4096 + 4096 ≤ x) → k'.mem x ≡ k.mem x)
    → Mapped a total d flags i t k' ((b, 1) ∷ live)
Mapped-frame a total d flags i t k k' {live} b v at_most unused valid same_saddr same_total same =
    let not_own : b ≢ d = λ e. cc (v.own, unused, ap (covers live) e) in
    let not_table : (j : ℕ) → j < i → b ≢ t j =
      λ j h e. cc ((v.tables j h).0, unused, ap (covers live) e) in
    let kept = λ (p c : ℕ) (ne : b ≢ p) (h : c < 1024).
      load32-ext k'.mem k.mem (a + p * 4096 + 4 * c)
        (λ r h'. same (a + p * 4096 + 4 * c + r) (ground (arith, block_apart a b p c ne h))) in
    record {
      valid = valid;
      at_a = same_saddr ∙ v.at_a;
      size = same_total ∙ v.size;
      own = covers-more live b d v.own;
      tables = λ j h.
          let (covered, below, apart) = v.tables j h in
          (covers-more live b (t j) covered, below, apart);
      distinct = v.distinct;
      words = λ j h. kept d j not_own (omega arith) ∙ v.words j h;
      entries = λ j c h h'. kept (t j) c (not_table j h) h' ∙ v.entries j c h h';
    }

paging_new_4gb-kzalloc :
    (k k' k'' : Kernel) (flags directory chunk : ℕ)
    → kzalloc k 4096 ≡ (directory, k')
    → kzalloc (tables_loop 1024 0 directory 0 flags k') 4 ≡ (chunk, k'')
    → paging_new_4gb k flags ≡ (chunk, with_mem k'' (store32 k''.mem chunk directory))
unfolding paging_new_4gb
paging_new_4gb-kzalloc k k' k'' flags directory chunk e e' = rw (e, e') refl

-- No table yet.
no_tables :
    (k k' : Kernel) {live : List Chunk} (flags s n d : ℕ)
    → GotBlock k live s n 4096 d k'
    → s + suc n ≤ k.kernel_heap.table.total
    → Rounds k.kernel_heap.saddr k.kernel_heap.table.total d flags 0 (suc s) n k'
no_tables k k' {live} flags s n d g inside = record {
  t = λ j. 0;
  live = (d, 1) ∷ live;
  mapped = record {
    valid = g.valid;
    at_a = g.same_saddr;
    size = g.same_total;
    own = covers-new live d;
    tables = λ j h. absurd (omega arith);
    distinct = λ j l h h' e. absurd (omega arith);
    words = λ j h. absurd (omega arith);
    entries = λ j c h h'. absurd (omega arith);
  };
  room = omega arith;
  free = g.free;
}

-- No byte outside the block of the chunk changes.
chunk_frame :
    (k k' : Kernel) {live : List Chunk} (a s n c directory : ℕ)
    → GotBlock k live s n 4 c k'
    → k.kernel_heap.saddr ≡ a
    → (x : ℕ) → (x < a + c * 4096) ⊎ (a + c * 4096 + 4096 ≤ x)
    → store32 k'.mem (a + c * 4096) directory x ≡ k.mem x
chunk_frame k k' a s n c directory g at_a x out =
    store32_frame k'.mem (a + c * 4096) directory x (ground (arith, out))
    ∙ ground (arith, g.bytes x, at_a, out)

-- A whole directory in block `d` and its chunk in block `c`, with `n` free blocks from `s` on.
pub record Made (a total d c flags s n : ℕ) (k : Kernel) : Type 0 where
  pub rounds : Rounds a total d flags 1024 s n k
  pub in_use : covers rounds.live c ≡ true
  pub word : paging_4gb_chunk_get_directory k.mem (a + c * 4096) ≡ a + d * 4096

-- The chunk is made last, in a block of its own.
chunk-Made :
    (a total d flags s n : ℕ) (k : Kernel)
    → d < total
    → Rounds a total d flags 1024 s (suc n) k
    → (c : ℕ) × (k' : Kernel) × (kzalloc k 4 ≡ (a + c * 4096, k'))
      × Made a total d c flags
          (suc s)
          n
          (with_mem k' (store32 k'.mem (a + c * 4096) (a + d * 4096)))
unfolding paging_4gb_chunk_get_directory
chunk-Made a total d flags s n k in_heap r =
    let v = r.mapped in
    let (c, k', g) =
      kzalloc-GotBlock k 4 s n v.valid (omega arith) (omega arith) (omega (arith, r.room, v.size))
        r.free in
    let m = store32 k'.mem (a + c * 4096) (a + d * 4096) in
    let same = chunk_frame k k' a s n c (a + d * 4096) g v.at_a in
    (
      c,
      k',
      g.answer ∙ ap (λ (p : ℕ). (p + c * 4096, k')) v.at_a,
      record {
        rounds = record {
          t = r.t;
          live = (c, 1) ∷ r.live;
          mapped =
              Mapped-frame a total d flags 1024 r.t k (with_mem k' m) c v (omega arith) g.unused
                g.valid g.same_saddr g.same_total same;
          room = omega (arith, r.room);
          free = g.free;
        };
        in_use = covers-new r.live c;
        word =
            load32-store32 k'.mem (a + c * 4096) (a + d * 4096)
              (omega (arith, v.valid.bounded, v.at_a, v.size));
      },
    )

-- The directory of paging_new_4gb, and the free blocks that are left.
pub paging_new_4gb-Made :
    (k : Kernel) {live : List Chunk} (flags s n : ℕ)
    → IsHeap k.kernel_heap live
    → flags < 256
    → s + (1026 + n) ≤ k.kernel_heap.table.total
    → IsFree k.kernel_heap.table.entries s (s + (1026 + n))
    → let (chunk, k') = paging_new_4gb k flags in
      (d c : ℕ) × (chunk ≡ k.kernel_heap.saddr + c * 4096)
      × Made k.kernel_heap.saddr k.kernel_heap.table.total d c flags (s + 1026) n k'
paging_new_4gb-Made k flags s n v small inside run =
    let (d, k', g) =
      kzalloc-GotBlock k 4096 s (1025 + n) v (omega arith) (omega arith) (omega arith)
        (λ j p q. run j p (omega arith)) in
    let a = k.kernel_heap.saddr in
    let total = k.kernel_heap.table.total in
    let rounds =
      tables_loop-Rounds a total d flags small g.fits 1024 0 0 (suc s) (s + 1025) (1025 + n) (suc n)
        k' refl (omega arith) (omega arith) refl
        (no_tables k k' flags s (1025 + n) d g (omega arith)) in
    let (c, k'', e, made) = chunk-Made a total d flags (s + 1025) n _ g.fits rounds in
    let next : suc (s + 1025) ≡ s + 1026 = omega arith in
    rw (paging_new_4gb-kzalloc k k' k'' flags (a + d * 4096) (a + c * 4096) (g.answer) e)
      (d, c, refl, rw next at made)

-- In a valid heap with 1026 free blocks in a row, paging_new_4gb with flags of one byte makes a directory that fills a
-- page, whose 1024 tables are pages of their own, and in which the processor finds every page of the 4 GB at its own
-- address with these flags.
pub paging_new_4gb-IsIdentity :
    (k : Kernel) {live : List Chunk} (flags s : ℕ)
    → IsHeap k.kernel_heap live
    → flags < 256
    → s + 1026 ≤ k.kernel_heap.table.total
    → IsFree k.kernel_heap.table.entries s (s + 1026)
    → let (chunk, k') = paging_new_4gb k flags in
      let directory = paging_4gb_chunk_get_directory k'.mem chunk in
      IsDirectory k'.mem directory × IsIdentity k'.mem directory flags
paging_new_4gb-IsIdentity k flags s v small inside run =
    let (d, c, e, made) = paging_new_4gb-Made k flags s 0 v small inside run in
    let r = made.rounds in
    let a = k.kernel_heap.saddr in
    let total = k.kernel_heap.table.total in
    rw (e, made.word)
      (
        Mapped-IsDirectory a total d flags r.t _ small r.mapped,
        Mapped-IsIdentity a total d flags r.t _ small r.mapped,
      )
