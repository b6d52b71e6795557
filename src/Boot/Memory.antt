-- ===== src/Boot/Memory.antt =====
-- kernel_main: the address space after paging is set up.
use libre_win.Prelude.{
  ℕ, suc, ◌+◌, ◌*◌, ◌/◌, ◌%◌, ◌^◌, ◌≤◌, ◌<◌, ◌≡◌, ◌≢◌, ◌⊎◌, refl, ◌∙◌, bit_or, List, ◌∷◌, arith, ap,
  ◌==◌, if◌then◌else◌,
}
use libre_win.Prelude.Bits.{bit_or-add, bit_or_split, bit_or-zero}
use libre_win.Memory.Words.{load32-ext}
use libre_win.Heap.Search.{IsFree}
use libre_win.Heap.Live.{Chunk, IsHeap, covers}
use libre_win.Kheap.{Kernel, kzalloc}
use libre_win.Kheap.Block.{GotBlock, kzalloc-GotBlock}
use libre_win.Paging.{paging_set}
use libre_win.Paging.Chunk.{paging_new_4gb, paging_4gb_chunk_get_directory, with_mem}
use libre_win.Paging.Round.{block_apart}
use libre_win.Paging.Walk.{IsDirectory, page_entry, paging_set_lem}
use libre_win.Paging.Create.{
  Made, paging_new_4gb-Made, Mapped-frame, Mapped-IsDirectory, Mapped-IsIdentity,
}
use libre_win.Paging.Whole.{covers-more}
use libre_win.Boot.{set_up_paging, all_access}

-- The word for a page, from its address and the flags one by one.
or_flags : (p f g : ℕ) → p % 4096 ≡ 0 → f < 4096 → g < 4096 → bit_or (p + f) g ≡ p + bit_or f g
or_flags p f g aligned hf hg =
    let page : p / 4096 * 2 ^ 12 ≡ p = omega arith in
    let flat : 0 * 2 ^ 12 + g ≡ g = omega arith in
    let split = bit_or_split 12 (p / 4096) f 0 g hf hg in
    omega (arith, rw (page, flat) at split, bit_or-zero (p / 4096))

page_bits : (p : ℕ) → p % 4096 ≡ 0 → bit_or (bit_or (bit_or p 4) 1) 2 ≡ p + 7
page_bits p aligned =
    let page : p / 4096 * 2 ^ 12 ≡ p = omega arith in
    let one : bit_or p 4 ≡ p + 4 = rw page at (bit_or-add 12 (p / 4096) 4 (omega arith)) in
    rw one (
      rw (or_flags p 4 1 aligned (omega arith) (omega arith))
        (or_flags p 5 2 aligned (omega arith) (omega arith)))

-- A page from the heap leaves the directory and its chunk as they are.
page_taken :
    (a total d c flags s n : ℕ) (k : Kernel)
    → Made a total d c flags s (suc n) k
    → (b : ℕ) × (k' : Kernel) × (kzalloc k 4096 ≡ (a + b * 4096, k'))
      × (b < total)
      × Made a total d c flags (suc s) n k'
unfolding paging_4gb_chunk_get_directory
page_taken a total d c flags s n k made =
    let r = made.rounds in
    let v = r.mapped in
    let (b, k', g) =
      kzalloc-GotBlock k 4096 s n v.valid (omega arith) (omega arith)
        (omega (arith, r.room, v.size)) r.free in
    let not_chunk : b ≢ c = λ e. cc (made.in_use, g.unused, ap (covers r.live) e) in
    let same = page_frame k k' a s n b g v.at_a in
    (
      b,
      k',
      g.answer ∙ ap (λ (p : ℕ). (p + b * 4096, k')) v.at_a,
      omega (arith, g.fits, v.size),
      record {
        rounds = record {
          t = r.t;
          live = (b, 1) ∷ r.live;
          mapped =
              Mapped-frame a total d flags 1024 r.t k k' b v (omega arith) g.unused g.valid
                g.same_saddr g.same_total same;
          room = omega (arith, r.room);
          free = g.free;
        };
        in_use = covers-more r.live b c made.in_use;
        word =
            load32-ext k'.mem k.mem (a + c * 4096)
              (λ j h. same (a + c * 4096 + j) (chunk_apart a b c j not_chunk h))
            ∙ made.word;
      },
    )
  where
    page_frame :
        (k k' : Kernel) {live : List Chunk} (a s n b : ℕ)
        → GotBlock k live s n 4096 b k'
        → k.kernel_heap.saddr ≡ a
        → (x : ℕ) → (x < a + b * 4096) ⊎ (a + b * 4096 + 4096 ≤ x)
        → k'.mem x ≡ k.mem x
    page_frame k k' a s n b g at_a x out = ground (arith, g.bytes x, at_a, out)

    chunk_apart :
        (a b c j : ℕ)
        → b ≢ c
        → j < 4
        → (a + c * 4096 + j < a + b * 4096) ⊎ (a + b * 4096 + 4096 ≤ a + c * 4096 + j)
    chunk_apart a b c j ne h = ground (arith, block_apart a b c 0 ne (omega arith))

-- The set-up in terms of its steps.
set_up_paging-paging_set :
    (k k'' : Kernel) (directory ptr : ℕ)
    → let (chunk, k') = paging_new_4gb k all_access in
      (paging_4gb_chunk_get_directory k'.mem chunk ≡ directory)
      → (kzalloc k' 4096 ≡ (ptr, k''))
      → (paging_4gb_chunk_get_directory k''.mem chunk ≡ directory)
      → (ptr % 4096 ≡ 0)
      → set_up_paging k ≡ record {
        kernel_chunk = chunk;
        switched = record { loaded = directory; current_directory = directory };
        ptr = ptr;
        kernel = with_mem k'' (paging_set k''.mem directory 0x1000 (ptr + 7)).1;
      }
unfolding set_up_paging
set_up_paging-paging_set k k'' directory ptr e f g aligned =
    rw (e, f, g, page_bits ptr aligned) refl

one_page :
    (virt ptr e : ℕ)
    → e ≡ virt + 7
    → (if virt == 0x1000 then ptr + 7 else e) ≡ (if virt == 0x1000 then ptr else virt) + 7
one_page virt ptr e h = ground arith

-- On a valid heap with 1027 free blocks in a row, kernel_main's set-up of paging gives the processor the directory that
-- the kernel remembers, in which each page of the 4 GB stands at its own address, but the page at 0x1000 at the page
-- that was allocated for it, all with full access.
pub set_up_paging_lem :
    (k : Kernel) {live : List Chunk} (s : ℕ)
    → IsHeap k.kernel_heap live
    → s + 1027 ≤ k.kernel_heap.table.total
    → IsFree k.kernel_heap.table.entries s (s + 1027)
    → let p = set_up_paging k in
      (p.switched.current_directory ≡ p.switched.loaded)
      × IsDirectory p.kernel.mem p.switched.loaded
      × (p.ptr % 4096 ≡ 0)
      × ((virt : ℕ)
          → virt % 4096 ≡ 0
          → virt < 2 ^ 32
          → page_entry p.kernel.mem p.switched.loaded virt
            ≡ (if virt == 0x1000 then p.ptr else virt) + 7)
set_up_paging_lem k s v inside run =
    let a = k.kernel_heap.saddr in
    let total = k.kernel_heap.table.total in
    let (d, c, e, made) = paging_new_4gb-Made k all_access s 1 v (omega arith) inside run in
    let (b, k'', f, below, made') = page_taken a total d c all_access (s + 1026) 0 _ made in
    let m = made'.rounds.mapped in
    let aligned : (a + b * 4096) % 4096 ≡ 0 = omega (arith, v.aligned) in
    let directory = Mapped-IsDirectory a total d all_access made'.rounds.t k'' (omega arith) m in
    let identity = Mapped-IsIdentity a total d all_access made'.rounds.t k'' (omega arith) m in
    let (status, whole, entry) =
      paging_set_lem k''.mem (a + d * 4096) directory 0x1000 (a + b * 4096 + 7)
        (omega (arith, v.bounded)) refl (omega arith) in
    rw
      (set_up_paging-paging_set k k'' (a + d * 4096) (a + b * 4096) (rw (← e) at made.word) f
        (rw (← e) at made'.word) aligned)
      (
        refl,
        whole,
        aligned,
        λ virt at_page bound.
            entry virt at_page bound ∙ one_page virt (a + b * 4096) _ (identity virt at_page bound),
      )
