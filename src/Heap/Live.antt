-- ===== src/Heap/Live.antt =====
-- The invariant of the allocator of heap.c, against the list of the allocations that are in use.
use native.Mathlib.Decide.{dec_lt}
use libre_win.Prelude.{
  ℕ, ◌+◌, ◌*◌, ◌%◌, ◌^◌, ◌≤◌, ◌<◌, ◌≡◌, ◌⊎◌, inl, inr, refl, Bool, true, false, ◌||◌, List, [], ◌∷◌,
  arith, ◌∙◌, Bool-cases,
}
use libre_win.Memory.{Mem}
use libre_win.Memory.Laws.{within}
use libre_win.Heap.{Heap, heap_get_entry_type}
use libre_win.Heap.Marks.{block_entry}
use libre_win.Heap.Search.{IsFree}

-- The first block of an allocation, and how many blocks it has.
abbrev pub Chunk : Type 0
Chunk = ℕ × ℕ

abbrev pub covers : List Chunk → ℕ → Bool
covers [] x = false
covers ((s, n) ∷ live) x = within s n x || covers live x

-- The table has the entries of an allocation of at least one block for this chunk.
abbrev pub IsChunk : Mem → ℕ → Chunk → Type 0
IsChunk entries total (s, n) =
    (0 < n) × (s + n ≤ total) × ((j : ℕ) → s ≤ j → j < s + n → entries j ≡ block_entry s n j)

abbrev pub AllChunks : Mem → ℕ → List Chunk → Type 0
AllChunks entries total [] = Unit {0}
AllChunks entries total (c ∷ live) = IsChunk entries total c × AllChunks entries total live

abbrev pub IsApart : Chunk → List Chunk → Type 0
IsApart c [] = Unit {0}
IsApart (s, n) ((t, m) ∷ live) = ((s + n ≤ t) ⊎ (t + m ≤ s)) × IsApart (s, n) live

abbrev pub AllApart : List Chunk → Type 0
AllApart [] = Unit {0}
AllApart (c ∷ live) = IsApart c live × AllApart live

-- The chunks in use do not overlap, lie in the table and are marked there, and every other entry of the
-- table is 0. The blocks themselves lie at multiples of 4096 between the null page and the end of
-- the address space, and span less than 2 GB.
pub record IsHeap (h : Heap) (live : List Chunk) : Type 0 where
  pub aligned : h.saddr % 4096 ≡ 0
  pub not_null : 0 < h.saddr
  pub bounded : h.saddr + h.table.total * 4096 < 2 ^ 32
  pub small : h.table.total * 4096 < 2 ^ 31
  pub chunks : AllChunks h.table.entries h.table.total live
  pub apart : AllApart live
  pub rest : (x : ℕ) → x < h.table.total → covers live x ≡ false → h.table.entries x ≡ 0

-- `rest` is `live` less one occurrence of the chunk.
pub data Pick (c : Chunk) : List Chunk → List Chunk → Type 0 where
  here : {live : List Chunk} → Pick c (c ∷ live) live
  there : {d : Chunk} {live rest : List Chunk} → Pick c live rest → Pick c (d ∷ live) (d ∷ rest)

pub type-block_entry : (s n i : ℕ) → heap_get_entry_type (block_entry s n i) ≡ 1
unfolding heap_get_entry_type
type-block_entry s n i = ground arith

module _ (entries : Mem) (total : ℕ) where
  taken_of_chunk :
      (s n x : ℕ)
      → IsChunk entries total (s, n)
      → s ≤ x
      → x < s + n
      → heap_get_entry_type (entries x) ≡ 1
  taken_of_chunk s n x c p q = rw (c.2 x p q) (type-block_entry s n x)

  pub taken_of_covers :
      (live : List Chunk) (x : ℕ)
      → AllChunks entries total live
      → covers live x ≡ true
      → heap_get_entry_type (entries x) ≡ 1
  taken_of_covers [] x all h = cc
  taken_of_covers ((s, n) ∷ live) x all h = elim (Bool-cases (within s n x)) [
    | inl inside ↦ taken_of_chunk s n x all.0 (ground arith) (ground arith)
    | inr outside ↦ taken_of_covers live x all.1 (ground arith)
  ]

  -- A run of free blocks overlaps no chunk.
  pub free-IsApart :
      (b n : ℕ) (live : List Chunk)
      → 0 < n
      → IsFree entries b (b + n)
      → AllChunks entries total live
      → IsApart (b, n) live
  free-IsApart b n [] positive free all = tt
  free-IsApart b n ((s, m) ∷ live) positive free all = (
    elim (dec_lt s (b + n)) [
      | no p ↦ inl (omega arith)
      | yes p ↦ elim (dec_lt b (s + m)) [
        | no q ↦ inr (omega arith)
        | yes q ↦ elim (dec_lt s b) [
          | yes o ↦ absurd (
              omega (
                arith,
                taken_of_chunk s m b all.0 (omega arith) q,
                free b (omega arith) (omega arith),
              ))
          | no o ↦ absurd (
              omega (
                arith,
                taken_of_chunk s m s all.0 (omega arith) (omega arith),
                free s (omega arith) p,
              ))
        ]
      ]
    ],
    free-IsApart b n live positive free all.1,
  )

  -- Chunks stay where they are while the entries that they cover stay the same.
  pub AllChunks-frame :
      (entries' : Mem) (live : List Chunk)
      → ((x : ℕ) → covers live x ≡ true → entries' x ≡ entries x)
      → AllChunks entries total live
      → AllChunks entries' total live
  AllChunks-frame entries' [] same all = tt
  AllChunks-frame entries' ((s, n) ∷ live) same all = (
    (all.0.0, all.0.1, λ j p q. same j (ground arith) ∙ all.0.2 j p q),
    AllChunks-frame entries' live (λ x h. same x (ground arith)) all.1,
  )

  pub Pick-IsChunk :
      {c : Chunk} {live rest : List Chunk}
      → Pick c live rest
      → AllChunks entries total live
      → IsChunk entries total c × AllChunks entries total rest
  Pick-IsChunk here all = all
  Pick-IsChunk (there p) all =
      let (chunk, others) = Pick-IsChunk p all.1 in (chunk, (all.0, others))

pub not_covered_of_IsApart :
    (s n x : ℕ) (live : List Chunk)
    → IsApart (s, n) live
    → within s n x ≡ true
    → covers live x ≡ false
not_covered_of_IsApart s n x [] apart h = refl
not_covered_of_IsApart s n x ((t, m) ∷ live) apart h =
    ground (arith, not_covered_of_IsApart s n x live apart.1)

pub covers-Pick :
    {s n : ℕ} {live rest : List Chunk}
    → Pick (s, n) live rest
    → (x : ℕ) → covers live x ≡ (within s n x || covers rest x)
covers-Pick here x = refl
covers-Pick (there p) x = ground (arith, covers-Pick p x)

-- The chunk that is picked is apart from a chunk that the whole list is apart from.
IsApart-Pick :
    {s n : ℕ} {live rest : List Chunk} (t m : ℕ)
    → Pick (s, n) live rest
    → IsApart (t, m) live
    → ((s + n ≤ t) ⊎ (t + m ≤ s)) × IsApart (t, m) rest
IsApart-Pick t m here apart = (elim apart.0 [ inl a ↦ inr a | inr b ↦ inl b ], apart.1)
IsApart-Pick t m (there p) apart =
    let (other, others) = IsApart-Pick t m p apart.1 in (other, (apart.0, others))

pub AllApart-Pick :
    {s n : ℕ} {live rest : List Chunk}
    → Pick (s, n) live rest
    → AllApart live
    → IsApart (s, n) rest × AllApart rest
AllApart-Pick here apart = apart
AllApart-Pick (there {d = (t, m)} p) apart =
    let (side, far) = IsApart-Pick t m p apart.0 in
    let (near, rest) = AllApart-Pick p apart.1 in ((side, near), (far, rest))
