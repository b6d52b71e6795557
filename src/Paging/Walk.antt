-- ===== src/Paging/Walk.antt =====
-- paging.c: what the processor reads from a page directory, and how paging_set changes it.
use native.Mathlib.Decide.{ℕ_discrete, dec_lt}
use libre_win.Prelude.{
  ℕ, ◌+◌, ◌*◌, ◌/◌, ◌%◌, ◌^◌, ◌≤◌, ◌<◌, ◌≡◌, ◌≢◌, ◌⊎◌, inl, inr, refl, bit_and, arith, sym, ◌==◌,
  if◌then◌else◌,
}
use libre_win.Prelude.Int.{pos}
use libre_win.Prelude.Bits.{bit_and_split, bit_and_mask, bit_and-zero}
use libre_win.Memory.{Mem}
use libre_win.Memory.Words.{load32, store32, load32-store32, load32-store32_apart}
use libre_win.Paging.{paging_get_indexes, paging_set}

-- The address of table `i` of a directory: the upper 20 bits of its word.
abbrev pub table_of : Mem → ℕ → ℕ → ℕ
table_of m directory i = load32 m (directory + 4 * i) / 4096 * 4096

-- The word that the processor finds for a virtual address: the table by the upper 10 bits of the
-- address, and the word of the table by the 10 bits below.
abbrev pub page_entry : Mem → ℕ → ℕ → ℕ
page_entry m directory virt =
    load32 m (table_of m directory (virt / 2 ^ 22) + 4 * (virt / 2 ^ 12 % 1024))

-- The directory fills a page, and its tables are pages of their own.
pub record IsDirectory (m : Mem) (directory : ℕ) : Type 0 where
  pub aligned : directory % 4096 ≡ 0
  pub words : (i : ℕ) → i < 1024 → load32 m (directory + 4 * i) < 2 ^ 32
  pub no_self : (i : ℕ) → i < 1024 → table_of m directory i ≢ directory
  pub distinct :
      (i j : ℕ) → i < 1024 → j < 1024 → table_of m directory i ≡ table_of m directory j → i ≡ j

-- The mask of the upper 20 bits clears the lower 12.
page_mask : (x : ℕ) → x < 2 ^ 32 → bit_and x 0xfffff000 ≡ x / 4096 * 4096
page_mask x h = ground (
  arith,
  bit_and_split 12 (x / 4096) (x % 4096) 0xfffff 0,
  bit_and-zero (x % 4096),
  bit_and_mask 20 (x / 4096),
)

-- On an aligned address paging_get_indexes answers the numbers of the table and of the word; they
-- are in range, and tell the address.
pub paging_get_indexes_lem :
    (virt d t : ℕ)
    → virt % 4096 ≡ 0
    → virt < 2 ^ 32
    → let ix = paging_get_indexes virt d t in
      (ix.res ≡ pos 0)
      × (ix.directory_index < 1024)
      × (ix.table_index < 1024)
      × (ix.directory_index * 2 ^ 22 + ix.table_index * 2 ^ 12 ≡ virt)
unfolding paging_get_indexes
paging_get_indexes_lem virt d t aligned small =
    (ground arith, ground arith, ground arith, ground arith)

-- Words of different pages do not overlap.
words_apart :
    (p q a b : ℕ)
    → p % 4096 ≡ 0
    → q % 4096 ≡ 0
    → p ≢ q
    → a < 1024
    → b < 1024
    → (p + 4 * a + 4 ≤ q + 4 * b) ⊎ (q + 4 * b + 4 ≤ p + 4 * a)
words_apart p q a b hp hq ne ha hb = elim (dec_lt p q) [
  | yes below ↦ inl (omega arith)
  | no above ↦ inr (omega arith)
]

module _ (m : Mem) (directory : ℕ) (v : IsDirectory m directory) where
  paging_set-store32 :
      (virt val : ℕ)
      → virt % 4096 ≡ 0
      → virt < 2 ^ 32
      → paging_set m directory virt val
        ≡ (pos 0, store32 m (table_of m directory (virt / 2 ^ 22) + 4 * (virt / 2 ^ 12 % 1024)) val)
  unfolding paging_set
  paging_set-store32 virt val aligned small = ground (
    arith,
    page_mask (load32 m (directory + 4 * (virt / 2 ^ 22))) (v.words (virt / 2 ^ 22) (omega arith)),
  )

  -- A store into a table leaves the directory's words as they were.
  directory_kept :
      (i t j val : ℕ)
      → i < 1024
      → t < 1024
      → j < 1024
      → load32 (store32 m (table_of m directory i + 4 * t) val) (directory + 4 * j)
        ≡ load32 m (directory + 4 * j)
  directory_kept i t j val hi ht hj =
      load32-store32_apart m (table_of m directory i + 4 * t) val (directory + 4 * j) (
        words_apart directory (table_of m directory i) j t v.aligned (omega arith)
          (λ e. v.no_self i hi (sym e)) hj ht)

  store32-IsDirectory :
      (i t val : ℕ)
      → i < 1024
      → t < 1024
      → IsDirectory (store32 m (table_of m directory i + 4 * t) val) directory
  store32-IsDirectory i t val hi ht = record {
    aligned = v.aligned;
    words = λ j hj. rw (directory_kept i t j val hi ht hj) (v.words j hj);
    no_self = λ j hj. rw (directory_kept i t j val hi ht hj) (v.no_self j hj);
    distinct = λ j k hj hk e.
        v.distinct j k hj hk
          (omega (arith, e, directory_kept i t j val hi ht hj, directory_kept i t k val hi ht hk));
  }

  -- Different words of the tables do not overlap.
  slots_apart :
      (i j t u : ℕ)
      → i < 1024
      → j < 1024
      → t < 1024
      → u < 1024
      → (i ≡ j → ¬ (t ≡ u))
      → (table_of m directory i + 4 * t + 4 ≤ table_of m directory j + 4 * u)
        ⊎ (table_of m directory j + 4 * u + 4 ≤ table_of m directory i + 4 * t)
  slots_apart i j t u hi hj ht hu ne = elim (ℕ_discrete i j) [
    | yes e ↦
        rw e (elim (dec_lt t u) [
          | yes below ↦ inl (omega arith)
          | no above ↦ inr (omega (arith, ne e))
        ])
    | no other ↦
        words_apart (table_of m directory i) (table_of m directory j) t u (omega arith)
          (omega arith) (λ e. other (v.distinct i j hi hj e)) ht hu
  ]

  -- The word of `w` after a store at the word of `virt`.
  page_entry-store32 :
      (virt val w : ℕ)
      → val < 2 ^ 32
      → virt % 4096 ≡ 0
      → virt < 2 ^ 32
      → w % 4096 ≡ 0
      → w < 2 ^ 32
      → page_entry
          (store32 m (table_of m directory (virt / 2 ^ 22) + 4 * (virt / 2 ^ 12 % 1024)) val)
          directory
          w
        ≡ (if w == virt then val else page_entry m directory w)
  page_entry-store32 virt val w hv pv bv pw bw =
      rw
        (directory_kept (virt / 2 ^ 22) (virt / 2 ^ 12 % 1024) (w / 2 ^ 22) val (omega arith)
          (omega arith) (omega arith))
        (elim (ℕ_discrete w virt) [
          | yes same ↦ ground (
            arith,
            load32-store32 m (table_of m directory (virt / 2 ^ 22) + 4 * (virt / 2 ^ 12 % 1024)) val
                hv,
          )
          | no other ↦ ground (
            arith,
            load32-store32_apart m
                (table_of m directory (virt / 2 ^ 22) + 4 * (virt / 2 ^ 12 % 1024)) val
                (table_of m directory (w / 2 ^ 22) + 4 * (w / 2 ^ 12 % 1024))
                (slots_apart (w / 2 ^ 22) (virt / 2 ^ 22) (w / 2 ^ 12 % 1024) (virt / 2 ^ 12 % 1024)
                  (omega arith) (omega arith) (omega arith) (omega arith)
                  (λ e f. other (omega arith))),
          )
        ])

  -- In a directory that fills a page and whose 1024 tables are pages of their own, paging_set of a 32-bit word on an
  -- aligned address succeeds; afterwards the processor finds the new word at that page, and the word as before at every
  -- other page; and the directory is still such a one.
  pub paging_set_lem :
      (virt val : ℕ)
      → val < 2 ^ 32
      → virt % 4096 ≡ 0
      → virt < 2 ^ 32
      → let (res, m') = paging_set m directory virt val in
        (res ≡ pos 0)
        × IsDirectory m' directory
        × ((w : ℕ)
            → w % 4096 ≡ 0
            → w < 2 ^ 32
            → page_entry m' directory w ≡ (if w == virt then val else page_entry m directory w))
  paging_set_lem virt val hv aligned small = rw (paging_set-store32 virt val aligned small) (
    refl,
    store32-IsDirectory (virt / 2 ^ 22) (virt / 2 ^ 12 % 1024) val (omega arith) (omega arith),
    λ w pw bw. page_entry-store32 virt val w hv aligned small pw bw,
  )
