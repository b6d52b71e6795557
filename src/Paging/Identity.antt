-- ===== src/Paging/Identity.antt =====
-- paging.c: the words of the tables that paging_new_4gb fills.
use native.Mathlib.Decide.{ℕ_discrete}
use libre_win.Prelude.{
  ℕ, zero, suc, ◌+◌, ◌*◌, ◌/◌, ◌%◌, ◌^◌, ◌≤◌, ◌<◌, ◌≡◌, ◌⊎◌, inl, refl, ◌∙◌, bit_or, arith,
}
use libre_win.Prelude.Bits.{bit_or-add}
use libre_win.Config.{u32}
use libre_win.Memory.{Mem}
use libre_win.Memory.Words.{load32, store32_frame, load32-store32, load32-ext}
use libre_win.Paging.Chunk.{words_loop}

-- The word of a page is its address with the flags.
page_word :
    (offset b flags : ℕ)
    → offset % 2 ^ 22 ≡ 0
    → offset < 2 ^ 32
    → b < 1024
    → flags < 4096
    → bit_or (u32 (offset + b * 4096)) flags ≡ offset + b * 4096 + flags
page_word offset b flags aligned small inside fits =
    ground (arith, bit_or-add 12 (offset / 4096 + b) flags fits)

module _ (entry offset flags : ℕ) where
  -- No byte outside the words that are left changes.
  pub words_loop_frame :
      (left b x : ℕ) (m : Mem)
      → (x < entry + 4 * b) ⊎ (entry + 4 * (b + left) ≤ x)
      → words_loop left b entry offset flags m x ≡ m x
  unfolding words_loop
  words_loop_frame zero b x m out = refl
  words_loop_frame (suc left) b x m out =
      words_loop_frame left (b + 1) x _ (ground (arith, out))
      ∙ store32_frame m (entry + 4 * b) _ x (ground (arith, out))

  -- A word below those that are left stays.
  word_kept :
      (left b c : ℕ) (m : Mem)
      → c < b
      → load32 (words_loop left b entry offset flags m) (entry + 4 * c) ≡ load32 m (entry + 4 * c)
  word_kept left b c m below =
      load32-ext _ m (entry + 4 * c)
        (λ i h. words_loop_frame left b (entry + 4 * c + i) m (inl (omega arith)))

  words_loop_word :
      (left b c : ℕ) (m : Mem)
      → offset % 2 ^ 22 ≡ 0
      → offset < 2 ^ 32
      → flags < 4096
      → b + left ≤ 1024
      → b ≤ c
      → c < b + left
      → load32 (words_loop left b entry offset flags m) (entry + 4 * c) ≡ offset + c * 4096 + flags
  unfolding words_loop
  words_loop_word zero b c m aligned small fits inside low high = absurd (omega arith)
  words_loop_word (suc left) b c m aligned small fits inside low high =
      let word = page_word offset b flags aligned small (omega arith) fits in
      elim (ℕ_discrete c b) [
        | yes same ↦ rw same (
            word_kept left (b + 1) b _ (omega arith)
            ∙ load32-store32 m (entry + 4 * b) _ (omega (arith, word))
            ∙ word)
        | no other ↦
            words_loop_word left (b + 1) c _ aligned small fits (omega arith) (omega arith)
              (omega arith)
      ]

  -- The table that paging_new_4gb fills for the 4 MB from `offset` on, an aligned 32-bit address, maps each of its 1024
  -- pages to itself, with the given flags, whatever the memory held; no byte outside the table changes.
  pub words_loop_lem :
      (m : Mem)
      → offset % 2 ^ 22 ≡ 0
      → offset < 2 ^ 32
      → flags < 4096
      → ((b : ℕ)
          → b < 1024
          → load32 (words_loop 1024 0 entry offset flags m) (entry + 4 * b)
            ≡ offset + b * 4096 + flags)
        × ((x : ℕ)
            → (x < entry) ⊎ (entry + 4096 ≤ x)
            → words_loop 1024 0 entry offset flags m x ≡ m x)
  words_loop_lem m aligned small fits = (
    λ b h. words_loop_word 1024 0 b m aligned small fits (omega arith) (omega arith) (omega arith),
    λ x out. words_loop_frame 1024 0 x m (ground (arith, out)),
  )
