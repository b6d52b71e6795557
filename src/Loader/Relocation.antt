-- ===== src/Loader/Relocation.antt =====
-- loader.c: what the relocation of an image does.
use libre_win.Prelude.{ℕ, ◌+◌, ◌≤◌, ◌<◌, ◌≡◌, ◌⊎◌, arith}
use libre_win.Config.{u32}
use libre_win.Memory.{Mem}
use libre_win.Memory.Words.{load32, load32-store32, store32_frame}
use libre_win.Loader.{relocate}

-- An entry of the type HIGHLOW adds the offset to the word at its address, with the wrap-around of 32 bits, and changes
-- no other byte.
pub relocate_highlow :
    (m : Mem) (offset at : ℕ)
    → (load32 (relocate m offset 3 at) at ≡ u32 (load32 m at + offset))
      × ((x : ℕ) → (x < at) ⊎ (at + 4 ≤ x) → relocate m offset 3 at x ≡ m x)
unfolding relocate
relocate_highlow m offset at = (
  load32-store32 m at (u32 (load32 m at + offset)) (omega arith),
  store32_frame m at (u32 (load32 m at + offset)),
)
