-- ===== src/Memory/Words.antt =====
-- 32-bit words in memory, the lowest byte first.
use libre_win.Prelude.{ℕ, ◌+◌, ◌*◌, ◌/◌, ◌%◌, ◌^◌, ◌≤◌, ◌<◌, ◌≡◌, ◌⊎◌, inl, inr, arith}
use libre_win.Memory.{Mem, write}

unfoldable pub load32 : Mem → ℕ → ℕ
load32 m a = m a + m (a + 1) * 2 ^ 8 + m (a + 2) * 2 ^ 16 + m (a + 3) * 2 ^ 24

unfoldable pub store32 : Mem → ℕ → ℕ → Mem
store32 m a v =
    write (write (write (write m a (v % 256)) (a + 1) (v / 2 ^ 8 % 256)) (a + 2) (v / 2 ^ 16 % 256))
      (a + 3) (v / 2 ^ 24 % 256)

-- A store changes no byte but the four of its word.
pub store32_frame : (m : Mem) (a v x : ℕ) → (x < a) ⊎ (a + 4 ≤ x) → store32 m a v x ≡ m x
unfolding store32 write
store32_frame m a v x h = ground arith

pub load32-store32 : (m : Mem) (a v : ℕ) → v < 2 ^ 32 → load32 (store32 m a v) a ≡ v
unfolding load32 store32 write
load32-store32 m a v h = ground arith

pub load32-store32_apart :
    (m : Mem) (a v b : ℕ) → (b + 4 ≤ a) ⊎ (a + 4 ≤ b) → load32 (store32 m a v) b ≡ load32 m b
unfolding load32
load32-store32_apart m a v b (inl h) = ground (
  arith,
  store32_frame m a v b (inl (omega arith)),
  store32_frame m a v (b + 1) (inl (omega arith)),
  store32_frame m a v (b + 2) (inl (omega arith)),
  store32_frame m a v (b + 3) (inl (omega arith)),
)
load32-store32_apart m a v b (inr h) = ground (
  arith,
  store32_frame m a v b (inr (omega arith)),
  store32_frame m a v (b + 1) (inr (omega arith)),
  store32_frame m a v (b + 2) (inr (omega arith)),
  store32_frame m a v (b + 3) (inr (omega arith)),
)

-- Words with the same bytes are the same.
pub load32-ext :
    (m n : Mem) (a : ℕ) → ((i : ℕ) → i < 4 → m (a + i) ≡ n (a + i)) → load32 m a ≡ load32 n a
unfolding load32
load32-ext m n a same = ground (arith, same 0, same 1, same 2, same 3)
