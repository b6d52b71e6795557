-- ===== src/Memory.antt =====
-- librewin/base/txos/ke/memory/memory.c: memset, memcmp and memcpy over flat memory.
-- A memory gives the byte at each address. The loops go by the bytes left to do, so a negative
-- count, which the callers never pass, is not modelled.
pub mod Laws
pub mod Words
use libre_win.Prelude.{ℕ, zero, suc, ◌+◌, ◌%◌, ◌-◌, Bool, ltb, ◌==◌, if◌then◌else◌, not}
use libre_win.Prelude.Int.{ℤ, pos, negsuc}

abbrev pub Mem : Type 0
Mem = ℕ → ℕ

unfoldable pub write : Mem → ℕ → ℕ → Mem
write m a v x = if x == a then v else m x

-- `c_ptr[i] = (char) c` for the `left` bytes from `ptr + i` on.
memset_loop : ℕ → ℕ → ℕ → ℕ → Mem → Mem
memset_loop zero i ptr c m = m
memset_loop (suc left) i ptr c m = memset_loop left (i + 1) ptr c (write m (ptr + i) (c % 256))

-- The pointer that is returned is the argument `ptr`.
pub memset : Mem → ℕ → ℕ → ℕ → Mem
unfolding memset_loop
memset m ptr c size = memset_loop size 0 ptr c m

-- `char` is signed: a byte from 128 on stands for itself less 256.
abbrev pub char_lt : ℕ → ℕ → Bool
char_lt a b = ltb ((a + 128) % 256) ((b + 128) % 256)

-- `while(count-- > 0)`, with the comparison of the two bytes that were just passed.
unfoldable pub memcmp : Mem → ℕ → ℕ → ℕ → ℤ
memcmp m s1 s2 zero = pos 0
memcmp m s1 s2 (suc count) =
    let rest = memcmp m (s1 + 1) (s2 + 1) count in
    if not (m s1 == m s2) then (if char_lt (m s1) (m s2) then negsuc 0 else pos 1) else rest

-- `while(len--) *d++ = *s++`: from the lowest address up, each byte read after the writes before.
pub memcpy : Mem → ℕ → ℕ → ℕ → Mem
memcpy m dest src zero = m
memcpy m dest src (suc len) = memcpy (write m dest (m src)) (dest + 1) (src + 1) len
