-- ===== src/Memory/Laws.antt =====
-- What memset, memcpy and memcmp of memory.c do to each byte.
use libre_win.Prelude.{
  ℕ, zero, suc, ◌+◌, ◌-◌, ◌%◌, ◌≤◌, ◌<◌, ◌≡◌, ◌≢◌, ◌⊎◌, ◌↔◌, inl, inr, refl, Bool, ◌&&◌, arith, ltb,
  leb, if◌then◌else◌,
}
use libre_win.Prelude.Int.{pos, negsuc}
use libre_win.Memory.{Mem, write, memset_loop, memset, memcmp, memcpy, char_lt}

-- `lo ≤ x < lo + n`
abbrev pub within : ℕ → ℕ → ℕ → Bool
within lo n x = leb lo x && ltb x (lo + n)

memset_loop_lem :
    (left i ptr c : ℕ) (m : Mem) (x : ℕ)
    → memset_loop left i ptr c m x ≡ (if within (ptr + i) left x then c % 256 else m x)
unfolding memset_loop write
memset_loop_lem zero i ptr c m x = ground arith
memset_loop_lem (suc left) i ptr c m x =
    ground (arith, memset_loop_lem left (i + 1) ptr c (write m (ptr + i) (c % 256)) x)

-- After memset exactly the `size` bytes from `ptr` on hold the low byte of `c`; every other byte of
-- the memory is as before.
pub memset_lem :
    (m : Mem) (ptr c size x : ℕ)
    → memset m ptr c size x ≡ (if within ptr size x then c % 256 else m x)
unfolding memset
memset_lem m ptr c size x = ground (arith, memset_loop_lem size 0 ptr c m x)

-- memcpy copies the `len` bytes at `src` to `dest` and changes no other byte, if the destination
-- does not lie above the source inside it: forward overlap is fine.
pub memcpy_lem :
    (len : ℕ) (m : Mem) (dest src x : ℕ)
    → (dest ≤ src) ⊎ (src + len ≤ dest)
    → memcpy m dest src len x ≡ (if within dest len x then m (src + (x - dest)) else m x)
unfolding memcpy write
memcpy_lem zero m dest src x h = ground arith
memcpy_lem (suc len) m dest src x (inl below) =
    ground (arith, memcpy_lem len (write m dest (m src)) (dest + 1) (src + 1) x (inl (omega arith)))
memcpy_lem (suc len) m dest src x (inr apart) =
    ground (arith, memcpy_lem len (write m dest (m src)) (dest + 1) (src + 1) x (inr (omega arith)))

same_of_memcmp :
    (count : ℕ) (m : Mem) (s1 s2 : ℕ)
    → memcmp m s1 s2 count ≡ pos 0
    → (i : ℕ) → i < count
    → m (s1 + i) ≡ m (s2 + i)
unfolding memcmp
same_of_memcmp zero m s1 s2 e i h = absurd (omega arith)
same_of_memcmp (suc count) m s1 s2 e zero h = ground arith
same_of_memcmp (suc count) m s1 s2 e (suc i) h =
    ground (arith, same_of_memcmp count m (s1 + 1) (s2 + 1) (ground arith) i (omega arith))

-- The first bytes that differ decide, and they are compared as signed characters.
pub memcmp_first :
    (i count : ℕ) (m : Mem) (s1 s2 : ℕ)
    → ((j : ℕ) → j < i → m (s1 + j) ≡ m (s2 + j))
    → i < count
    → m (s1 + i) ≢ m (s2 + i)
    → memcmp m s1 s2 count ≡ (if char_lt (m (s1 + i)) (m (s2 + i)) then negsuc 0 else pos 1)
unfolding memcmp
memcmp_first i zero m s1 s2 same h ne = absurd (omega arith)
memcmp_first zero (suc count) m s1 s2 same h ne = ground arith
memcmp_first (suc i) (suc count) m s1 s2 same h ne = ground (
  arith,
  same 0,
  memcmp_first i count m (s1 + 1) (s2 + 1) (λ j hj. ground (arith, same (suc j))) (omega arith)
      (λ e. ne (ground arith)),
)

memcmp_of_same :
    (count : ℕ) (m : Mem) (s1 s2 : ℕ)
    → ((i : ℕ) → i < count → m (s1 + i) ≡ m (s2 + i))
    → memcmp m s1 s2 count ≡ pos 0
unfolding memcmp
memcmp_of_same zero m s1 s2 all = refl
memcmp_of_same (suc count) m s1 s2 all =
    ground
      (arith, all 0, memcmp_of_same count m (s1 + 1) (s2 + 1) (λ i hi. ground (arith, all (suc i))))

-- memcmp answers 0 exactly when the two ranges hold the same bytes.
pub memcmp-eq-zero :
    (count : ℕ) (m : Mem) (s1 s2 : ℕ)
    → (memcmp m s1 s2 count ≡ pos 0) ↔ ((i : ℕ) → i < count → m (s1 + i) ≡ m (s2 + i))
memcmp-eq-zero count m s1 s2 = (same_of_memcmp count m s1 s2, memcmp_of_same count m s1 s2)
