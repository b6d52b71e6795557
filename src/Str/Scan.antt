-- ===== src/Str/Scan.antt =====
-- string.c: strlen, strnlen, strnlen_terminator and strchr on strings.
use libre_win.Prelude.{
  ℕ, zero, suc, ◌+◌, ◌<◌, ◌≡◌, List, [], ◌∷◌, Option, none, some, arith, length, ◌==◌,
  if◌then◌else◌,
}
use Prim.Native.Nat.{min}
use libre_win.Memory.{Mem}
use libre_win.Str.{
  strlen_loop, strlen, strnlen_loop, strnlen, strnlen_terminator_loop, strnlen_terminator, strchr,
}
use libre_win.Str.Text.{HasString}

strlen_loop-length :
    (fuel : ℕ) (m : Mem) (p i : ℕ) (s : List ℕ)
    → HasString m p s
    → length s < fuel
    → strlen_loop fuel m p i ≡ some (i + length s)
unfolding strlen_loop
strlen_loop-length zero m p i s h lt = absurd (omega arith)
strlen_loop-length (suc fuel) m p i [] h lt = ground arith
strlen_loop-length (suc fuel) m p i (c ∷ s) h lt =
    ground (arith, strlen_loop-length fuel m (p + 1) (i + 1) s h.2 (omega arith))

-- strlen answers the length of the string, with any fuel above it.
pub strlen-length :
    (fuel : ℕ) (m : Mem) (p : ℕ) (s : List ℕ)
    → HasString m p s
    → length s < fuel
    → strlen fuel m p ≡ some (length s)
unfolding strlen
strlen-length fuel m p s h lt = ground (arith, strlen_loop-length fuel m p 0 s h lt)

-- The loop stands at `q`, the `i`th byte from `p`.
strnlen_loop-length :
    (left : ℕ) (m : Mem) (p i q : ℕ) (s : List ℕ)
    → p + i ≡ q
    → HasString m q s
    → strnlen_loop left m p i ≡ i + min left (length s)
unfolding strnlen_loop
strnlen_loop-length zero m p i q s e h = omega arith
strnlen_loop-length (suc left) m p i q [] e h = ground arith
strnlen_loop-length (suc left) m p i q (c ∷ s) e h =
    ground (arith, strnlen_loop-length left m p (i + 1) (q + 1) s (omega arith) h.2)

-- strnlen answers the length of the string, or the bound where that is smaller.
pub strnlen-min :
    (m : Mem) (p max : ℕ) (s : List ℕ) → HasString m p s → strnlen m p max ≡ min max (length s)
unfolding strnlen
strnlen-min m p max s h = ground (arith, strnlen_loop-length max m p 0 p s (omega arith) h)

-- The bytes before the first `stop`.
unfoldable pub before : ℕ → List ℕ → List ℕ
before stop [] = []
before stop (c ∷ s) = if c == stop then [] else c ∷ before stop s

strnlen_terminator_loop-before :
    (left : ℕ) (m : Mem) (stop p i q : ℕ) (s : List ℕ)
    → p + i ≡ q
    → HasString m q s
    → strnlen_terminator_loop left m p stop i ≡ i + min left (length (before stop s))
unfolding strnlen_terminator_loop before
strnlen_terminator_loop-before zero m stop p i q s e h = omega arith
strnlen_terminator_loop-before (suc left) m stop p i q [] e h = ground arith
strnlen_terminator_loop-before (suc left) m stop p i q (c ∷ s) e h =
    ground (arith, strnlen_terminator_loop-before left m stop p (i + 1) (q + 1) s (omega arith) h.2)

-- strnlen_terminator answers how many bytes stand before the terminator or the end of the string,
-- or the bound where that is smaller.
pub strnlen_terminator-before :
    (m : Mem) (p max stop : ℕ) (s : List ℕ)
    → HasString m p s
    → strnlen_terminator m p max stop ≡ min max (length (before stop s))
unfolding strnlen_terminator
strnlen_terminator-before m p max stop s h =
    ground (arith, strnlen_terminator_loop-before max m stop p 0 p s (omega arith) h)

-- Where the first `c` of a string that begins at `p` stands.
unfoldable pub find_byte : ℕ → ℕ → List ℕ → Option ℕ
find_byte c p [] = none
find_byte c p (d ∷ s) = if d == c then some p else find_byte c (p + 1) s

-- strchr answers the address of the first byte that is looked for; for the zero byte, that of the end
-- of the string; and NULL where the byte does not occur.
pub strchr-find_byte :
    (fuel : ℕ) (m : Mem) (p c : ℕ) (s : List ℕ)
    → HasString m p s
    → length s < fuel
    → strchr fuel m p c ≡ some (if c == 0 then some (p + length s) else find_byte c p s)
unfolding strchr find_byte
strchr-find_byte zero m p c s h lt = absurd (omega arith)
strchr-find_byte (suc fuel) m p c [] h lt = ground arith
strchr-find_byte (suc fuel) m p c (d ∷ s) h lt =
    ground (arith, strchr-find_byte fuel m (p + 1) c s h.2 (omega arith))
