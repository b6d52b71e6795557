-- ===== src/Str/Text.antt =====
-- The text that a string of string.c stands for: its bytes before the zero byte.
use libre_win.Prelude.{ℕ, zero, suc, ◌+◌, ◌≤◌, ◌≡◌, ◌≢◌, refl, List, [], ◌∷◌, arith, length, drop}
use libre_win.Memory.{Mem}

-- From `p` on the memory holds the bytes of `s`, none of them 0, and then a zero byte.
abbrev pub HasString : Mem → ℕ → List ℕ → Type 0
HasString m p [] = m p ≡ 0
HasString m p (c ∷ s) = (m p ≡ c) × (c ≢ 0) × HasString m (p + 1) s

-- Byte `i` of a text, and 0 from its end on.
unfoldable pub byte_at : List ℕ → ℕ → ℕ
byte_at [] i = 0
byte_at (c ∷ s) zero = c
byte_at (c ∷ s) (suc i) = byte_at s i

-- A string stays what it is while its bytes do.
pub HasString-frame :
    (m n : Mem) (p : ℕ) (s : List ℕ)
    → ((i : ℕ) → i ≤ length s → n (p + i) ≡ m (p + i))
    → HasString m p s
    → HasString n p s
HasString-frame m n p [] same h = ground (arith, same 0)
HasString-frame m n p (c ∷ s) same h = (
  ground (arith, same 0),
  h.1,
  HasString-frame m n (p + 1) s (λ i le. ground (arith, same (suc i))) h.2,
)

-- A memory holds one string at an address.
pub HasString-unique : (m : Mem) (p : ℕ) (s t : List ℕ) → HasString m p s → HasString m p t → s ≡ t
HasString-unique m p [] [] h k = refl
HasString-unique m p [] (d ∷ t) h k = absurd (k.1 (ground arith))
HasString-unique m p (c ∷ s) [] h k = absurd (h.1 (ground arith))
HasString-unique m p (c ∷ s) (d ∷ t) h k = ground (arith, HasString-unique m (p + 1) s t h.2 k.2)

-- What stands from an index on is the rest of the text.
pub HasString-drop :
    (m : Mem) (p i : ℕ) (s : List ℕ)
    → i ≤ length s
    → HasString m p s
    → HasString m (p + i) (drop i s)
HasString-drop m p zero s le h = let same : p + 0 ≡ p = omega arith in rw same h
HasString-drop m p (suc i) [] le h = absurd (omega arith)
HasString-drop m p (suc i) (c ∷ s) le h =
    let next : p + suc i ≡ p + 1 + i = omega arith in
    rw next (HasString-drop m (p + 1) i s (omega arith) h.2)
