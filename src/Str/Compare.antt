-- ===== src/Str/Compare.antt =====
-- string.c: strcmp, strncmp and istrncmp against a comparison of byte lists.
use libre_win.Prelude.{
  ℕ, zero, suc, ◌+◌, ◌<◌, ◌≡◌, ◌≢◌, ◌↔◌, refl, List, [], ◌∷◌, some, arith, length, take, map, ◌==◌,
  if◌then◌else◌, ap, Bool-cases, inl, inr,
}
use mathlib.Core.Option.{some-injective}
use libre_win.Prelude.Int.{ℤ, pos, sub_ℕ}
use libre_win.Memory.{Mem}
use libre_win.Str.{tolower, strcmp, strncmp, istrncmp}
use libre_win.Str.Text.{HasString}

-- The difference of the first two bytes with different keys; the end of a list is a zero byte.
unfoldable pub first_diff : (ℕ → ℕ) → List ℕ → List ℕ → ℤ
first_diff key [] [] = pos 0
first_diff key [] (d ∷ t) = sub_ℕ 0 d
first_diff key (c ∷ s) [] = sub_ℕ c 0
first_diff key (c ∷ s) (d ∷ t) = if key c == key d then first_diff key s t else sub_ℕ c d

abbrev pub same : ℕ → ℕ
same c = c

-- No byte of the list is 0.
abbrev pub NoZero : List ℕ → Type 0
NoZero [] = Unit {0}
NoZero (c ∷ s) = (c ≢ 0) × NoZero s

pub HasString-NoZero : (m : Mem) (p : ℕ) (s : List ℕ) → HasString m p s → NoZero s
HasString-NoZero m p [] h = tt
HasString-NoZero m p (c ∷ s) h = (h.1, HasString-NoZero m (p + 1) s h.2)

NoZero-take : (n : ℕ) (s : List ℕ) → NoZero s → NoZero (take n s)
NoZero-take zero s h = tt
NoZero-take (suc n) [] h = tt
NoZero-take (suc n) (c ∷ s) h = (h.0, NoZero-take n s h.1)

keys_of_first_diff :
    (key : ℕ → ℕ) (s t : List ℕ)
    → NoZero s
    → NoZero t
    → first_diff key s t ≡ pos 0
    → map key s ≡ map key t
unfolding first_diff
keys_of_first_diff key [] [] h k e = refl
keys_of_first_diff key [] (d ∷ t) h k e = absurd (ground arith)
keys_of_first_diff key (c ∷ s) [] h k e = absurd (ground arith)
keys_of_first_diff key (c ∷ s) (d ∷ t) h k e = elim (Bool-cases (key c == key d)) [
  | inl one ↦ ground (arith, keys_of_first_diff key s t h.1 k.1 (ground arith))
  | inr two ↦ absurd (ground arith)
]

first_diff_of_keys :
    (key : ℕ → ℕ) (s t : List ℕ) → map key s ≡ map key t → first_diff key s t ≡ pos 0
unfolding first_diff
first_diff_of_keys key [] [] e = refl
first_diff_of_keys key [] (d ∷ t) e = cc
first_diff_of_keys key (c ∷ s) [] e = cc
first_diff_of_keys key (c ∷ s) (d ∷ t) e = ground (arith, first_diff_of_keys key s t (cc))

-- strcmp answers the difference of the first bytes in which the strings differ.
pub strcmp-first_diff :
    (fuel : ℕ) (m : Mem) (p q : ℕ) (s t : List ℕ)
    → HasString m p s
    → HasString m q t
    → length s < fuel
    → strcmp fuel m p q ≡ some (first_diff same s t)
unfolding strcmp first_diff
strcmp-first_diff zero m p q s t h k lt = absurd (omega arith)
strcmp-first_diff (suc fuel) m p q [] [] h k lt = ground arith
strcmp-first_diff (suc fuel) m p q [] (d ∷ t) h k lt = ground arith
strcmp-first_diff (suc fuel) m p q (c ∷ s) [] h k lt = ground arith
strcmp-first_diff (suc fuel) m p q (c ∷ s) (d ∷ t) h k lt =
    ground (arith, strcmp-first_diff fuel m (p + 1) (q + 1) s t h.2 k.2 (omega arith))

strncmp-first_diff :
    (n : ℕ) (m : Mem) (p q : ℕ) (s t : List ℕ)
    → HasString m p s
    → HasString m q t
    → strncmp m p q n ≡ first_diff same (take n s) (take n t)
unfolding strncmp first_diff
strncmp-first_diff zero m p q s t h k = refl
strncmp-first_diff (suc n) m p q [] [] h k = ground arith
strncmp-first_diff (suc n) m p q [] (d ∷ t) h k = ground arith
strncmp-first_diff (suc n) m p q (c ∷ s) [] h k = ground arith
strncmp-first_diff (suc n) m p q (c ∷ s) (d ∷ t) h k =
    ground (arith, strncmp-first_diff n m (p + 1) (q + 1) s t h.2 k.2)

istrncmp-first_diff :
    (n : ℕ) (m : Mem) (p q : ℕ) (s t : List ℕ)
    → HasString m p s
    → HasString m q t
    → istrncmp m p q n ≡ first_diff tolower (take n s) (take n t)
unfolding istrncmp first_diff
istrncmp-first_diff zero m p q s t h k = refl
istrncmp-first_diff (suc n) m p q [] [] h k = ground arith
istrncmp-first_diff (suc n) m p q [] (d ∷ t) h k = ground arith
istrncmp-first_diff (suc n) m p q (c ∷ s) [] h k = ground arith
istrncmp-first_diff (suc n) m p q (c ∷ s) (d ∷ t) h k =
    ground (arith, istrncmp-first_diff n m (p + 1) (q + 1) s t h.2 k.2)

map-same : (s : List ℕ) → map same s ≡ s
map-same [] = refl
map-same (c ∷ s) = ap (λ r. c ∷ r) (map-same s)

first_diff-eq-zero : (s t : List ℕ) → NoZero s → NoZero t → (first_diff same s t ≡ pos 0) ↔ (s ≡ t)
first_diff-eq-zero s t h k = (
  λ e. rw (map-same s, map-same t) at (keys_of_first_diff same s t h k e),
  λ e. first_diff_of_keys same s t (ap (map same) e),
)

-- strcmp answers 0 exactly when the strings are equal.
pub strcmp-eq-zero :
    (fuel : ℕ) (m : Mem) (p q : ℕ) (s t : List ℕ)
    → HasString m p s
    → HasString m q t
    → length s < fuel
    → (strcmp fuel m p q ≡ some (pos 0)) ↔ (s ≡ t)
strcmp-eq-zero fuel m p q s t h k lt =
    let both = first_diff-eq-zero s t (HasString-NoZero m p s h) (HasString-NoZero m q t k) in
    rw (strcmp-first_diff fuel m p q s t h k lt)
      (λ e. both.0 (some-injective _ _ e), λ e. ap some (both.1 e))

-- strncmp answers 0 exactly when the first `n` bytes of the strings, or all that there are, are equal.
pub strncmp-eq-zero :
    (n : ℕ) (m : Mem) (p q : ℕ) (s t : List ℕ)
    → HasString m p s
    → HasString m q t
    → (strncmp m p q n ≡ pos 0) ↔ (take n s ≡ take n t)
strncmp-eq-zero n m p q s t h k = rw (strncmp-first_diff n m p q s t h k) (
    first_diff-eq-zero (take n s) (take n t) (NoZero-take n s (HasString-NoZero m p s h))
      (NoZero-take n t (HasString-NoZero m q t k)))

-- istrncmp answers 0 exactly when these bytes are equal but for the case of letters.
pub istrncmp-eq-zero :
    (n : ℕ) (m : Mem) (p q : ℕ) (s t : List ℕ)
    → HasString m p s
    → HasString m q t
    → (istrncmp m p q n ≡ pos 0) ↔ (map tolower (take n s) ≡ map tolower (take n t))
istrncmp-eq-zero n m p q s t h k = rw (istrncmp-first_diff n m p q s t h k) (
  keys_of_first_diff tolower (take n s) (take n t) (NoZero-take n s (HasString-NoZero m p s h))
      (NoZero-take n t (HasString-NoZero m q t k)),
  first_diff_of_keys tolower (take n s) (take n t),
)
