-- ===== src/Settings/Search.antt =====
-- kernel.c: strstr on two strings.
use libre_win.Prelude.{
  ℕ, zero, suc, ◌+◌, ◌≤◌, ◌<◌, ◌≡◌, refl, ap, ◌∙◌, inl, inr, arith, Bool, Bool-cases, true, false,
  ◌&&◌, ◌==◌, if◌then◌else◌, Option, none, some, List, [], ◌∷◌, length,
}
use mathlib.Core.Option.{some-injective}
use libre_win.Memory.{Mem}
use libre_win.Str.Text.{HasString}
use libre_win.Settings.{match_loop, haystack_loop, strstr}

abbrev pub is_prefix : List ℕ → List ℕ → Bool
is_prefix [] text = true
is_prefix (c ∷ needle) [] = false
is_prefix (c ∷ needle) (b ∷ text) = (b == c) && is_prefix needle text

abbrev pub one_later : Option ℕ → Option ℕ
one_later none = none
one_later (some i) = some (i + 1)

-- The index from which on the needle first stands in the text.
unfoldable pub first_occurrence : List ℕ → List ℕ → Option ℕ
first_occurrence needle [] = if is_prefix needle [] then some 0 else none
first_occurrence needle (b ∷ text) =
    if is_prefix needle (b ∷ text) then some 0 else one_later (first_occurrence needle text)

first_of_empty : (text : List ℕ) → first_occurrence [] text ≡ some 0
unfolding first_occurrence
first_of_empty [] = refl
first_of_empty (b ∷ text) = refl

abbrev pub from_start : ℕ → Option ℕ → Option ℕ
from_start p none = none
from_start p (some i) = some (p + i)

from_start-one_later : (p : ℕ) (o : Option ℕ) → from_start (p + 1) o ≡ from_start p (one_later o)
from_start-one_later p none = refl
from_start-one_later p (some i) = ap some (omega arith)

match_loop-is_prefix :
    (fuel : ℕ) (m : Mem) (h n : ℕ) (text needle : List ℕ)
    → HasString m h text
    → HasString m n needle
    → length needle < fuel
    → match_loop fuel m h n ≡ some (is_prefix needle text)
unfolding match_loop
match_loop-is_prefix zero m h n text needle ht hn f = absurd (omega arith)
match_loop-is_prefix (suc fuel) m h n [] [] ht hn f = ground arith
match_loop-is_prefix (suc fuel) m h n (b ∷ text) [] ht hn f = ground arith
match_loop-is_prefix (suc fuel) m h n [] (c ∷ needle) ht hn f = ground arith
match_loop-is_prefix (suc fuel) m h n (b ∷ text) (c ∷ needle) ht hn f =
    ground (arith, match_loop-is_prefix fuel m (h + 1) (n + 1) text needle ht.2 hn.2 (omega arith))

haystack_loop-first :
    (fuel : ℕ) (m : Mem) (h n : ℕ) (text : List ℕ) (c : ℕ) (needle : List ℕ)
    → HasString m h text
    → HasString m n (c ∷ needle)
    → length text + length (c ∷ needle) < fuel
    → haystack_loop fuel m h n ≡ some (from_start h (first_occurrence (c ∷ needle) text))
unfolding haystack_loop first_occurrence
haystack_loop-first zero m h n text c needle ht hn f = absurd (omega arith)
haystack_loop-first (suc fuel) m h n [] c needle ht hn f = ground (arith, ht)
haystack_loop-first (suc fuel) m h n (b ∷ text) c needle ht hn f =
    let here = match_loop-is_prefix (suc fuel) m h n (b ∷ text) (c ∷ needle) ht hn (omega arith) in
    let not_end : (m h == 0) ≡ false = ground (arith, ht.0, ht.1) in
    elim (Bool-cases (is_prefix (c ∷ needle) (b ∷ text))) [
      | inl found ↦ rw (not_end, here, found) (ap some (ap some (omega arith)))
      | inr other ↦
          rw (not_end, here, other)
            (haystack_loop-first fuel m (h + 1) n text c needle ht.2 hn (omega arith)
              ∙ ap some (from_start-one_later h (first_occurrence (c ∷ needle) text)))
    ]

-- strstr answers the address from which on the needle first stands in the text, or NULL where it does not, and the
-- text itself for an empty needle; any fuel above the lengths of both is enough.
pub strstr-first_occurrence :
    (fuel : ℕ) (m : Mem) (haystack needle_at : ℕ) (text needle : List ℕ)
    → HasString m haystack text
    → HasString m needle_at needle
    → length text + length needle < fuel
    → strstr fuel m haystack needle_at ≡ some (from_start haystack (first_occurrence needle text))
unfolding strstr
strstr-first_occurrence fuel m haystack needle_at text [] ht hn f =
    rw (first_of_empty text) (ground (arith, hn))
strstr-first_occurrence fuel m haystack needle_at text (c ∷ needle) ht hn f =
    let not_empty : (m needle_at == 0) ≡ false = ground (arith, hn.0, hn.1) in
    rw not_empty (haystack_loop-first fuel m haystack needle_at text c needle ht hn f)

pub first_occurrence-le :
    (needle text : List ℕ) (i : ℕ) → first_occurrence needle text ≡ some i → i ≤ length text
unfolding first_occurrence
first_occurrence-le needle [] i e = ground arith
first_occurrence-le needle (b ∷ text) i e = elim (Bool-cases (is_prefix needle (b ∷ text))) [
  | inl found ↦ omega (arith, some-injective _ _ (rw found at e))
  | inr other ↦
      one_later-le (first_occurrence needle text) i (rw other at e)
        (λ j e'. first_occurrence-le needle text j e')
]
  where
    one_later-le :
        (o : Option ℕ) (i : ℕ)
        → one_later o ≡ some i
        → ((j : ℕ) → o ≡ some j → j ≤ length text)
        → i ≤ suc (length text)
    one_later-le none i e h = cc
    one_later-le (some j) i e h = omega (arith, some-injective _ _ e, h j refl)
