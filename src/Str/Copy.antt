-- ===== src/Str/Copy.antt =====
-- string.c: strcpy and strncpy copy a string and write nowhere else.
use libre_win.Prelude.{
  ℕ, zero, suc, ◌+◌, ◌-◌, ◌<◌, ◌≤◌, ◌≡◌, ◌≢◌, ◌⊎◌, inl, inr, false, List, [], ◌∷◌, some, arith,
  length, take, ◌==◌, ◌∙◌,
}
use mathlib.Core.Path.{subst, sym}
use libre_win.Memory.{Mem, write}
use libre_win.Str.{strcpy, strncpy_loop, strncpy}
use libre_win.Str.Text.{HasString, HasString-frame}

-- `n` differs from `m` at most from `p` to `p + len - 1`.
abbrev pub SameOutside : Mem → Mem → ℕ → ℕ → Type 0
SameOutside m n p len = (x : ℕ) → (x < p) ⊎ (p + len ≤ x) → n x ≡ m x

-- strcpy on ranges that do not overlap ends, with any fuel above the length of the string; the
-- destination then holds the string, and only the bytes that it fills have changed.
pub strcpy_lem :
    (fuel : ℕ) (m : Mem) (dest src : ℕ) (s : List ℕ)
    → HasString m src s
    → length s < fuel
    → (dest + length s < src) ⊎ (src + length s < dest)
    → (n : Mem) × (strcpy fuel m dest src ≡ some n)
      × HasString n dest s
      × SameOutside m n dest (length s + 1)
unfolding strcpy write
strcpy_lem zero m dest src s h lt apart = absurd (omega arith)
strcpy_lem (suc fuel) m dest src [] h lt apart =
    (write m dest 0, ground arith, ground arith, λ x o. ground arith)
strcpy_lem (suc fuel) m dest src (c ∷ s) h lt apart =
    let m' : Mem = write m dest (m src) in
    let kept : HasString m' (src + 1) s =
      HasString-frame m m' (src + 1) s (λ i le. ground arith) h.2 in
    let (n, copied, holds, same) =
      strcpy_lem fuel m' (dest + 1) (src + 1) s kept (omega arith)
        (elim apart [ inl a ↦ inl (omega arith) | inr b ↦ inr (omega arith) ]) in
    (
      n,
      ground (arith, h.0),
      (same dest (inl (omega arith)) ∙ ground arith, h.1, holds),
      λ x o.
          same x (elim o [ inl a ↦ inl (omega arith) | inr b ↦ inr (omega arith) ]) ∙ ground arith,
    )

strncpy_loop_step :
    (left i p q c : ℕ) (m : Mem) (dest src : ℕ)
    → dest + i ≡ p
    → src + i ≡ q
    → m q ≡ c
    → c ≢ 0
    → strncpy_loop (suc left) i m dest src ≡ strncpy_loop left (i + 1) (write m p c) dest src
unfolding strncpy_loop
strncpy_loop_step left i p q c m dest src e f g ne =
    let nonzero : (c == 0) ≡ false = ground arith in rw (e, f, g, nonzero)

-- The loop stands at the `i`th byte of both ranges, `p` and `q`, and makes at most `left` rounds.
strncpy_loop_lem :
    (left i p q : ℕ) (m : Mem) (dest src : ℕ) (s : List ℕ)
    → dest + i ≡ p
    → src + i ≡ q
    → HasString m q s
    → (p + left < q) ⊎ (q + length s < p)
    → HasString (strncpy_loop left i m dest src) p (take left s)
      × SameOutside m (strncpy_loop left i m dest src) p (left + 1)
unfolding strncpy_loop write
strncpy_loop_lem zero i p q m dest src s e f h apart = (ground arith, λ x o. ground arith)
strncpy_loop_lem (suc left) i p q m dest src [] e f h apart = (ground arith, λ x o. ground arith)
strncpy_loop_lem (suc left) i p q m dest src (c ∷ s) e f h apart =
    let m' : Mem = write m p c in
    let kept : HasString m' (q + 1) s = HasString-frame m m' (q + 1) s (λ i le. ground arith) h.2 in
    let (holds, same) =
      strncpy_loop_lem left (i + 1) (p + 1) (q + 1) m' dest src s (omega arith) (omega arith) kept
        (elim apart [ inl a ↦ inl (omega arith) | inr b ↦ inr (omega arith) ]) in
    subst (λ n. HasString n p (c ∷ take left s) × SameOutside m n p (suc left + 1))
      (sym (strncpy_loop_step left i p q c m dest src e f h.0 h.1))
      (
        (same p (inl (omega arith)) ∙ ground arith, h.1, holds),
        λ x o.
            same x (elim o [ inl a ↦ inl (omega arith) | inr b ↦ inr (omega arith) ])
            ∙ ground arith,
      )

-- strncpy with a count of at least 1, on ranges that do not overlap, puts at most `count - 1` bytes of the string and a
-- zero byte into the destination, and writes none but the `count` bytes there.
pub strncpy_lem :
    (m : Mem) (dest src count : ℕ) (s : List ℕ)
    → 0 < count
    → HasString m src s
    → (dest + count ≤ src) ⊎ (src + length s < dest)
    → HasString (strncpy m dest src count) dest (take (count - 1) s)
      × SameOutside m (strncpy m dest src count) dest count
unfolding strncpy
strncpy_lem m dest src count s positive h apart =
    let (holds, same) =
      strncpy_loop_lem (count - 1) 0 dest src m dest src s (omega arith) (omega arith) h
        (elim apart [ inl a ↦ inl (omega arith) | inr b ↦ inr b ]) in
    (holds, λ x o. same x (elim o [ inl a ↦ inl a | inr b ↦ inr (omega arith) ]))
