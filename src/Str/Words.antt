-- ===== src/Str/Words.antt =====
-- string.c: strtok on a text, against the words between its delimiters.
use libre_win.Prelude.{
  ℕ, zero, suc, ◌+◌, ◌<◌, ◌≡◌, ◌≢◌, ◌⊎◌, inl, inr, refl, ap, arith, Bool, Bool-cases, true, false,
  ◌||◌, not, ◌==◌, if◌then◌else◌, none, some, List, [], ◌∷◌, length,
}
use libre_win.Memory.{Mem}
use libre_win.Str.{strchr}
use libre_win.Str.Text.{HasString}
use libre_win.Str.Token.{skip_loop, token_loop}

abbrev pub member : List ℕ → ℕ → Bool
member [] c = false
member (d ∷ ds) c = d == c || member ds c

-- The text from its first byte on that is no delimiter.
unfoldable pub skip : List ℕ → List ℕ → List ℕ
skip ds [] = []
skip ds (c ∷ text) = if member ds c then skip ds text else c ∷ text

-- The text up to the first delimiter, and from it on.
unfoldable pub word : List ℕ → List ℕ → List ℕ
word ds [] = []
word ds (c ∷ text) = if member ds c then [] else c ∷ word ds text

unfoldable pub after_word : List ℕ → List ℕ → List ℕ
after_word ds [] = []
after_word ds (c ∷ text) = if member ds c then c ∷ text else after_word ds text

-- `c` begins a word or goes on with the next one, which stands there if the text does not begin with a delimiter.
abbrev pub longer : Bool → ℕ → List (List ℕ) → List (List ℕ)
longer true c (w ∷ ws) = (c ∷ w) ∷ ws
longer _ c ws = (c ∷ []) ∷ ws

abbrev pub in_word : List ℕ → List ℕ → Bool
in_word ds [] = false
in_word ds (c ∷ text) = not (member ds c)

-- The words of a text, which are the runs of bytes that are no delimiters.
unfoldable pub words : List ℕ → List ℕ → List (List ℕ)
words ds [] = []
words ds (c ∷ text) =
    if member ds c then words ds text else longer (in_word ds text) c (words ds text)

pub words-skip : (ds text : List ℕ) → words ds text ≡ words ds (skip ds text)
unfolding words skip
words-skip ds [] = refl
words-skip ds (c ∷ text) = elim (Bool-cases (member ds c)) [
  | inl is_delim ↦ rw is_delim (words-skip ds text)
  | inr other ↦ rw other (rw other refl)
]

-- A text in a word begins with its word.
pub words-word :
    (ds : List ℕ) (c : ℕ) (text : List ℕ)
    → member ds c ≡ false
    → words ds (c ∷ text) ≡ word ds (c ∷ text) ∷ words ds (after_word ds (c ∷ text))
unfolding words word after_word
words-word ds c [] other = rw other refl
words-word ds c (b ∷ text) other = elim (Bool-cases (member ds b)) [
  | inl is_delim ↦ rw (other, is_delim) (rw is_delim refl)
  | inr more ↦
      rw other (rw more (ap (λ ws. longer true c ws) (rw more at (words-word ds b text more))))
]

-- strchr finds the members of the list of delimiters.
strchr-member :
    (fuel : ℕ) (m : Mem) (delim c : ℕ) (ds : List ℕ)
    → HasString m delim ds
    → length ds < fuel
    → c ≢ 0
    → ((member ds c ≡ true) × (p : ℕ) × (strchr fuel m delim c ≡ some (some p)))
      ⊎ ((member ds c ≡ false) × (strchr fuel m delim c ≡ some none))
unfolding strchr
strchr-member zero m delim c ds h lt ne = absurd (omega arith)
strchr-member (suc fuel) m delim c [] h lt ne = inr (refl, ground arith)
strchr-member (suc fuel) m delim c (d ∷ ds) (byte, not_end, rest) lt ne =
    let go_on : (d == 0) ≡ false = ground arith in
    rw (byte, go_on)
      (elim (Bool-cases (d == c)) [
        | inl same ↦ inl (rw same refl, delim, rw same refl)
        | inr other ↦ rw other (strchr-member fuel m (delim + 1) c ds rest (omega arith) ne)
      ])

module _ (m : Mem) (delim : ℕ) (ds : List ℕ) (delims : HasString m delim ds) where
  pub skip_loop_lem :
      (fuel p : ℕ) (text : List ℕ)
      → HasString m p text
      → length text + length ds < fuel
      → (q : ℕ) × (skip_loop fuel m p delim ≡ some q)
        × HasString m q (skip ds text)
        × (q + length (skip ds text) ≡ p + length text)
  unfolding skip_loop skip
  skip_loop_lem zero p text h lt = absurd (omega arith)
  skip_loop_lem (suc fuel) p [] h lt = (p, rw h refl, h, refl)
  skip_loop_lem (suc fuel) p (c ∷ text) (byte, not_end, rest) lt =
      let go_on : (c == 0) ≡ false = ground arith in
      elim (strchr-member fuel m delim c ds delims (omega arith) not_end) [
        | inl (is_delim, at, e) ↦
            let (q, f, h, size) = skip_loop_lem fuel (p + 1) text rest (omega arith) in
            rw is_delim (q, rw (byte, go_on, e) f, h, omega (arith, size))
        | inr (other, e) ↦ rw other (p, rw (byte, go_on, e) refl, (byte, not_end, rest), refl)
      ]

  pub token_loop_lem :
      (fuel p : ℕ) (text : List ℕ)
      → HasString m p text
      → length text + length ds < fuel
      → (token_loop fuel m p delim ≡ some (p + length (word ds text)))
        × HasString m (p + length (word ds text)) (after_word ds text)
        × (length (word ds text) + length (after_word ds text) ≡ length text)
  unfolding token_loop word after_word
  token_loop_lem zero p text h lt = absurd (omega arith)
  token_loop_lem (suc fuel) p [] h lt =
      let same : p + 0 ≡ p = omega arith in (rw (h, same) refl, rw same h, refl)
  token_loop_lem (suc fuel) p (c ∷ text) (byte, not_end, rest) lt =
      let go_on : (c == 0) ≡ false = ground arith in
      elim (strchr-member fuel m delim c ds delims (omega arith) not_end) [
        | inl (is_delim, at, e) ↦
            let same : p + 0 ≡ p = omega arith in
            rw is_delim (rw same (rw (byte, go_on, e) refl, (byte, not_end, rest), omega arith))
        | inr (other, e) ↦
            let (f, h, size) = token_loop_lem fuel (p + 1) text rest (omega arith) in
            let next : p + suc (length (word ds text)) ≡ p + 1 + length (word ds text) =
              omega arith in
            rw other (rw next (rw (byte, go_on, e) f, h, omega (arith, size)))
      ]
