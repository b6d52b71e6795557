-- ===== src/Str/Cut.antt =====
-- string.c: strtok cuts the first word out of a text.
use libre_win.Prelude.{
  ℕ, suc, ◌+◌, ◌≤◌, ◌<◌, ◌≡◌, ◌≢◌, ◌⊎◌, inl, inr, refl, ap, ◌∙◌, arith, Bool-cases, true, false,
  ◌==◌, if◌then◌else◌, some, List, [], ◌∷◌, length,
}
use libre_win.Memory.{Mem, write}
use libre_win.Str.Text.{HasString, HasString-frame}
use libre_win.Str.Token.{Token, strtok, skip_loop, token_loop, token_from}
use libre_win.Str.Words.{
  member, skip, word, after_word, words, words-skip, words-word, skip_loop_lem, token_loop_lem,
}

-- The word is a string once its end is a zero byte.
word-HasString :
    (m m' : Mem) (ds : List ℕ) (p : ℕ) (text : List ℕ)
    → HasString m p text
    → ((i : ℕ) → i < length (word ds text) → m' (p + i) ≡ m (p + i))
    → m' (p + length (word ds text)) ≡ 0
    → HasString m' p (word ds text)
unfolding word
word-HasString m m' ds p [] h same end = ground arith
word-HasString m m' ds p (c ∷ text) (byte, not_end, rest) same end =
    elim (Bool-cases (member ds c)) [
      | inl is_delim ↦
          let here : p + 0 ≡ p = omega arith in rw is_delim (rw here at (rw is_delim at end))
      | inr other ↦
          let same' = rw other at same in
          let here : p + 0 ≡ p = omega arith in
          let at_end : m' (p + 1 + length (word ds text)) ≡ 0 = ground (arith, rw other at end) in
          rw other (
            rw here at (same' 0 (omega arith)) ∙ byte,
            not_end,
            word-HasString m m' ds (p + 1) text rest
                (λ i lt. ground (arith, same' (suc i) (omega arith))) at_end,
          )
    ]

-- What is left for the next call: nothing, or a text that ends at `hi`.
abbrev pub IsRest : Mem → ℕ → ℕ → List ℕ → Type 0
IsRest m hi next_token rest =
    ((next_token ≡ 0) × (rest ≡ []))
    ⊎ ((0 < next_token) × HasString m next_token rest × (next_token + length rest ≡ hi))

-- The answer of strtok on a text from `p` to `hi`: NULL where the text has no word; otherwise its first word, as a string
-- in the place where it stood, with the other words left. Nothing outside the text changes.
pub record Cut (ds : List ℕ) (m : Mem) (p hi : ℕ) (text : List ℕ) (t : Token) : Type 0 where
  pub w : List ℕ
  pub rest : List ℕ
  pub words_left : words ds text ≡ w ∷ words ds rest
  pub nonempty : 0 < length w
  pub shorter : length w + length rest < length text + 1
  pub place : (p ≤ t.start) × (t.start + length w ≤ hi)
  pub is_word : HasString t.mem t.start w
  pub is_rest : IsRest t.mem hi t.next_token rest
  pub frame : (x : ℕ) → (x < p) ⊎ (hi < x) → t.mem x ≡ m x

after_word-member :
    (ds text : List ℕ) (d : ℕ) (rest : List ℕ) → after_word ds text ≡ d ∷ rest → member ds d ≡ true
unfolding after_word
after_word-member ds [] d rest e = cc
after_word-member ds (c ∷ text) d rest e = elim (Bool-cases (member ds c)) [
  | inl is_delim ↦
      let same : c ∷ text ≡ d ∷ rest = rw is_delim at e in
      let first : c ≡ d = cc in rw (← first) is_delim
  | inr other ↦ after_word-member ds text d rest (rw other at e)
]

word-nonempty :
    (ds : List ℕ) (c : ℕ) (text : List ℕ) → member ds c ≡ false → 0 < length (word ds (c ∷ text))
unfolding word
word-nonempty ds c text other = ground arith

-- At the end of the text, and at a delimiter.
end-Cut :
    (m : Mem) (ds : List ℕ) (p hi c : ℕ) (text : List ℕ)
    → HasString m p (c ∷ text)
    → member ds c ≡ false
    → after_word ds (c ∷ text) ≡ []
    → length (word ds (c ∷ text)) ≡ length (c ∷ text)
    → m (p + length (word ds (c ∷ text))) ≡ 0
    → p + length (c ∷ text) ≡ hi
    → Cut ds m p hi (c ∷ text) (record { start = p; next_token = 0; mem = m })
unfolding words
end-Cut m ds p hi c text h other last size zero_byte ends = record {
  w = word ds (c ∷ text);
  rest = [];
  words_left = rw last at (words-word ds c text other);
  nonempty = word-nonempty ds c text other;
  shorter = omega arith;
  place = (omega arith, omega arith);
  is_word = word-HasString m m ds p (c ∷ text) h (λ i lt. refl) zero_byte;
  is_rest = inl (refl, refl);
  frame = λ x out. refl;
}

delimiter-Cut :
    (m : Mem) (ds : List ℕ) (p hi c d : ℕ) (text rest : List ℕ)
    → HasString m p (c ∷ text)
    → member ds c ≡ false
    → after_word ds (c ∷ text) ≡ d ∷ rest
    → let e = p + length (word ds (c ∷ text)) in
      (length (word ds (c ∷ text)) + suc (length rest) ≡ length (c ∷ text))
      → (HasString m e (d ∷ rest))
      → (p + length (c ∷ text) ≡ hi)
      → Cut ds m p hi (c ∷ text) (record { start = p; next_token = e + 1; mem = write m e 0 })
unfolding words write
delimiter-Cut m ds p hi c d text rest h other split size at ends = record {
  w = word ds (c ∷ text);
  rest = rest;
  words_left =
      rw (after_word-member ds (c ∷ text) d rest split) at
        (rw split at (words-word ds c text other));
  nonempty = word-nonempty ds c text other;
  shorter = omega arith;
  place = (omega arith, omega arith);
  is_word = word-HasString m _ ds p (c ∷ text) h (λ i lt. ground arith) (ground arith);
  is_rest = inr (
    omega arith,
    HasString-frame m _ (p + length (word ds (c ∷ text)) + 1) rest (λ i le. ground arith) at.2,
    omega arith,
  );
  frame = λ x out. ground arith;
}

module _ (m : Mem) (delim : ℕ) (ds : List ℕ) (delims : HasString m delim ds) where
  token_from-Cut :
      (fuel p hi c : ℕ) (text : List ℕ)
      → HasString m p (c ∷ text)
      → member ds c ≡ false
      → length (c ∷ text) + length ds < fuel
      → p + length (c ∷ text) ≡ hi
      → (t : Token) × (token_from fuel m p delim ≡ some t) × Cut ds m p hi (c ∷ text) t
  unfolding token_from
  token_from-Cut fuel p hi c text h other lt ends =
      let (e, at_end, size) = token_loop_lem m delim ds delims fuel p (c ∷ text) h lt in
      let go_on : (m p == 0) ≡ false = ground (arith, h.0, h.1) in
      rest_cases (after_word ds (c ∷ text)) refl e at_end size go_on
    where
      rest_cases :
          (r : List ℕ)
          → after_word ds (c ∷ text) ≡ r
          → token_loop fuel m p delim ≡ some (p + length (word ds (c ∷ text)))
          → HasString m (p + length (word ds (c ∷ text))) r
          → length (word ds (c ∷ text)) + length r ≡ length (c ∷ text)
          → (m p == 0) ≡ false
          → (t : Token) × (token_from fuel m p delim ≡ some t) × Cut ds m p hi (c ∷ text) t
      rest_cases [] split e at size go_on = (
        record { start = p; next_token = 0; mem = m },
        rw (e, go_on, at) refl,
        end-Cut m ds p hi c text h other split (omega (arith, size)) at ends,
      )
      rest_cases (d ∷ rest) split e at size go_on =
          let more : (d == 0) ≡ false = ground (arith, at.1) in
          (
            record {
              start = p;
              next_token = p + length (word ds (c ∷ text)) + 1;
              mem = write m (p + length (word ds (c ∷ text))) 0;
            },
            rw (e, go_on, at.0, more) refl,
            delimiter-Cut m ds p hi c d text rest h other split size at ends,
          )

skip-member :
    (ds text : List ℕ) (c : ℕ) (rest : List ℕ) → skip ds text ≡ c ∷ rest → member ds c ≡ false
unfolding skip
skip-member ds [] c rest e = cc
skip-member ds (b ∷ text) c rest e = elim (Bool-cases (member ds b)) [
  | inl is_delim ↦ skip-member ds text c rest (rw is_delim at e)
  | inr other ↦
      let same : b ∷ text ≡ c ∷ rest = rw other at e in let first : b ≡ c = cc in rw (← first) other
]

-- The cut of the text behind the delimiters is one of the whole text.
Cut-skip :
    (m : Mem) (ds : List ℕ) (p q hi : ℕ) (text : List ℕ) (t : Token)
    → q + length (skip ds text) ≡ p + length text
    → length (skip ds text) ≤ length text
    → Cut ds m q hi (skip ds text) t
    → Cut ds m p hi text t
Cut-skip m ds p q hi text t same shorter cut = record {
  w = cut.w;
  rest = cut.rest;
  words_left = words-skip ds text ∙ cut.words_left;
  nonempty = cut.nonempty;
  shorter = omega (arith, cut.shorter);
  place = (omega (arith, cut.place), omega (arith, cut.place));
  is_word = cut.is_word;
  is_rest = cut.is_rest;
  frame = λ x out. cut.frame x (ground (arith, out));
}

length-skip : (ds text : List ℕ) → length (skip ds text) ≤ length text
unfolding skip
length-skip ds [] = omega arith
length-skip ds (c ∷ text) = ground (arith, length-skip ds text)

strtok-token_from :
    (fuel : ℕ) (m : Mem) (next_token str delim p q : ℕ)
    → (if str == 0 then next_token else str) ≡ p
    → p ≢ 0
    → skip_loop fuel m p delim ≡ some q
    → strtok fuel m next_token str delim ≡ token_from fuel m q delim
unfolding strtok
strtok-token_from fuel m next_token str delim p q from there e =
    let not_null : (p == 0) ≡ false = ground arith in rw (from, not_null, e) refl

-- strtok on a text that ends at `hi`, given anew or as the rest of the call before, with any fuel above the lengths,
-- answers NULL where the text has no word, and otherwise cuts off its first word.
pub strtok-Cut :
    (m : Mem) (delim : ℕ) (ds : List ℕ) (fuel next_token str p hi : ℕ) (text : List ℕ)
    → HasString m delim ds
    → (if str == 0 then next_token else str) ≡ p
    → p ≢ 0
    → HasString m p text
    → length text + length ds < fuel
    → p + length text ≡ hi
    → (t : Token) × (strtok fuel m next_token str delim ≡ some t)
      × (((words ds text ≡ []) × (t.start ≡ 0) × (t.mem ≡ m)) ⊎ Cut ds m p hi text t)
unfolding token_from words
strtok-Cut m delim ds fuel next_token str p hi text delims from there h lt ends =
    let (q, e, at, size) = skip_loop_lem m delim ds delims fuel p text h lt in
    let step = strtok-token_from fuel m next_token str delim p q from there e in
    skipped (skip ds text) refl q step at size
  where
    skipped :
        (r : List ℕ)
        → skip ds text ≡ r
        → (q : ℕ) → strtok fuel m next_token str delim ≡ token_from fuel m q delim
        → HasString m q r
        → q + length r ≡ p + length text
        → (t : Token) × (strtok fuel m next_token str delim ≡ some t)
          × (((words ds text ≡ []) × (t.start ≡ 0) × (t.mem ≡ m)) ⊎ Cut ds m p hi text t)
    skipped [] split q step at size = (
      record { start = 0; next_token = q; mem = m },
      step ∙ rw at refl,
      inl (words-skip ds text ∙ ap (words ds) split, refl, refl),
    )
    skipped (c ∷ r) split q step at size =
        let (t, f, cut) =
          token_from-Cut m delim ds delims fuel q hi c r at (skip-member ds text c r split)
            (omega (arith, rw split at (length-skip ds text))) (omega (arith, size)) in
        (
          t,
          step ∙ f,
          inr (Cut-skip m ds p q hi text t (rw split size) (length-skip ds text) (rw split cut)),
        )
