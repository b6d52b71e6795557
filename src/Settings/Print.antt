-- ===== src/Settings/Print.antt =====
-- kernel.c: snprintf.
use mathlib.Core.Option.{some-injective}
use libre_win.Prelude.{
  take, length-take, ap, ◌-◌, false, ℕ, zero, suc, ◌+◌, ◌≤◌, ◌<◌, ◌≡◌, inl, inr, refl, ◌∙◌, arith,
  Bool-cases, true, false, some, List, [], ◌∷◌, ◌++◌, length,
}
use native.Mathlib.Decide.{dec_lt}
use libre_win.Memory.{Mem}
use libre_win.Str.Text.{HasString}
use libre_win.Str.Copy.{SameOutside}
use libre_win.Settings.{snprintf}
use libre_win.Settings.Format.{expand, Away, AllAway, AllAway-frame}
use libre_win.Settings.Rounds.{
  take_nothing, take_join, empty_of_length, Written, end-Written, write-Inside, Away-tail,
  is_string, expand_plain, expand_string, expand_no_text, is_string_lem, plain_step, string_step,
}

no_string : (c : ℕ) → is_string c 0 ≡ false
unfolding is_string
no_string c = ground arith

-- What of a text there is room for from an index on.
abbrev room_for : ℕ → ℕ → List ℕ → List ℕ
room_for size index out = take (size - 1 - index) out

room_for-cons :
    (size index c : ℕ) (more : List ℕ)
    → index + 1 < size
    → c ∷ room_for size (index + 1) more ≡ room_for size index (c ∷ more)
room_for-cons size index c more room =
    let next : size - 1 - index ≡ suc (size - 1 - (index + 1)) = omega arith in rw next refl

room_for-append :
    (size index : ℕ) (t more : List ℕ)
    → room_for size index t ++ room_for size (index + length (room_for size index t)) more
      ≡ room_for size index (t ++ more)
room_for-append size index t more =
    let left : size - 1 - (index + length (room_for size index t))
        ≡ size - 1 - index - length (take (size - 1 - index) t) =
      omega arith in
    rw left (take_join (size - 1 - index) t more)

string_case :
    (fuel : ℕ) (m : Mem) (buffer size index format : ℕ) (args : List ℕ) (c d : ℕ) (fmt : List ℕ)
    (texts : List (List ℕ)) (out : List ℕ)
    → Away m buffer size format (c ∷ d ∷ fmt)
    → AllAway m buffer size args texts
    → expand (c ∷ d ∷ fmt) texts ≡ some out
    → is_string c d ≡ true
    → index + 1 < size
    → ((n : Mem) (args' : List ℕ) (ts : List (List ℕ)) (more : List ℕ) (index' : ℕ)
        → Away n buffer size (format + 2) fmt
        → AllAway n buffer size args' ts
        → expand fmt ts ≡ some more
        → index' + 1 ≤ size
        → Written fuel n buffer size index' (format + 2) args' (room_for size index' more))
    → Written (suc fuel) m buffer size index format args (room_for size index out)
string_case fuel m buffer size index format [] c d fmt [] out a b e string room next =
    absurd (expand_no_text c d fmt out string e)
string_case fuel m buffer size index format [] c d fmt (t ∷ ts) out a b e string room next =
    absurd b
string_case fuel m buffer size index format (arg ∷ args) c d fmt [] out a b e string room next =
    absurd (expand_no_text c d fmt out string e)
string_case fuel m buffer size index format (arg ∷ args) c d fmt (t ∷ ts) out a (one, others) e
      string room next =
    let (more, f, same) = expand_string c d fmt t ts out string e in
    let (is_percent, is_s) = is_string_lem c d string in
    let behind : format + 1 + 1 ≡ format + 2 = omega arith in
    let index' = index + length (room_for size index t) in
    rw (← same, ← room_for-append size index t more)
      (string_step fuel m buffer size index format arg args t (room_for size index' more)
        (a.0.0 ∙ is_percent) (a.0.2.0 ∙ is_s) one room
        (λ n keep.
          next n args ts more index'
            (rw behind at (
              Away-tail n n buffer size (format + 1) d fmt (λ x out. refl)
                (Away-tail m n buffer size format c (d ∷ fmt) keep a)))
            (AllAway-frame m n buffer size args ts keep others) f
            (omega (arith, length-take (size - 1 - index) t))))

full-Written :
    (fuel : ℕ) (m : Mem) (buffer size index format : ℕ) (args out : List ℕ)
    → size ≤ index + 1
    → Written (suc fuel) m buffer size index format args (room_for size index out)
full-Written fuel m buffer size index format args out full =
    end-Written fuel m buffer size index format args _ (inr full) (
      empty_of_length (room_for size index out) (omega (arith, length-take (size - 1 - index) out)))

format_loop_lem :
    (fuel : ℕ) (m : Mem) (buffer size index format : ℕ) (args fmt : List ℕ) (texts : List (List ℕ))
    (out : List ℕ)
    → Away m buffer size format fmt
    → AllAway m buffer size args texts
    → expand fmt texts ≡ some out
    → length fmt < fuel
    → index + 1 ≤ size
    → Written fuel m buffer size index format args (room_for size index out)
unfolding expand
format_loop_lem zero m buffer size index format args fmt texts out a b e lt fits =
    absurd (omega arith)
format_loop_lem (suc fuel) m buffer size index format args [] texts out (h, away) b e lt fits =
    let empty : [] ≡ out = some-injective [] out e in
    rw (← empty)
      (end-Written fuel m buffer size index format args _ (inl h) (take_nothing (size - 1 - index)))
format_loop_lem (suc fuel) m buffer size index format args (c ∷ []) texts out a b e lt fits =
    let same : c ∷ [] ≡ out = some-injective _ _ e in
    elim (dec_lt (index + 1) size) [
      | no full ↦ full-Written fuel m buffer size index format args out (omega arith)
      | yes room ↦
          let keep = write-Inside m buffer size index c (omega arith) in
          rw (← same, ← room_for-cons size index c [] room)
            (plain_step fuel m buffer size index format args c 0 _ a.0.0 a.0.1 a.0.2 (no_string c)
              room
              (format_loop_lem fuel _ buffer size (index + 1) (format + 1) args [] texts []
                (Away-tail m _ buffer size format c [] keep a)
                (AllAway-frame m _ buffer size args texts keep b) refl (omega arith) (omega arith)))
    ]
format_loop_lem (suc fuel) m buffer size index format args (c ∷ d ∷ fmt) texts out a b e lt fits =
    elim (dec_lt (index + 1) size) [
      | no full ↦ full-Written fuel m buffer size index format args out (omega arith)
      | yes room ↦ elim (Bool-cases (is_string c d)) [
        | inr other ↦
            let (more, f, same) = expand_plain c d fmt texts out other e in
            let keep = write-Inside m buffer size index c (omega arith) in
            rw (← same, ← room_for-cons size index c more room)
              (plain_step fuel m buffer size index format args c d _ a.0.0 a.0.1 a.0.2.0 other room
                (format_loop_lem fuel _ buffer size (index + 1) (format + 1) args (d ∷ fmt) texts
                  more (Away-tail m _ buffer size format c (d ∷ fmt) keep a)
                  (AllAway-frame m _ buffer size args texts keep b) f (omega arith) (omega arith)))
        | inl string ↦
            string_case fuel m buffer size index format args c d fmt texts out a b e string room
              (λ n args' ts more index' a' b' f fits'.
                format_loop_lem fuel n buffer size index' (format + 2) args' fmt ts more a' b' f
                  (omega arith) fits')
      ]
    ]

-- snprintf of a format and as many texts as it has "%s", all outside the buffer, which has at least a byte: with any fuel
-- above the length of the format, the buffer holds the format with the texts put in for the "%s" in order, cut off to
-- what fits with the end, and no byte but those of this string and of its end has changed, so that none behind the
-- buffer has.
pub snprintf-expand :
    (fuel : ℕ) (m : Mem) (buffer size format : ℕ) (args fmt : List ℕ) (texts : List (List ℕ))
    (out : List ℕ)
    → Away m buffer size format fmt
    → AllAway m buffer size args texts
    → expand fmt texts ≡ some out
    → length fmt < fuel
    → 0 < size
    → (n : Mem) × (snprintf fuel m buffer size format args ≡ some n)
      × HasString n buffer (take (size - 1) out)
      × SameOutside m n buffer (length (take (size - 1) out) + 1)
      × (length (take (size - 1) out) + 1 ≤ size)
unfolding snprintf
snprintf-expand fuel m buffer size format args fmt texts out a b e lt positive =
    let (n, f, h, same) =
      format_loop_lem fuel m buffer size 0 format args fmt texts out a b e lt (omega arith) in
    let place : buffer + 0 ≡ buffer = omega arith in
    let whole : size - 1 - 0 ≡ size - 1 = omega arith in
    (
      n,
      f,
      rw whole at (rw place at h),
      rw whole at (rw place at same),
      omega (arith, length-take (size - 1) out),
    )

take_all : (n : ℕ) (out : List ℕ) → length out ≤ n → take n out ≡ out
take_all zero [] le = refl
take_all zero (c ∷ out) le = absurd (omega arith)
take_all (suc n) [] le = refl
take_all (suc n) (c ∷ out) le = ap (λ rest. c ∷ rest) (take_all n out (omega arith))

-- Where all of the output and its end fit.
pub snprintf_fits :
    (fuel : ℕ) (m : Mem) (buffer size format : ℕ) (args fmt : List ℕ) (texts : List (List ℕ))
    (out : List ℕ)
    → Away m buffer size format fmt
    → AllAway m buffer size args texts
    → expand fmt texts ≡ some out
    → length fmt < fuel
    → length out + 1 ≤ size
    → (n : Mem) × (snprintf fuel m buffer size format args ≡ some n)
      × HasString n buffer out
      × SameOutside m n buffer (length out + 1)
snprintf_fits fuel m buffer size format args fmt texts out a b e lt fits =
    let (n, f, h, same, _) =
      snprintf-expand fuel m buffer size format args fmt texts out a b e lt (omega arith) in
    let all = take_all (size - 1) out (omega arith) in (n, f, rw all at h, rw all at same)
