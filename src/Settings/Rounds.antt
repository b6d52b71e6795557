-- ===== src/Settings/Rounds.antt =====
-- kernel.c: the rounds of snprintf.
use mathlib.Core.Option.{some-injective}
use libre_win.Prelude.{
  take, length-take, ap, zero, ℕ, suc, ◌+◌, ◌-◌, ◌≤◌, ◌<◌, ◌≡◌, ◌≢◌, ◌⊎◌, inl, refl, ◌∙◌, arith,
  Bool, true, false, ◌&&◌, ◌||◌, leb, ◌==◌, Option, none, some, List, [], ◌∷◌, ◌++◌, length,
  length-append,
}
use libre_win.Memory.{Mem, write}
use libre_win.Path.{and_then}
use libre_win.Str.Text.{HasString}
use libre_win.Str.Copy.{SameOutside}
use libre_win.Settings.{argument_loop, format_loop}
use libre_win.Settings.Format.{expand, Away, Inside, Away-frame, argument_loop_lem}

module _ (fuel : ℕ) (m : Mem) (buffer size index format : ℕ) where
  format_end :
      (args : List ℕ)
      → (m format ≡ 0) ⊎ (size ≤ index + 1)
      → format_loop (suc fuel) m buffer size index format args ≡ some (write m (buffer + index) 0)
  unfolding format_loop
  format_end args ends =
      let stop : ((m format == 0) || leb (size - 1) index) ≡ true = ground arith in rw stop refl

  format_argument :
      (arg i : ℕ) (args : List ℕ) (n : Mem)
      → index + 1 < size
      → m format ≡ b'%'
      → m (format + 1) ≡ b's'
      → argument_loop (size - 1 - index) m buffer index arg ≡ (n, i)
      → format_loop (suc fuel) m buffer size index format (arg ∷ args)
        ≡ format_loop fuel n buffer size i (format + 2) args
  unfolding format_loop
  format_argument arg i args n room first second e =
      let go_on : leb (size - 1) index ≡ false = ground arith in rw (first, second, go_on, e) refl

  format_plain :
      (args : List ℕ) (c : ℕ)
      → index + 1 < size
      → m format ≡ c
      → c ≢ 0
      → ((c == b'%') && (m (format + 1) == b's')) ≡ false
      → format_loop (suc fuel) m buffer size index format args
        ≡ format_loop fuel (write m (buffer + index) c) buffer size (index + 1) (format + 1) args
  unfolding format_loop
  format_plain args c room first not_end other =
      let go_on : ((c == 0) || leb (size - 1) index) ≡ false = ground arith in
      rw (first, go_on, other) refl

-- What the loop leaves: the text in the buffer, and nothing else changed.
abbrev pub Written : ℕ → Mem → ℕ → ℕ → ℕ → ℕ → List ℕ → List ℕ → Type 0
Written fuel m buffer size index format args out =
    (n : Mem) × (format_loop fuel m buffer size index format args ≡ some n)
    × HasString n (buffer + index) out
    × SameOutside m n (buffer + index) (length out + 1)

pub end-Written :
    (fuel : ℕ) (m : Mem) (buffer size index format : ℕ) (args out : List ℕ)
    → (m format ≡ 0) ⊎ (size ≤ index + 1)
    → out ≡ []
    → Written (suc fuel) m buffer size index format args out
unfolding write
end-Written fuel m buffer size index format args out ends e = rw e (
  write m (buffer + index) 0,
  format_end fuel m buffer size index format args ends,
  ground arith,
  λ x out. ground arith,
)

plain-Written :
    (fuel : ℕ) (m : Mem) (buffer size index format : ℕ) (args : List ℕ) (c : ℕ) (out : List ℕ)
    → index + 1 < size
    → m format ≡ c
    → c ≢ 0
    → ((c == b'%') && (m (format + 1) == b's')) ≡ false
    → Written fuel (write m (buffer + index) c) buffer size (index + 1) (format + 1) args out
    → Written (suc fuel) m buffer size index format args (c ∷ out)
unfolding write
plain-Written fuel m buffer size index format args c out room first not_end other (n, e, h, same) =
    let place : buffer + index + 1 ≡ buffer + (index + 1) = omega arith in
    (
      n,
      format_plain fuel m buffer size index format args c room first not_end other ∙ e,
      (same (buffer + index) (inl (omega arith)) ∙ ground arith, not_end, rw place h),
      λ x out. same x (ground (arith, out)) ∙ ground (arith, out),
    )

argument-Written :
    (fuel : ℕ) (m n : Mem) (buffer size index format arg : ℕ) (args t out : List ℕ)
    → index + 1 < size
    → m format ≡ b'%'
    → m (format + 1) ≡ b's'
    → argument_loop (size - 1 - index) m buffer index arg ≡ (n, index + length t)
    → SameOutside m n (buffer + index) (length t)
    → ((n' : Mem) (out : List ℕ)
        → SameOutside n n' (buffer + (index + length t)) (length out + 1)
        → HasString n' (buffer + (index + length t)) out
        → HasString n' (buffer + index) (t ++ out))
    → Written fuel n buffer size (index + length t) (format + 2) args out
    → Written (suc fuel) m buffer size index format (arg ∷ args) (t ++ out)
argument-Written fuel m n buffer size index format arg args t out room first second e same joined
      (n', e', h, same') =
    (
      n',
      format_argument fuel m buffer size index format arg (index + length t) args n room first
            second e
          ∙ e',
      joined n' out same' h,
      λ x o.
          same' x (ground (arith, o, length-append t out))
          ∙ same x (ground (arith, o, length-append t out)),
    )

and_then-some :
    {A B : Type 0} (o : Option A) (f : A → Option B) (b : B)
    → and_then o f ≡ some b
    → (a : A) × (o ≡ some a) × (f a ≡ some b)
and_then-some none f b e = cc
and_then-some (some a) f b e = (a, refl, e)

pub empty_of_length : (out : List ℕ) → length out ≡ 0 → out ≡ []
empty_of_length [] e = refl
empty_of_length (c ∷ out) e = absurd (omega arith)

pub write-Inside :
    (m : Mem) (buffer size i c : ℕ) → i < size → Inside m (write m (buffer + i) c) buffer size
unfolding write
write-Inside m buffer size i c h x out = ground (arith, out)

-- What is left of a string that stands outside the buffer stands there too.
pub Away-tail :
    (m n : Mem) (buffer size p c : ℕ) (s : List ℕ)
    → Inside m n buffer size
    → Away m buffer size p (c ∷ s)
    → Away n buffer size (p + 1) s
Away-tail m n buffer size p c s same a =
    let (h, away) = Away-frame m n buffer size p (c ∷ s) same a in (h.2, ground (arith, away))

unfoldable pub is_string : ℕ → ℕ → Bool
is_string c d = (c == b'%') && (d == b's')

pub expand_plain :
    (c d : ℕ) (fmt : List ℕ) (texts : List (List ℕ)) (out : List ℕ)
    → is_string c d ≡ false
    → expand (c ∷ d ∷ fmt) texts ≡ some out
    → (more : List ℕ) × (expand (d ∷ fmt) texts ≡ some more) × (c ∷ more ≡ out)
unfolding expand is_string
expand_plain c d fmt texts out other e =
    let (more, f, g) =
      and_then-some (expand (d ∷ fmt) texts) (λ (out : List ℕ). some (c ∷ out)) out
        (rw other at e) in
    (more, f, some-injective _ _ g)

pub expand_string :
    (c d : ℕ) (fmt : List ℕ) (t : List ℕ) (ts : List (List ℕ)) (out : List ℕ)
    → is_string c d ≡ true
    → expand (c ∷ d ∷ fmt) (t ∷ ts) ≡ some out
    → (more : List ℕ) × (expand fmt ts ≡ some more) × (t ++ more ≡ out)
unfolding expand is_string
expand_string c d fmt t ts out string e =
    let (more, f, g) =
      and_then-some (expand fmt ts) (λ (out : List ℕ). some (t ++ out)) out (rw string at e) in
    (more, f, some-injective _ _ g)

pub expand_no_text :
    (c d : ℕ) (fmt out : List ℕ) → is_string c d ≡ true → expand (c ∷ d ∷ fmt) [] ≡ some out → ⊥
unfolding expand is_string
expand_no_text c d fmt out string e =
    let none_left : ◌≡◌ {A = Option (List ℕ)} none (some out) = rw string at e in cc

pub is_string_lem : (c d : ℕ) → is_string c d ≡ true → (c ≡ b'%') × (d ≡ b's')
unfolding is_string
is_string_lem c d h = (ground arith, ground arith)

-- A plain byte, where what follows is written.
pub plain_step :
    (fuel : ℕ) (m : Mem) (buffer size index format : ℕ) (args : List ℕ) (c d : ℕ) (more : List ℕ)
    → m format ≡ c
    → c ≢ 0
    → m (format + 1) ≡ d
    → is_string c d ≡ false
    → index + 1 < size
    → Written fuel (write m (buffer + index) c) buffer size (index + 1) (format + 1) args more
    → Written (suc fuel) m buffer size index format args (c ∷ more)
unfolding is_string
plain_step fuel m buffer size index format args c d more first not_end second other fits =
    plain-Written fuel m buffer size index format args c more fits first not_end (rw second other)

-- A text, or as much of it as there is room for, where what follows is written.
pub string_step :
    (fuel : ℕ) (m : Mem) (buffer size index format arg : ℕ) (args t more : List ℕ)
    → m format ≡ b'%'
    → m (format + 1) ≡ b's'
    → Away m buffer size arg t
    → index + 1 < size
    → let copied = take (size - 1 - index) t in
      ((n : Mem)
        → Inside m n buffer size
        → Written fuel n buffer size (index + length copied) (format + 2) args more)
      → Written (suc fuel) m buffer size index format (arg ∷ args) (copied ++ more)
string_step fuel m buffer size index format arg args t more first second (h, away) room next =
    let (n, e, same, joined) =
      argument_loop_lem (size - 1 - index) m buffer index arg t h (ground (arith, away)) in
    argument-Written fuel m n buffer size index format arg args (take (size - 1 - index) t) more
      room first second e same joined
      (next n (λ x out. same x (ground (arith, out, length-take (size - 1 - index) t))))

pub take_nothing : (n : ℕ) → take {A = ℕ} n [] ≡ []
take_nothing zero = refl
take_nothing (suc n) = refl

-- What is taken of two texts, one behind the other.
pub take_join :
    (n : ℕ) (t more : List ℕ) → take n t ++ take (n - length (take n t)) more ≡ take n (t ++ more)
take_join zero t more = refl
take_join (suc n) [] more = let whole : suc n - 0 ≡ suc n = omega arith in rw whole refl
take_join (suc n) (c ∷ t) more =
    let shift : suc n - suc (length (take n t)) ≡ n - length (take n t) = omega arith in
    rw shift (ap (λ rest. c ∷ rest) (take_join n t more))
