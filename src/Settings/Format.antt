-- ===== src/Settings/Format.antt =====
-- kernel.c: what snprintf writes of an argument.
use libre_win.Prelude.{
  take, ℕ, zero, suc, ◌+◌, ◌≤◌, ◌<◌, ◌≡◌, ◌⊎◌, inl, inr, refl, ◌∙◌, arith, false, ◌&&◌, ◌==◌,
  if◌then◌else◌, Option, none, some, List, [], ◌∷◌, ◌++◌, length,
}
use libre_win.Memory.{Mem, write}
use libre_win.Path.{and_then}
use libre_win.Str.Text.{HasString, HasString-frame}
use libre_win.Str.Copy.{SameOutside}
use libre_win.Settings.{argument_loop}

-- The format with each "%s" replaced by the next text.
unfoldable pub expand : List ℕ → List (List ℕ) → Option (List ℕ)
expand [] texts = some []
expand (c ∷ []) texts = some (c ∷ [])
expand (c ∷ d ∷ format) texts =
    let plain = and_then (expand (d ∷ format) texts) (λ (out : List ℕ). some (c ∷ out)) in
    let used : Option (List ℕ) = (elim texts [
      | [] ↦ none
      | t ∷ ts ↦ and_then (expand format ts) (λ (out : List ℕ). some (t ++ out))
    ]) in
    if (c == b'%') && (d == b's') then used else plain

-- The string stands outside the buffer.
abbrev pub Away : Mem → ℕ → ℕ → ℕ → List ℕ → Type 0
Away m buffer size p text = HasString m p text × ((p + length text < buffer) ⊎ (buffer + size ≤ p))

abbrev pub AllAway : Mem → ℕ → ℕ → List ℕ → List (List ℕ) → Type 0
AllAway m buffer size [] [] = Unit {0}
AllAway m buffer size [] (t ∷ ts) = ⊥
AllAway m buffer size (a ∷ args) [] = Unit {0}
AllAway m buffer size (a ∷ args) (t ∷ ts) = Away m buffer size a t × AllAway m buffer size args ts

-- A change in the buffer.
abbrev pub Inside : Mem → Mem → ℕ → ℕ → Type 0
Inside m n buffer size = SameOutside m n buffer size

pub Away-frame :
    (m n : Mem) (buffer size p : ℕ) (text : List ℕ)
    → Inside m n buffer size
    → Away m buffer size p text
    → Away n buffer size p text
Away-frame m n buffer size p text same (h, inl below) =
    (HasString-frame m n p text (λ i le. same (p + i) (inl (omega arith))) h, inl below)
Away-frame m n buffer size p text same (h, inr above) =
    (HasString-frame m n p text (λ i le. same (p + i) (inr (omega arith))) h, inr above)

pub AllAway-frame :
    (m n : Mem) (buffer size : ℕ) (args : List ℕ) (texts : List (List ℕ))
    → Inside m n buffer size
    → AllAway m buffer size args texts
    → AllAway n buffer size args texts
AllAway-frame m n buffer size [] [] same a = tt
AllAway-frame m n buffer size [] (t ∷ ts) same a = a
AllAway-frame m n buffer size (b ∷ args) [] same a = tt
AllAway-frame m n buffer size (b ∷ args) (t ∷ ts) same (one, more) =
    (Away-frame m n buffer size b t same one, AllAway-frame m n buffer size args ts same more)

-- As much of an argument as there is room for is copied; what follows may be added to it.
pub argument_loop_lem :
    (left : ℕ) (m : Mem) (buffer index arg : ℕ) (text : List ℕ)
    → HasString m arg text
    → (arg + length text < buffer + index) ⊎ (buffer + index + left ≤ arg)
    → let copied = take left text in
      (n : Mem) × (argument_loop left m buffer index arg ≡ (n, index + length copied))
      × SameOutside m n (buffer + index) (length copied)
      × ((n' : Mem) (out : List ℕ)
          → SameOutside n n' (buffer + (index + length copied)) (length out + 1)
          → HasString n' (buffer + (index + length copied)) out
          → HasString n' (buffer + index) (copied ++ out))
unfolding argument_loop write
argument_loop_lem zero m buffer index arg text h apart =
    let same : index + 0 ≡ index = omega arith in
    rw same (m, refl, λ x out. refl, λ n' out keep h'. h')
argument_loop_lem (suc left) m buffer index arg [] h apart =
    let same : index + 0 ≡ index = omega arith in
    rw same (m, rw h refl, λ x out. refl, λ n' out keep h'. h')
argument_loop_lem (suc left) m buffer index arg (c ∷ text) (byte, not_end, rest) apart =
    let m' : Mem = write m (buffer + index) c in
    let go_on : (c == 0) ≡ false = ground arith in
    let kept : HasString m' (arg + 1) text =
      HasString-frame m m' (arg + 1) text (λ i le'. ground (arith, apart)) rest in
    let (n, e, same, joined) =
      argument_loop_lem left m' buffer (index + 1) (arg + 1) text kept (ground (arith, apart)) in
    let next : index + suc (length (take left text)) ≡ index + 1 + length (take left text) =
      omega arith in
    let place : buffer + index + 1 ≡ buffer + (index + 1) = omega arith in
    rw next (
      n,
      rw (byte, go_on) e,
      λ x out. same x (ground (arith, out)) ∙ ground (arith, out),
      λ n' out keep h. (
        keep (buffer + index) (inl (omega arith))
            ∙ same (buffer + index) (inl (omega arith))
            ∙ ground arith,
        not_end,
        rw place (joined n' out keep h),
      ),
    )
