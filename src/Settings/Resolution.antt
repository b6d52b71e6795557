-- ===== src/Settings/Resolution.antt =====
-- kernel.c: fetchwh reads what DbgPrint would write for two numbers.
use libre_win.Prelude.{
  ℕ, zero, suc, ◌+◌, ◌-◌, ◌*◌, ◌^◌, ◌≤◌, ◌<◌, ◌≡◌, refl, ◌⊎◌, arith, true, false, ◌&&◌, ◌||◌, leb,
  ◌==◌, some, List, [], ◌∷◌, length,
}
use libre_win.Config.{u32}
use libre_win.Memory.{Mem}
use libre_win.Debug.{decimal_digits}
use libre_win.Debug.Digits.{value_of, value_of-decimal_digits}
use libre_win.Settings.{number_loop, fetchwh}

-- From `p` on the memory holds the bytes of a text of decimal digits, and then a byte that is no digit.
abbrev pub HasDigits : Mem → ℕ → List ℕ → Type 0
HasDigits m p [] = leb b'0' (m p) && leb (m p) b'9' ≡ false
HasDigits m p (c ∷ text) = (m p ≡ c) × (leb b'0' c && leb c b'9' ≡ true) × HasDigits m (p + 1) text

abbrev pub decimal_value : ℕ → List ℕ → ℕ
decimal_value n text = value_of (λ c. c - b'0') 10 n text

decimal_value-le : (n : ℕ) (text : List ℕ) → n ≤ decimal_value n text
unfolding value_of
decimal_value-le n [] = omega arith
decimal_value-le n (c ∷ text) = omega (arith, decimal_value-le (n * 10 + (c - b'0')) text)

number_loop_lem :
    (fuel : ℕ) (m : Mem) (p n : ℕ) (text : List ℕ)
    → length text < fuel
    → HasDigits m p text
    → decimal_value n text < 2 ^ 32
    → number_loop fuel m p n ≡ some (decimal_value n text, p + length text)
unfolding number_loop value_of
number_loop_lem zero m p n text h t small = absurd (omega arith)
number_loop_lem (suc fuel) m p n [] h t small = rw t (ground arith)
number_loop_lem (suc fuel) m p n (c ∷ text) h (at, is_digit, rest) small =
    let value : u32 (n * 10 + (c - b'0')) ≡ n * 10 + (c - b'0') =
      omega (arith, decimal_value-le (n * 10 + (c - b'0')) text) in
    rw (at, is_digit, value)
      (ground
        (arith, number_loop_lem fuel m (p + 1) (n * 10 + (c - b'0')) text (omega arith) rest small))

number_loop-decimal_digits :
    (fuel : ℕ) (m : Mem) (p v : ℕ)
    → v < 2 ^ 32
    → length (decimal_digits v) < fuel
    → HasDigits m p (decimal_digits v)
    → number_loop fuel m p 0 ≡ some (v, p + length (decimal_digits v))
number_loop-decimal_digits fuel m p v h f t =
    let value = value_of-decimal_digits v h in
    rw value at (number_loop_lem fuel m p 0 (decimal_digits v) f t (rw value h))

fetch_step :
    (fuel : ℕ) (m : Mem) (str width x height end : ℕ)
    → number_loop fuel m str 0 ≡ some (width, x)
    → m x ≡ b'x'
    → number_loop fuel m (x + 1) 0 ≡ some (height, end)
    → (m end ≡ 0) ⊎ (m end ≡ 10)
    → fetchwh fuel m str ≡ some (2, width, height)
unfolding fetchwh
fetch_step fuel m str width x height end first between second e =
    let ends : ((m end == 0) || (m end == 10)) ≡ true = ground arith in
    rw (first, between, second, ends) refl

-- The text of a resolution: two numbers as decimal digits with an `x` between them, and the end of a line or of the text.
abbrev pub HasResolution : Mem → ℕ → ℕ → ℕ → Type 0
HasResolution m str width height =
    let x = str + length (decimal_digits width) in
    let end = x + 1 + length (decimal_digits height) in
    HasDigits m str (decimal_digits width)
    × (m x ≡ b'x')
    × HasDigits m (x + 1) (decimal_digits height)
    × ((m end ≡ 0) ⊎ (m end ≡ 10))

-- fetchwh succeeds on the text of any two 32-bit numbers, written as DbgPrint writes them, and gives these two numbers;
-- any fuel above their lengths is enough.
pub fetchwh-decimal_digits :
    (fuel : ℕ) (m : Mem) (str width height : ℕ)
    → width < 2 ^ 32
    → height < 2 ^ 32
    → length (decimal_digits width) < fuel
    → length (decimal_digits height) < fuel
    → HasResolution m str width height
    → fetchwh fuel m str ≡ some (2, width, height)
fetchwh-decimal_digits fuel m str width height hw hh fw fh (first, between, second, end) =
    fetch_step fuel m str width _ height _ (number_loop-decimal_digits fuel m str width hw fw first)
      between
      (number_loop-decimal_digits fuel m (str + length (decimal_digits width) + 1) height hh fh
        second)
      end
