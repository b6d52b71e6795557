-- ===== src/Debug/Digits.antt =====
-- kernel.c: the digits that DbgPrint writes for a number.
use libre_win.Prelude.{
  ℕ, zero, suc, ◌+◌, ◌-◌, ◌*◌, ◌/◌, ◌%◌, ◌^◌, ◌<◌, ◌≡◌, ◌∙◌, ap, false, Bool-cases, inl, inr, arith,
  ltb, if◌then◌else◌, List, [], ◌∷◌,
}
use native.Mathlib.Nat.{pow-zero, pow-suc, div-lt_iff_lt-mul, mod-lt, div-add-mod}
use libre_win.Debug.{decimal_digit, lower_hex_digit, digit_loop, decimal_digits, hex_digits}

-- The number that a text of digits stands for, after `n` for the digits before.
unfoldable pub value_of : (ℕ → ℕ) → ℕ → ℕ → List ℕ → ℕ
value_of read base n [] = n
value_of read base n (c ∷ text) = value_of read base (n * base + read c) text

nothing : (base v : ℕ) → v < base ^ 0 → 0 ≡ v
nothing base v h = omega (arith, h, pow-zero base)

module _ (digit read : ℕ → ℕ) (base : ℕ) (positive : 0 < base)
    (reads : (d : ℕ) → d < base → read (digit d) ≡ d) where
  last_digit : (v : ℕ) → v / base * base + read (digit (v % base)) ≡ v
  last_digit v = rw (reads (v % base) (mod-lt v positive)) (grind (arith, div-add-mod v base))

  only_digit : (v : ℕ) → ltb 0 (v / base) ≡ false → v / base ≡ 0
  only_digit v h = ground (arith)

  one_digit : (v : ℕ) → ltb 0 (v / base) ≡ false → 0 * base + read (digit (v % base)) ≡ v
  one_digit v h = rw (only_digit v h) at (last_digit v)

  smaller : (v room : ℕ) → v < base ^ suc room → v / base < base ^ room
  smaller v room h = (div-lt_iff_lt-mul positive).1 (rw (pow-suc base room) at (h))

  value_of-digit_loop :
      (room v : ℕ) (done : List ℕ)
      → v < base ^ room
      → value_of read base 0 (digit_loop digit base room v done) ≡ value_of read base v done
  unfolding digit_loop value_of
  value_of-digit_loop zero v done h = ap (λ n. value_of read base n done) (nothing base v h)
  value_of-digit_loop (suc room) v done h = elim (Bool-cases (ltb 0 (v / base))) [
    | inl more ↦ rw more (
        value_of-digit_loop room (v / base) (digit (v % base) ∷ done) (smaller v room h)
        ∙ ap (λ n. value_of read base n done) (last_digit v))
    | inr last ↦ rw last (ap (λ n. value_of read base n done) (one_digit v last))
  ]

-- The value of a hexadecimal digit.
unfoldable pub lower_hex_value : ℕ → ℕ
lower_hex_value c = if ltb c b'a' then c - b'0' else c - b'a' + 10

decimal_reads : (d : ℕ) → d < 10 → decimal_digit d - b'0' ≡ d
unfolding decimal_digit
decimal_reads d h = ground arith

hex_reads : (d : ℕ) → d < 16 → lower_hex_value (lower_hex_digit d) ≡ d
unfolding lower_hex_digit lower_hex_value
hex_reads d h = ground arith

-- The decimal digits of a 32-bit number read back as it.
pub value_of-decimal_digits :
    (v : ℕ) → v < 2 ^ 32 → value_of (λ c. c - b'0') 10 0 (decimal_digits v) ≡ v
unfolding decimal_digits value_of
value_of-decimal_digits v h =
    value_of-digit_loop decimal_digit (λ c. c - b'0') 10 (omega arith) decimal_reads 12 v []
      (omega arith)

-- The hexadecimal digits of a 32-bit number read back as it.
pub value_of-hex_digits : (v : ℕ) → v < 2 ^ 32 → value_of lower_hex_value 16 0 (hex_digits v) ≡ v
unfolding hex_digits value_of
value_of-hex_digits v h =
    value_of-digit_loop lower_hex_digit lower_hex_value 16 (omega arith) hex_reads 9 v []
      (omega arith)
