-- ===== src/Debug.antt =====
-- librewin/base/txos/init/kernel.c: DbgPrint and DbgLog, which write to the serial port. What is written is the list of
-- its bytes. A further argument is its 32-bit word, and `none` is given where there is none left for a specifier, where
-- the least `int` is negated, or where the fuel runs out.
pub mod Digits
mod Tests
use libre_win.Prelude.{
  ℕ, zero, suc, ◌+◌, ◌-◌, ◌*◌, ◌/◌, ◌%◌, ◌^◌, ltb, leb, ◌==◌, Bool, true, not, if◌then◌else◌,
  Option, none, some, List, [], ◌∷◌, ◌++◌,
}
use libre_win.Memory.{Mem}
use libre_win.Path.{and_then}

unfoldable pub decimal_digit : ℕ → ℕ
decimal_digit d = b'0' + d

-- `hex_digits[d]`
unfoldable pub lower_hex_digit : ℕ → ℕ
lower_hex_digit d = if ltb d 10 then b'0' + d else b'a' + (d - 10)

-- The digits of `value`, which are put into a buffer of `room` bytes and taken out from its end.
unfoldable pub digit_loop : (ℕ → ℕ) → ℕ → ℕ → ℕ → List ℕ → List ℕ
digit_loop digit base zero value done = done
digit_loop digit base (suc room) value done =
    let rest = digit_loop digit base room (value / base) (digit (value % base) ∷ done) in
    if ltb 0 (value / base) then rest else digit (value % base) ∷ done

unfoldable pub decimal_digits : ℕ → List ℕ
decimal_digits value = digit_loop decimal_digit 10 12 value []

unfoldable pub hex_digits : ℕ → List ℕ
hex_digits value = digit_loop lower_hex_digit 16 9 value []

-- An `int` by its word.
unfoldable pub print_int : ℕ → Option (List ℕ)
unfolding decimal_digits
print_int value =
    if value == 2 ^ 31
    then none
    else if ltb value (2 ^ 31)
    then some (decimal_digits value)
    else some (b'-' ∷ decimal_digits (2 ^ 32 - value))

unfoldable pub string_loop : ℕ → Mem → ℕ → Option (List ℕ)
string_loop zero m str = none
string_loop (suc fuel) m str =
    let rest = and_then (string_loop fuel m (str + 1)) (λ (out : List ℕ). some (m str ∷ out)) in
    if m str == 0 then some [] else rest

-- The bytes for a specifier that takes an argument, before what follows.
unfoldable pub print_argument : ℕ → Mem → ℕ → ℕ → Option (List ℕ)
unfolding print_int hex_digits string_loop
print_argument fuel m specifier value =
    if specifier == b'd'
    then print_int value
    else if specifier == b'x'
    then some (hex_digits value)
    else string_loop fuel m value

abbrev pub takes_argument : ℕ → Bool
takes_argument specifier =
    if specifier == b'd' then true else if specifier == b'x' then true else specifier == b's'

unfoldable pub append_rest : Option (List ℕ) → Option (List ℕ) → Option (List ℕ)
append_rest first rest =
    and_then first (λ (out : List ℕ). and_then rest (λ (out' : List ℕ). some (out ++ out')))

unfoldable pub dbg_print : ℕ → Mem → ℕ → List ℕ → Option (List ℕ)
unfolding print_argument append_rest
dbg_print zero m format args = none
dbg_print (suc fuel) m format args =
    let specifier = m (format + 1) in
    let plain = dbg_print fuel m (format + 1) args in
    let skip = dbg_print fuel m (format + 2) args in
    let used : Option (List ℕ) = (elim args [
      | [] ↦ none
      | value ∷ values ↦
          append_rest (print_argument fuel m specifier value) (dbg_print fuel m (format + 2) values)
    ]) in
    if m format == 0
    then some []
    else if not (m format == b'%')
    then append_rest (some (m format ∷ [])) plain
    else if takes_argument specifier
    then used
    else if specifier == b'%'
    then append_rest (some (b'%' ∷ [])) skip
    else append_rest (some (b'%' ∷ specifier ∷ [])) skip

-- The texts that DbgLog puts first, by its type: LOG_FAIL is 0, LOG_SUCCESS 1, LOG_ERROR 2, LOG_WARN 3 and LOG_INFO 4.
unfoldable pub log_prefix : ℕ → List ℕ
log_prefix type_ =
    if type_ == 1
    then b'[' ∷ b'S' ∷ b'U' ∷ b'C' ∷ b'C' ∷ b'E' ∷ b'S' ∷ b'S' ∷ b']' ∷ b' ' ∷ []
    else if type_ == 0
    then b'[' ∷ b'F' ∷ b'A' ∷ b'I' ∷ b'L' ∷ b']' ∷ b' ' ∷ []
    else if type_ == 2
    then b'[' ∷ b'E' ∷ b'R' ∷ b'R' ∷ b'O' ∷ b'R' ∷ b']' ∷ b' ' ∷ []
    else if type_ == 3
    then b'[' ∷ b'W' ∷ b'A' ∷ b'R' ∷ b'N' ∷ b'I' ∷ b'N' ∷ b'G' ∷ b']' ∷ b' ' ∷ []
    else if type_ == 4
    then b'[' ∷ b'I' ∷ b'N' ∷ b'F' ∷ b'O' ∷ b'R' ∷ b'M' ∷ b'A' ∷ b'T' ∷ b'I' ∷ b'O' ∷ b'N' ∷ b']'
      ∷ b' ' ∷ []
    else []

-- The message is the format of a DbgPrint without arguments.
unfoldable pub dbg_log : ℕ → Mem → ℕ → ℕ → Option (List ℕ)
unfolding dbg_print log_prefix append_rest
dbg_log fuel m msg type_ =
    append_rest (some (log_prefix type_)) (append_rest (dbg_print fuel m msg []) (some (10 ∷ [])))
