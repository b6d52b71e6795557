-- ===== src/Str/Tests.antt =====
-- The theorems of string.c on a memory with "a/c" at 100 and "A/d" at 200.
use libre_win.Prelude.{
  ℕ, ◌-◌, ◌≡◌, ◌⊎◌, inr, refl, arith, List, [], ◌∷◌, Option, none, some, ltb, if◌then◌else◌, take,
}
use libre_win.Memory.{Mem}
use libre_win.Str.{strcpy, strnlen, strncpy, strchr}
use libre_win.Str.Text.{HasString, byte_at}
use libre_win.Str.Token.{Token, strtok, skip_loop, token_loop, token_from}
use libre_win.Str.Words.{words}
use libre_win.Str.Cut.{Cut, strtok-Cut}
use libre_win.Str.Scan.{strnlen-min}
use libre_win.Str.Copy.{SameOutside, strcpy_lem, strncpy_lem}

abbrev lower : List ℕ
lower = b'a' ∷ b'/' ∷ b'c' ∷ []

abbrev upper : List ℕ
upper = b'A' ∷ b'/' ∷ b'd' ∷ []

abbrev texts : Mem
unfolding byte_at
texts x = if ltb x 200 then byte_at lower (x - 100) else byte_at upper (x - 200)

lower-HasString : HasString texts 100 lower
unfolding byte_at
lower-HasString = (refl, omega arith, (refl, omega arith, (refl, omega arith, refl)))

upper-HasString : HasString texts 200 upper
unfolding byte_at
upper-HasString = (refl, omega arith, (refl, omega arith, (refl, omega arith, refl)))

strnlen-min_example : strnlen texts 100 2 ≡ 2
strnlen-min_example = strnlen-min texts 100 2 lower lower-HasString

strcpy_lem_example :
    (n : Mem) × (strcpy 4 texts 300 100 ≡ some n)
    × HasString n 300 lower
    × SameOutside texts n 300 4
strcpy_lem_example =
    strcpy_lem 4 texts 300 100 lower lower-HasString (omega arith) (inr (omega arith))

strncpy_lem_example :
    HasString (strncpy texts 300 100 3) 300 (take 2 lower)
    × SameOutside texts (strncpy texts 300 100 3) 300 3
strncpy_lem_example =
    strncpy_lem texts 300 100 3 lower (omega arith) lower-HasString (inr (omega arith))

-- The address of a token, and the static pointer.
abbrev found : Option Token → ℕ × ℕ
found none = (0, 0)
found (some t) = (t.start, t.next_token)

strtok_first : found (strtok 9 texts 0 100 200) ≡ (100, 102)
unfolding strtok skip_loop token_loop token_from strchr texts
strtok_first = refl

strtok_last : found (strtok 9 texts 102 0 200) ≡ (102, 0)
unfolding strtok skip_loop token_loop token_from strchr texts
strtok_last = refl

strtok-Cut_example :
    (t : Token) × (strtok 9 texts 0 100 200 ≡ some t)
    × (((words upper lower ≡ []) × (t.start ≡ 0) × (t.mem ≡ texts))
        ⊎ Cut upper texts 100 103 lower t)
strtok-Cut_example =
    strtok-Cut texts 200 upper 9 0 100 100 103 lower upper-HasString refl (omega arith)
      lower-HasString (omega arith) refl
