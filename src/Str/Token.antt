-- ===== src/Str/Token.antt =====
-- string.c: strtok. The static pointer is passed along; NULL is the address 0.
use libre_win.Prelude.{ℕ, zero, suc, ◌+◌, Option, none, some, ◌==◌, if◌then◌else◌}
use libre_win.Memory.{Mem, write}
use libre_win.Str.{strchr}

-- The answer, the static pointer and the memory afterwards.
pub record Token : Type 0 where
  pub start : ℕ
  pub next_token : ℕ
  pub mem : Mem

-- Past the delimiters from `next_token` on.
unfoldable pub skip_loop : ℕ → Mem → ℕ → ℕ → Option ℕ
skip_loop zero m next_token delim = none
skip_loop (suc fuel) m next_token delim =
    let rest = skip_loop fuel m (next_token + 1) delim in
    let step : Option (Option ℕ) → Option ℕ = λ found. elim found [
      | none ↦ none
      | some at ↦ elim at [ none ↦ some next_token | some p ↦ rest ]
    ] in
    if m next_token == 0 then some next_token else step (strchr fuel m delim (m next_token))

-- To the first delimiter from `next_token` on, or the end of the string.
unfoldable pub token_loop : ℕ → Mem → ℕ → ℕ → Option ℕ
token_loop zero m next_token delim = none
token_loop (suc fuel) m next_token delim =
    let rest = token_loop fuel m (next_token + 1) delim in
    let step : Option (Option ℕ) → Option ℕ = λ found. elim found [
      | none ↦ none
      | some at ↦ elim at [ none ↦ rest | some p ↦ some next_token ]
    ] in
    if m next_token == 0 then some next_token else step (strchr fuel m delim (m next_token))

-- The token's end becomes the end of a string.
abbrev pub end_token : Mem → ℕ → ℕ → Token
end_token m start end =
    if m end == 0
    then record { start = start; next_token = 0; mem = m }
    else record { start = start; next_token = end + 1; mem = write m end 0 }

abbrev pub no_token : Mem → ℕ → Token
no_token m next_token = record { start = 0; next_token = next_token; mem = m }

unfoldable pub token_from : ℕ → Mem → ℕ → ℕ → Option Token
token_from fuel m start delim =
    let end = token_loop fuel m start delim in
    let ended : Option Token = elim end [ none ↦ none | some e ↦ some (end_token m start e) ] in
    if m start == 0 then some (no_token m start) else ended

unfoldable pub strtok : ℕ → Mem → ℕ → ℕ → ℕ → Option Token
strtok fuel m next_token str delim =
    let from = (if str == 0 then next_token else str) in
    let skipped = skip_loop fuel m from delim in
    let token : Option Token = elim skipped [
      | none ↦ none
      | some start ↦ token_from fuel m start delim
    ] in
    if from == 0 then some (no_token m 0) else token
