-- ===== src/Settings.antt =====
-- librewin/base/txos/init/kernel.c: what reads the text of boot.ini and of the commands, which are strstr, fetchwh,
-- contains_newline, IsBatFile, SetExecBuffer and snprintf. A loop that only a zero byte ends takes fuel, and answers
-- `none` when the fuel runs out.
pub mod Format
pub mod Print
pub mod Rounds
pub mod Search
pub mod Resolution
mod Tests
use libre_win.Prelude.{
  ℕ, zero, suc, ◌+◌, ◌-◌, ◌*◌, Bool, true, false, ◌&&◌, ◌||◌, not, ltb, leb, ◌==◌, if◌then◌else◌,
  Option, none, some, List, [], ◌∷◌,
}
use libre_win.Config.{u32}
use libre_win.Memory.{Mem, write}
use libre_win.Path.{and_then}
use libre_win.Str.{strlen, strcmp, strcpy}
use libre_win.Vfs.{is_zero}

-- Whether the needle ends before the two texts differ.
pub match_loop : ℕ → Mem → ℕ → ℕ → Option Bool
match_loop zero m h n = none
match_loop (suc fuel) m h n =
    let more = match_loop fuel m (h + 1) (n + 1) in
    if not (m h == 0) && (not (m n == 0) && (m h == m n)) then more else some (m n == 0)

pub haystack_loop : ℕ → Mem → ℕ → ℕ → Option (Option ℕ)
haystack_loop zero m haystack needle = none
haystack_loop (suc fuel) m haystack needle =
    let next = haystack_loop fuel m (haystack + 1) needle in
    let here =
      and_then (match_loop (suc fuel) m haystack needle)
        (λ (found : Bool). if found then some (some haystack) else next) in
    if m haystack == 0 then some none else here

-- The address of the first occurrence, or `some none` for NULL.
pub strstr : ℕ → Mem → ℕ → ℕ → Option (Option ℕ)
unfolding haystack_loop
strstr fuel m haystack needle =
    let found = haystack_loop fuel m haystack needle in
    if m needle == 0 then some (some haystack) else found

-- The number that the digits from `p` on continue, and the address behind them.
pub number_loop : ℕ → Mem → ℕ → ℕ → Option (ℕ × ℕ)
number_loop zero m p n = none
number_loop (suc fuel) m p n =
    let more = number_loop fuel m (p + 1) (u32 (n * 10 + (m p - b'0'))) in
    if leb b'0' (m p) && leb (m p) b'9' then more else some (n, p)

-- The result, the width and the height.
pub fetchwh : ℕ → Mem → ℕ → Option (ℕ × ℕ × ℕ)
unfolding number_loop
fetchwh fuel m str = and_then (number_loop fuel m str 0) (λ (w : ℕ × ℕ).
    let height =
      and_then (number_loop fuel m (w.1 + 1) 0)
        (λ (h : ℕ × ℕ). some (if (m h.1 == 0) || (m h.1 == 10) then 2 else 0, w.0, h.0)) in
    if not (m w.1 == b'x') then some (0, w.0, 0) else height)

pub newline_loop : ℕ → Mem → ℕ → Option ℕ
newline_loop zero m str = none
newline_loop (suc fuel) m str =
    let more = newline_loop fuel m (str + 1) in
    if m str == 0 then some 0 else if m str == 10 then some 1 else more

pub contains_newline : ℕ → Mem → ℕ → Option ℕ
unfolding newline_loop
contains_newline fuel m str =
    let found = newline_loop fuel m str in if str == 0 then some 0 else found

-- The text ".bat" stands at `bat`.
pub is_bat_file : ℕ → Mem → ℕ → ℕ → Option Bool
is_bat_file fuel m buffer bat = and_then (strlen fuel m buffer) (λ (len : ℕ).
    let same = and_then (strcmp fuel m (buffer + len - 4) bat) (λ r. some (is_zero r)) in
    if ltb len 4 then some false else same)

-- The buffer `ex_buffer` has 256 bytes, which are not tested for. The flag `exec` is then 1.
pub set_exec_buffer : ℕ → Mem → ℕ → ℕ → Option (Mem × ℕ)
set_exec_buffer fuel m ex_buffer b =
    and_then (strcpy fuel m ex_buffer b) (λ (m' : Mem). some (m', 1))

-- The bytes of an argument, while there is room for `left` more. The memory and the index afterwards.
pub argument_loop : ℕ → Mem → ℕ → ℕ → ℕ → Mem × ℕ
argument_loop zero m buffer index arg = (m, index)
argument_loop (suc left) m buffer index arg =
    let more = argument_loop left (write m (buffer + index) (m arg)) buffer (index + 1) (arg + 1) in
    if m arg == 0 then (m, index) else more

-- `size` is not 0. An argument is the address of a string; `none` is given where there is none left.
pub format_loop : ℕ → Mem → ℕ → ℕ → ℕ → ℕ → List ℕ → Option Mem
unfolding argument_loop
format_loop zero m buffer size index format args = none
format_loop (suc fuel) m buffer size index format args =
    let plain =
      format_loop fuel (write m (buffer + index) (m format)) buffer size (index + 1) (format + 1)
        args in
    let used : Option Mem = (elim args [
      | [] ↦ none
      | arg ∷ rest ↦
          (let (m', index') = argument_loop (size - 1 - index) m buffer index arg in
            format_loop fuel m' buffer size index' (format + 2) rest)
    ]) in
    if (m format == 0) || leb (size - 1) index
    then some (write m (buffer + index) 0)
    else if (m format == b'%') && (m (format + 1) == b's')
    then used
    else plain

pub snprintf : ℕ → Mem → ℕ → ℕ → ℕ → List ℕ → Option Mem
unfolding format_loop
snprintf fuel m buffer size format args = format_loop fuel m buffer size 0 format args
