-- ===== src/Str.antt =====
-- librewin/base/txos/ke/string/string.c: strings in memory, ended by a zero byte.
-- A loop that only a zero byte ends takes fuel, and answers `none` when the fuel runs out. Counters
-- of type `int` are numbers, since no string is 2 GB long.
pub mod Text
pub mod Compare
pub mod Copy
pub mod Scan
pub mod Cut
pub mod Token
pub mod Words
mod Tests
use libre_win.Prelude.{
  ℕ, zero, suc, ◌+◌, ◌-◌, Bool, ◌&&◌, ◌||◌, not, Option, none, some, leb, ltb, ◌==◌, if◌then◌else◌,
}
use libre_win.Prelude.Int.{ℤ, pos, negsuc, sub_ℕ}
use libre_win.Memory.{Mem, write}

-- Bytes from 128 on are negative characters, which are not between 65 and 90.
unfoldable pub tolower : ℕ → ℕ
tolower s1 = if leb 65 s1 && leb s1 90 then s1 + 32 else s1

pub strlen_loop : ℕ → Mem → ℕ → ℕ → Option ℕ
strlen_loop zero m ptr i = none
strlen_loop (suc fuel) m ptr i =
    let rest = strlen_loop fuel m (ptr + 1) (i + 1) in if not (m ptr == 0) then rest else some i

pub strlen : ℕ → Mem → ℕ → Option ℕ
unfolding strlen_loop
strlen fuel m ptr = strlen_loop fuel m ptr 0

-- The rounds that are left, and `i`.
pub strnlen_loop : ℕ → Mem → ℕ → ℕ → ℕ
strnlen_loop zero m ptr i = i
strnlen_loop (suc left) m ptr i =
    let rest = strnlen_loop left m ptr (i + 1) in if m (ptr + i) == 0 then i else rest

pub strnlen : Mem → ℕ → ℕ → ℕ
unfolding strnlen_loop
strnlen m ptr max = strnlen_loop max m ptr 0

pub strnlen_terminator_loop : ℕ → Mem → ℕ → ℕ → ℕ → ℕ
strnlen_terminator_loop zero m str terminator i = i
strnlen_terminator_loop (suc left) m str terminator i =
    let rest = strnlen_terminator_loop left m str terminator (i + 1) in
    if (m (str + i) == 0) || (m (str + i) == terminator) then i else rest

pub strnlen_terminator : Mem → ℕ → ℕ → ℕ → ℕ
unfolding strnlen_terminator_loop
strnlen_terminator m str max terminator = strnlen_terminator_loop max m str terminator 0

pub istrncmp : Mem → ℕ → ℕ → ℕ → ℤ
unfolding tolower
istrncmp m s1 s2 zero = pos 0
istrncmp m s1 s2 (suc n) =
    let rest = istrncmp m (s1 + 1) (s2 + 1) n in
    let u1 = m s1 in
    let u2 = m s2 in
    if not (u1 == u2) && not (tolower u1 == tolower u2)
    then sub_ℕ u1 u2
    else (if u1 == 0 then pos 0 else rest)

pub strncmp : Mem → ℕ → ℕ → ℕ → ℤ
strncmp m str1 str2 zero = pos 0
strncmp m str1 str2 (suc n) =
    let rest = strncmp m (str1 + 1) (str2 + 1) n in
    let u1 = m str1 in
    let u2 = m str2 in if not (u1 == u2) then sub_ℕ u1 u2 else (if u1 == 0 then pos 0 else rest)

pub strcmp : ℕ → Mem → ℕ → ℕ → Option ℤ
strcmp zero m str1 str2 = none
strcmp (suc fuel) m str1 str2 =
    let rest = strcmp fuel m (str1 + 1) (str2 + 1) in
    if not (m str1 == 0) && (not (m str2 == 0) && (m str1 == m str2))
    then rest
    else some (sub_ℕ (m str1) (m str2))

-- The memory afterwards. The pointer that is returned is the argument `dest`.
pub strcpy : ℕ → Mem → ℕ → ℕ → Option Mem
strcpy zero m dest src = none
strcpy (suc fuel) m dest src =
    let rest = strcpy fuel (write m dest (m src)) (dest + 1) (src + 1) in
    if not (m src == 0) then rest else some (write m dest 0x00)

pub strncpy_loop : ℕ → ℕ → Mem → ℕ → ℕ → Mem
strncpy_loop zero i m dest src = write m (dest + i) 0x00
strncpy_loop (suc left) i m dest src =
    let rest = strncpy_loop left (i + 1) (write m (dest + i) (m (src + i))) dest src in
    if m (src + i) == 0x00 then write m (dest + i) 0x00 else rest

-- For a count of 0 the loop makes no round either, and one byte is written.
pub strncpy : Mem → ℕ → ℕ → ℕ → Mem
unfolding strncpy_loop
strncpy m dest src count = strncpy_loop (count - 1) 0 m dest src

unfoldable pub isdigit : ℕ → Bool
isdigit c = leb 48 c && leb c 57

-- A byte from 128 on is the character less 256.
unfoldable pub tonumericdigit : ℕ → ℤ
tonumericdigit c = if ltb c 128 then sub_ℕ c 48 else sub_ℕ c (256 + 48)

-- The address of the first `ch`, the end of the string for `ch` 0, or `some none` for NULL.
pub strchr : ℕ → Mem → ℕ → ℕ → Option (Option ℕ)
strchr zero m str ch = none
strchr (suc fuel) m str ch =
    let rest = strchr fuel m (str + 1) ch in
    if not (m str == 0)
    then (if m str == ch then some (some str) else rest)
    else (if ch == 0 then some (some str) else some none)
