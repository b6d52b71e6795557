-- ===== src/Ntdll/Print.antt =====
-- ntdll.c: SystemPrint.
use libre_win.Prelude.{
  ℕ, ◌+◌, ◌-◌, ◌*◌, ◌/◌, ◌%◌, ◌^◌, ◌≤◌, ◌<◌, ◌≡◌, refl, arith, leb, if◌then◌else◌, List, [], ◌∷◌,
  ◌++◌, length, take, length-append, length-take,
}
use libre_win.Ntdll.{system_print}

kept_length :
    (maximum_length : ℕ) (msg : List ℕ)
    → maximum_length % 2 ≡ 0
    → 2 ≤ maximum_length
    → let n =
        (if leb maximum_length (length msg * 2) then maximum_length / 2 - 1 else length msg) in
      (n ≤ length msg)
      × (2 * n + 2 ≤ maximum_length)
      × (length msg * 2 < maximum_length → n ≡ length msg)
kept_length maximum_length msg even low = (ground arith, ground arith, λ h. ground arith)

-- SystemPrint of any message into a buffer of an even number of bytes, at least two and less than 2 ^ 16: the buffer holds
-- the first `n` characters of the message, which are all of them where they fit with the end, and a zero character behind
-- them; this lies in the buffer, and the length is that of the characters in bytes.
pub system_print_lem :
    (maximum_length : ℕ) (msg : List ℕ)
    → maximum_length % 2 ≡ 0
    → 2 ≤ maximum_length
    → maximum_length < 2 ^ 16
    → let (buffer, bytes) = system_print maximum_length msg in
      (n : ℕ) × (buffer ≡ take n msg ++ (0 ∷ []))
      × (length msg * 2 < maximum_length → n ≡ length msg)
      × (bytes ≡ 2 * length (take n msg))
      × (2 * length buffer ≤ maximum_length)
unfolding system_print
system_print_lem maximum_length msg even low high =
    let n = (if leb maximum_length (length msg * 2) then maximum_length / 2 - 1 else length msg) in
    let (le, fits, whole) = kept_length maximum_length msg even low in
    let size = length-take n msg in
    (
      n,
      refl,
      whole,
      omega (arith, size, le, fits),
      omega (arith, size, le, fits, length-append (take n msg) (0 ∷ [])),
    )
