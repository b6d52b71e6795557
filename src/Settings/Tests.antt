-- ===== src/Settings/Tests.antt =====
-- The theorem of snprintf on the format "%s/%s" at 0 with the texts "a" at 6 and "b" at 8, for a buffer of three bytes at 20, into
-- which two characters of three go.
use libre_win.Prelude.{◌≤◌, ℕ, ◌≡◌, refl, inl, arith, some, List, [], ◌∷◌}
use libre_win.Memory.{Mem}
use libre_win.Str.Text.{HasString, byte_at}
use libre_win.Str.Copy.{SameOutside}
use libre_win.Settings.{snprintf}
use libre_win.Settings.Format.{expand}
use libre_win.Settings.Print.{snprintf-expand}

abbrev format : List ℕ
format = b'%' ∷ b's' ∷ b'/' ∷ b'%' ∷ b's' ∷ []

abbrev memory : Mem
memory = byte_at (b'%' ∷ b's' ∷ b'/' ∷ b'%' ∷ b's' ∷ 0 ∷ b'a' ∷ 0 ∷ b'b' ∷ [])

snprintf-expand_example :
    (n : Mem) × (snprintf 9 memory 20 3 0 (6 ∷ 8 ∷ []) ≡ some n)
    × HasString n 20 (b'a' ∷ b'/' ∷ [])
    × SameOutside memory n 20 3
    × (3 ≤ 3)
unfolding byte_at expand
snprintf-expand_example =
    snprintf-expand 9 memory 20 3 0 (6 ∷ 8 ∷ []) format ((b'a' ∷ []) ∷ (b'b' ∷ []) ∷ [])
      (b'a' ∷ b'/' ∷ b'b' ∷ [])
      (
        (
          refl,
          omega arith,
          (refl, omega arith, (refl, omega arith, (refl, omega arith, (refl, omega arith, refl)))),
        ),
        inl (omega arith),
      )
      (
        ((refl, omega arith, refl), inl (omega arith)),
        (((refl, omega arith, refl), inl (omega arith)), tt),
      )
      refl (omega arith) (omega arith)
