-- ===== src/Shell/Paths.antt =====
-- loader.c: join_paths.
use mathlib.Core.List.{append-nil}
use libre_win.Prelude.{
  ℕ, suc, ◌+◌, ◌-◌, ◌^◌, ◌≤◌, ◌<◌, ◌≡◌, inl, inr, refl, ap, ◌∙◌, arith, Bool, Bool-cases, true,
  false, not, ltb, ◌==◌, if◌then◌else◌, some, List, [], ◌∷◌, ◌++◌, length, length-append,
}
use libre_win.Config.{u32, sub32}
use libre_win.Memory.{Mem}
use libre_win.Str.{strlen}
use libre_win.Str.Text.{HasString}
use libre_win.Str.Scan.{strlen-length}
use libre_win.Str.Copy.{SameOutside}
use libre_win.Settings.{snprintf}
use libre_win.Settings.Format.{expand, Away}
use libre_win.Settings.Print.{snprintf_fits}
use libre_win.Shell.{Texts, join_paths}

-- The bytes of "%s%s" and of "%s/%s".
abbrev pub joined_format : List ℕ
joined_format = b'%' ∷ b's' ∷ b'%' ∷ b's' ∷ []

abbrev pub slashed_format : List ℕ
slashed_format = b'%' ∷ b's' ∷ b'/' ∷ b'%' ∷ b's' ∷ []

unfoldable pub ends_with_slash : List ℕ → Bool
ends_with_slash [] = false
ends_with_slash (c ∷ []) = c == b'/'
ends_with_slash (c ∷ d ∷ a) = ends_with_slash (d ∷ a)

-- Two paths with one slash between them, unless the second begins with more.
unfoldable pub path_after : List ℕ → List ℕ → List ℕ
path_after a [] = if ends_with_slash a then a else a ++ (b'/' ∷ [])
path_after a (c ∷ b) =
    if ends_with_slash a
    then a ++ (if c == b'/' then b else c ∷ b)
    else a ++ (if c == b'/' then c ∷ b else b'/' ∷ c ∷ b)

last_byte :
    (m : Mem) (p : ℕ) (a : List ℕ)
    → HasString m p a
    → 0 < length a
    → (m (p + length a - 1) == b'/') ≡ ends_with_slash a
unfolding ends_with_slash
last_byte m p [] h lt = absurd (omega arith)
last_byte m p (c ∷ []) h lt = let here : p + 1 - 1 ≡ p = omega arith in rw (here, h.0) refl
last_byte m p (c ∷ d ∷ a) h lt =
    let next : p + suc (suc (length a)) - 1 ≡ p + 1 + suc (length a) - 1 = omega arith in
    rw next (last_byte m (p + 1) (d ∷ a) h.2 (omega arith))

-- join_paths once it has found what stands at the seam.
module _ (fuel : ℕ) (t : Texts) (m n : Mem) (str1 str2 result size len1 len2 : ℕ)
    (first : strlen fuel m str1 ≡ some len1) (second : strlen fuel m str2 ≡ some len2)
    (room : ltb size (u32 (len1 + len2 + 2)) ≡ false) where
  seam_both :
      (m (sub32 (str1 + len1) 1) == b'/') ≡ true
      → (m str2 == b'/') ≡ true
      → snprintf fuel m result size t.joined (str1 ∷ (str2 + 1) ∷ []) ≡ some n
      → join_paths fuel t m str1 str2 result size ≡ some (true, n)
  unfolding join_paths
  seam_both last begin e = rw (first, second, room, last, begin, e) refl

  seam_none :
      (m (sub32 (str1 + len1) 1) == b'/') ≡ false
      → (m str2 == b'/') ≡ false
      → snprintf fuel m result size t.slashed (str1 ∷ str2 ∷ []) ≡ some n
      → join_paths fuel t m str1 str2 result size ≡ some (true, n)
  unfolding join_paths
  seam_none last begin e = rw (first, second, room, last, begin, e) refl

  seam_one :
      (begins : Bool)
      → (m (sub32 (str1 + len1) 1) == b'/') ≡ not begins
      → (m str2 == b'/') ≡ begins
      → snprintf fuel m result size t.joined (str1 ∷ str2 ∷ []) ≡ some n
      → join_paths fuel t m str1 str2 result size ≡ some (true, n)
  unfolding join_paths
  seam_one true last begin e = rw (first, second, room, last, begin, e) refl
  seam_one false last begin e = rw (first, second, room, last, begin, e) refl

-- The result of two texts with a format.
abbrev Printed : ℕ → Mem → ℕ → ℕ → ℕ → List ℕ → List ℕ → Type 0
Printed fuel m result size format args out =
    (n : Mem) × (snprintf fuel m result size format args ≡ some n)
    × HasString n result out
    × SameOutside m n result (length out + 1)

print_joined :
    (fuel : ℕ) (m : Mem) (result size format p q : ℕ) (a b : List ℕ)
    → Away m result size format joined_format
    → Away m result size p a
    → Away m result size q b
    → 4 < fuel
    → length a + length b + 1 ≤ size
    → Printed fuel m result size format (p ∷ q ∷ []) (a ++ b)
unfolding expand
print_joined fuel m result size format p q a b f one two lt fits =
    snprintf_fits fuel m result size format (p ∷ q ∷ []) joined_format (a ∷ b ∷ []) (a ++ b) f
      (one, (two, tt)) (rw append-nil refl) (omega arith) (omega (arith, length-append a b))

print_slashed :
    (fuel : ℕ) (m : Mem) (result size format p q : ℕ) (a b : List ℕ)
    → Away m result size format slashed_format
    → Away m result size p a
    → Away m result size q b
    → 5 < fuel
    → length a + length b + 2 ≤ size
    → Printed fuel m result size format (p ∷ q ∷ []) (a ++ (b'/' ∷ b))
unfolding expand
print_slashed fuel m result size format p q a b f one two lt fits =
    snprintf_fits fuel m result size format (p ∷ q ∷ []) slashed_format (a ∷ b ∷ [])
      (a ++ (b'/' ∷ b)) f (one, (two, tt)) (rw append-nil refl) (omega arith)
      (omega (arith, length-append a (b'/' ∷ b)))

-- What a path's text becomes, where it is told.
abbrev pub Joined : ℕ → Texts → Mem → ℕ → ℕ → ℕ → ℕ → List ℕ → Type 0
Joined fuel t m str1 str2 result size out =
    (n : Mem) × (join_paths fuel t m str1 str2 result size ≡ some (true, n))
    × HasString n result out
    × SameOutside m n result (length out + 1)

module _ (fuel : ℕ) (t : Texts) (m : Mem) (str1 str2 result size : ℕ) (a : List ℕ)
    (not_empty : 0 < length a) (at_a : str1 + length a < 2 ^ 32) (one : Away m result size str1 a)
    (joined : Away m result size t.joined joined_format)
    (slashed : Away m result size t.slashed slashed_format) where
  last_of_a : (m (sub32 (str1 + length a) 1) == b'/') ≡ ends_with_slash a
  last_of_a =
      let same : sub32 (str1 + length a) 1 ≡ str1 + length a - 1 = omega arith in
      rw same (last_byte m str1 a one.0 not_empty)

  lengths :
      (b : List ℕ)
      → HasString m str2 b
      → length a + length b + 5 < fuel
      → length a + length b + 2 ≤ size
      → size < 2 ^ 32
      → (strlen fuel m str1 ≡ some (length a))
        × (strlen fuel m str2 ≡ some (length b))
        × (ltb size (u32 (length a + length b + 2)) ≡ false)
  lengths b h lt fits small = (
    strlen-length fuel m str1 a one.0 (omega arith),
    strlen-length fuel m str2 b h (omega arith),
    ground arith,
  )

  -- join_paths of a path that is not empty and another, where both, a slash and an end fit into the result, which lies
  -- apart from them: the result is the two with one slash at the seam, and nothing else has changed.
  pub join_paths-path_after :
      (b : List ℕ)
      → Away m result size str2 b
      → length a + length b + 5 < fuel
      → length a + length b + 2 ≤ size
      → size < 2 ^ 32
      → Joined fuel t m str1 str2 result size (path_after a b)
  unfolding path_after
  join_paths-path_after [] two lt fits small =
      let (e, f, room) = lengths [] two.0 lt fits small in
      let none_begins : (m str2 == b'/') ≡ false = ground (arith, two.0) in
      elim (Bool-cases (ends_with_slash a)) [
        | inl ends ↦
            let (n, g, h, same) =
              print_joined fuel m result size t.joined str1 str2 a [] joined one two (omega arith)
                (omega arith) in
            rw ends (
              n,
              seam_one fuel t m n str1 str2 result size _ _ e f room false (last_of_a ∙ ends)
                  none_begins g,
              rw append-nil at h,
              rw append-nil at same,
            )
        | inr open_end ↦
            let (n, g, h, same) =
              print_slashed fuel m result size t.slashed str1 str2 a [] slashed one two
                (omega arith) (omega arith) in
            rw open_end (
              n,
              seam_none fuel t m n str1 str2 result size _ _ e f room (last_of_a ∙ open_end)
                  none_begins g,
              h,
              same,
            )
      ]
  join_paths-path_after (c ∷ b) two lt fits small =
      let (e, f, room) = lengths (c ∷ b) two.0 lt fits small in
      let begin : (m str2 == b'/') ≡ (c == b'/') = ap (λ (x : ℕ). x == b'/') two.0.0 in
      let rest : Away m result size (str2 + 1) b = (two.0.2, ground (arith, two.1)) in
      elim (Bool-cases (ends_with_slash a)) [
        | inl ends ↦ elim (Bool-cases (c == b'/')) [
          | inl begins ↦
              let (n, g, h, same) =
                print_joined fuel m result size t.joined str1 (str2 + 1) a b joined one rest
                  (omega arith) (omega arith) in
              rw (ends, begins)
                (
                  n,
                  seam_both fuel t m n str1 str2 result size _ _ e f room (last_of_a ∙ ends)
                      (begin ∙ begins) g,
                  h,
                  same,
                )
          | inr other ↦
              let (n, g, h, same) =
                print_joined fuel m result size t.joined str1 str2 a (c ∷ b) joined one two
                  (omega arith) (omega arith) in
              rw (ends, other)
                (
                  n,
                  seam_one fuel t m n str1 str2 result size _ _ e f room false (last_of_a ∙ ends)
                      (begin ∙ other) g,
                  h,
                  same,
                )
        ]
        | inr open_end ↦ elim (Bool-cases (c == b'/')) [
          | inl begins ↦
              let (n, g, h, same) =
                print_joined fuel m result size t.joined str1 str2 a (c ∷ b) joined one two
                  (omega arith) (omega arith) in
              rw (open_end, begins)
                (
                  n,
                  seam_one fuel t m n str1 str2 result size _ _ e f room true (last_of_a ∙ open_end)
                      (begin ∙ begins) g,
                  h,
                  same,
                )
          | inr other ↦
              let (n, g, h, same) =
                print_slashed fuel m result size t.slashed str1 str2 a (c ∷ b) slashed one two
                  (omega arith) (omega arith) in
              rw (open_end, other)
                (
                  n,
                  seam_none fuel t m n str1 str2 result size _ _ e f room (last_of_a ∙ open_end)
                      (begin ∙ other) g,
                  h,
                  same,
                )
        ]
      ]
