-- ===== src/Path/Parse.antt =====
-- pparser.c: what pathparser_parse makes of a path, and what it refuses.
use libre_win.Prelude.{
  ℕ, suc, ◌*◌, ◌+◌, ◌-◌, ◌≤◌, ◌<◌, ◌≡◌, refl, Bool, true, false, ◌&&◌, arith, ltb, leb, ◌==◌,
  if◌then◌else◌, none, some, List, [], ◌∷◌, length, ◌⊎◌, inl, inr, ◌∙◌,
}
use libre_win.Prelude.Int.{pos}
use libre_win.Memory.{Mem}
use libre_win.Str.{strnlen, isdigit, tonumericdigit}
use libre_win.Str.Text.{HasString}
use libre_win.Str.Scan.{strlen-length, strnlen-min}
use libre_win.Kheap.{Allocator}
use libre_win.Path.{
  PathRoot, pathparser_path_valid_format, pathparser_get_drive_by_path, pathparser_create_root,
  with_parts, pathparser_parse,
}
use libre_win.Path.Split.{Serves, segments, leading, parts_loop-leading, non_null_lem}

-- The text of a path with a drive: a digit, a colon and a slash.
unfoldable pub is_path : List ℕ → Bool
is_path [] = false
is_path (d ∷ []) = false
is_path (d ∷ c ∷ []) = false
is_path (d ∷ c ∷ e ∷ rest) = isdigit d && ((c == b':') && (e == b'/'))

valid_format-is_path :
    (text : Mem) (p : ℕ) (t : List ℕ)
    → HasString text p t
    → pathparser_path_valid_format text p ≡ is_path t
unfolding pathparser_path_valid_format is_path isdigit
valid_format-is_path text p [] h = ground (arith, strnlen-min text p 108 [] h)
valid_format-is_path text p (d ∷ []) h = ground (arith, strnlen-min text p 108 (d ∷ []) h)
valid_format-is_path text p (d ∷ c ∷ []) h = ground (arith, strnlen-min text p 108 (d ∷ c ∷ []) h)
valid_format-is_path text p (d ∷ c ∷ e ∷ rest) h =
    let long : leb 3 (strnlen text p 108) ≡ true =
      ground (arith, strnlen-min text p 108 (d ∷ c ∷ e ∷ rest) h) in
    let two : p + 2 ≡ p + 1 + 1 = omega arith in rw (long, two, h.0, h.2.0, h.2.2.0) refl

digit_lem : (d : ℕ) → 48 ≤ d → d ≤ 57 → tonumericdigit d ≡ pos (d - 48)
unfolding tonumericdigit
digit_lem d low high = ground arith

is_path_of_digit :
    (d : ℕ) (rest : List ℕ) → 48 ≤ d → d ≤ 57 → is_path (d ∷ b':' ∷ b'/' ∷ rest) ≡ true
unfolding is_path isdigit
is_path_of_digit d rest low high =
    let low' : leb 48 d ≡ true = ground arith in
    let high' : leb d 57 ≡ true = ground arith in rw (low', high') refl

-- A path of at most 108 bytes with a drive is parsed into the number of the drive and the segments behind it,
-- up to the first empty one, if the allocator is ready for two requests for each byte behind the drive and for two more,
-- and the fuel is above the length of the path.
pub pathparser_parse-leading :
    {S : Type 0} (heap : Allocator S) (serves : Serves heap) (fuel : ℕ) (text : Mem) (p d : ℕ)
    (rest : List ℕ) (s : S)
    → serves.ReadyFor (2 * length rest + 2) s
    → HasString text p (d ∷ b':' ∷ b'/' ∷ rest)
    → 48 ≤ d
    → d ≤ 57
    → length rest + 3 ≤ 108
    → length rest + 3 < fuel
    → (s' : S) × (pathparser_parse heap fuel text p s
        ≡ some (some (record { drive_no = pos (d - 48); first = leading (segments rest) }), s'))
unfolding pathparser_parse pathparser_get_drive_by_path pathparser_create_root with_parts
pathparser_parse-leading heap serves fuel text p d rest s ready h low high short enough =
    let path = d ∷ b':' ∷ b'/' ∷ rest in
    let valid : pathparser_path_valid_format text p ≡ true =
      valid_format-is_path text p path h ∙ is_path_of_digit d rest low high in
    let fits : ltb 108 (length path) ≡ false = ground arith in
    let three : p + 3 ≡ p + 1 + 1 + 1 = omega arith in
    let one_more : 2 * length rest + 2 ≡ suc (2 * length rest + 1) = omega arith in
    let (root, ready1) =
      serves.gives (2 * length rest + 1) s 8 (omega arith) (omega arith) (rw one_more at ready) in
    let (s', e) =
      parts_loop-leading heap serves fuel text fuel (2 * length rest + 1) (p + 1 + 1 + 1) rest
        (heap.alloc s 8).1 ready1 (omega arith) h.2.2.2 (omega arith) (omega arith) in
    (
      s',
      rw
          (
            strlen-length fuel text p path h (omega arith),
            fits,
            valid,
            h.0,
            digit_lem d low high,
            non_null_lem {A = PathRoot} (heap.alloc s 8).0 _ root,
            three,
            e,
          )
          refl,
    )

-- A path of more than 108 bytes, or without a drive, is refused with the null pointer, and the heap is as it was.
pub pathparser_parse_rejects :
    {S : Type 0} (heap : Allocator S) (fuel : ℕ) (text : Mem) (p : ℕ) (t : List ℕ) (s : S)
    → HasString text p t
    → length t < fuel
    → (108 < length t) ⊎ (is_path t ≡ false)
    → pathparser_parse heap fuel text p s ≡ some (none, s)
unfolding pathparser_parse pathparser_get_drive_by_path
pathparser_parse_rejects heap fuel text p t s h lt (inl long) =
    let far : ltb 108 (length t) ≡ true = ground arith in
    rw (strlen-length fuel text p t h lt, far) refl
pathparser_parse_rejects heap fuel text p t s h lt (inr bad) =
    let refused : pathparser_path_valid_format text p ≡ false =
      valid_format-is_path text p t h ∙ bad in
    rw (strlen-length fuel text p t h lt, refused) (either (ltb 108 (length t)))
  where
    either : {A : Type 0} {x : A} (b : Bool) → (if b then x else x) ≡ x
    either true = refl
    either false = refl
