-- ===== src/Path/Split.antt =====
-- pparser.c: the parts of a path are its segments between slashes, up to the first empty one.
use libre_win.Prelude.{
  ℕ, zero, suc, ◌+◌, ◌*◌, ◌≤◌, ◌<◌, ◌≡◌, ◌≢◌, refl, false, arith, ◌==◌, if◌then◌else◌, none, some,
  List, [], ◌∷◌, length, ap, Bool-cases, ◌⊎◌, inl, inr,
}
use libre_win.Memory.{Mem}
use libre_win.Str.Text.{HasString}
use libre_win.Str.Scan.{before}
use libre_win.Kheap.{Allocator}
use libre_win.Path.{
  part_loop, non_null, part_or_free, pathparser_get_path_part, pathparser_parse_path_part,
  before_parts, parts_loop, add_part,
}

-- The segments of a text between its slashes; there is at least one.
unfoldable pub in_first : ℕ → List (List ℕ) → List (List ℕ)
in_first c [] = (c ∷ []) ∷ []
in_first c (s ∷ rest) = (c ∷ s) ∷ rest

unfoldable pub segments : List ℕ → List (List ℕ)
unfolding in_first
segments [] = [] ∷ []
segments (c ∷ s) = if c == b'/' then [] ∷ segments s else in_first c (segments s)

-- The segments before the first empty one.
unfoldable pub leading : List (List ℕ) → List (List ℕ)
leading [] = []
leading ([] ∷ rest) = []
leading ((c ∷ s) ∷ rest) = (c ∷ s) ∷ leading rest

-- The text behind the first slash.
after : List ℕ → List ℕ
after [] = []
after (c ∷ s) = if c == b'/' then s else after s

-- The segments behind the first one.
others : List ℕ → List (List ℕ)
unfolding segments
others [] = []
others (c ∷ s) = if c == b'/' then segments s else others s

segments-before : (s : List ℕ) → segments s ≡ before b'/' s ∷ others s
unfolding segments in_first before others
segments-before [] = refl
segments-before (c ∷ s) = ground (arith, segments-before s)

leading-others : (s : List ℕ) → leading (others s) ≡ leading (segments (after s))
unfolding others after segments leading
leading-others [] = refl
leading-others (c ∷ s) = ground (arith, leading-others s)

-- The loop over a part stops at the slash or at the end.
part_loop-before :
    (fuel : ℕ) (text : Mem) (p : ℕ) (s : List ℕ)
    → HasString text p s
    → length s < fuel
    → part_loop fuel text p ≡ some (before b'/' s, p + length (before b'/' s))
unfolding part_loop before
part_loop-before zero text p s h lt = absurd (omega arith)
part_loop-before (suc fuel) text p [] h lt = ground arith
part_loop-before (suc fuel) text p (c ∷ s) h lt =
    rw (part_loop-before fuel text (p + 1) s h.2 (omega arith), h.0)
      (elim (Bool-cases (c == b'/')) [
        | inl e ↦ rw e (ap (λ q. some ([], q)) (omega arith))
        | inr e ↦
            let going : (c == 0) ≡ false = ground (arith, h.1) in
            rw (e, going) (ap (λ q. some (c ∷ before b'/' s, q)) (omega arith))
      ])

-- The path behind a part.
after-HasString :
    (text : Mem) (p : ℕ) (s : List ℕ)
    → HasString text p s
    → let q = p + length (before b'/' s) in
      HasString text (if text q == b'/' then q + 1 else q) (after s)
unfolding after before
after-HasString text p [] h = ground arith
after-HasString text p (c ∷ s) h = elim (Bool-cases (c == b'/')) [
  | inl e ↦ let end : p + 0 ≡ p = omega arith in rw (e, end, h.0, e) h.2
  | inr e ↦
      let end : p + suc (length (before b'/' s)) ≡ p + 1 + length (before b'/' s) = omega arith in
      rw (e, end) (after-HasString text (p + 1) s h.2)
]

length-after : (c : ℕ) (s : List ℕ) → length (after (c ∷ s)) < length (c ∷ s)
unfolding after
length-after c [] = ground arith
length-after c (d ∷ s) = ground (arith, length-after d s)

pub non_null_lem : {A : Type 0} (ptr : ℕ) (a : A) → ptr ≢ 0 → non_null ptr a ≡ some a
non_null_lem ptr a ne = let positive : (ptr == 0) ≡ false = ground (arith, ne) in rw positive refl

-- What is behind the part of the text at `p`.
abbrev behind : Mem → ℕ → List ℕ → ℕ
behind text p t = let q = p + length (before b'/' t) in if text q == b'/' then q + 1 else q

-- An allocator that gives its next `n` requests of at most one block's bytes in the states that are ready for `n`, and can
-- free what it has just given.
pub record Serves {S : Type 0} (heap : Allocator S) : Type 1 where
  pub ReadyFor : ℕ → S → Type 0
  pub gives :
      (n : ℕ) (s : S) (size : ℕ)
      → 0 < size
      → size ≤ 4096
      → ReadyFor (suc n) s
      → ((heap.alloc s size).0 ≢ 0) × ReadyFor n (heap.alloc s size).1
  pub frees :
      (n : ℕ) (s : S) (size : ℕ)
      → 0 < size
      → size ≤ 4096
      → ReadyFor (suc n) s
      → (s' : S) × (heap.free (heap.alloc s size).1 (heap.alloc s size).0 ≡ some s')

module _ {S : Type 0} (heap : Allocator S) (serves : Serves heap) (fuel : ℕ) (text : Mem) where
  no_part :
      (n p : ℕ) (t : List ℕ) (s : S)
      → serves.ReadyFor (suc n) s
      → HasString text p t
      → length t < fuel
      → before b'/' t ≡ []
      → (s' : S) × (pathparser_parse_path_part heap fuel text p s
          ≡ some (record { part = none; path = behind text p t; heap = s' }))
  unfolding pathparser_parse_path_part pathparser_get_path_part part_or_free add_part
  no_part n p t s ready h lt e =
      let (s', f) = serves.frees n s 108 (omega arith) (omega arith) ready in
      (s', rw (part_loop-before fuel text p t h lt, e, f) refl)

  some_part :
      (n p : ℕ) (t : List ℕ) (s : S) (c : ℕ) (bytes : List ℕ)
      → HasString text p t
      → length t < fuel
      → before b'/' t ≡ c ∷ bytes
      → serves.ReadyFor (suc (suc n)) s
      → (s' : S) × (pathparser_parse_path_part heap fuel text p s
          ≡ some (record { part = some (c ∷ bytes); path = behind text p t; heap = s' }))
        × serves.ReadyFor n s'
  unfolding pathparser_parse_path_part pathparser_get_path_part part_or_free add_part
  some_part n p t s c bytes h lt e ready =
      let s1 = (heap.alloc s 108).1 in
      let (first, ready1) = serves.gives (suc n) s 108 (omega arith) (omega arith) ready in
      let (second, ready2) = serves.gives n s1 8 (omega arith) (omega arith) ready1 in
      (
        (heap.alloc s1 8).1,
        rw
            (
              part_loop-before fuel text p t h lt,
              e,
              non_null_lem (heap.alloc s 108).0 (c ∷ bytes) first,
              non_null_lem (heap.alloc s1 8).0 (c ∷ bytes) second,
            )
            refl,
        ready2,
      )

  -- The parts are the leading segments, with fuel above the length and an allocator that is ready for two requests for
  -- each byte and one more.
  pub parts_loop-leading :
      (left : ℕ) (n p : ℕ) (t : List ℕ) (s : S)
      → serves.ReadyFor n s
      → 2 * length t < n
      → HasString text p t
      → length t < fuel
      → length t < left
      → (s' : S) × (parts_loop heap left fuel text p s ≡ some (leading (segments t), s'))
  unfolding parts_loop before_parts leading before
  parts_loop-leading zero n p t s ready room h lt lt' = absurd (omega arith)
  parts_loop-leading (suc left) zero p t s ready room h lt lt' = absurd (omega arith)
  parts_loop-leading (suc left) (suc n) p [] s ready room h lt lt' =
      let (s', e) = no_part n p [] s ready h lt refl in (s', rw (e, segments-before []) refl)
  parts_loop-leading (suc left) (suc zero) p (d ∷ t) s ready room h lt lt' = absurd (omega arith)
  parts_loop-leading (suc left) (suc (suc n)) p (d ∷ t) s ready room h lt lt' =
      elim (part_cases (before b'/' (d ∷ t))) [
        | inl none_left ↦
            let (s', e) = no_part (suc n) p (d ∷ t) s ready h lt none_left in
            (s', rw (e, segments-before (d ∷ t), none_left) refl)
        | inr (c, bytes, e) ↦
            let (s1, f, ready1) = some_part n p (d ∷ t) s c bytes h lt e ready in
            let less = length-after d t in
            let (s', g) =
              parts_loop-leading left n (behind text p (d ∷ t)) (after (d ∷ t)) s1 ready1
                (omega arith) (after-HasString text p (d ∷ t) h) (omega arith) (omega arith) in
            (s', rw (f, g, segments-before (d ∷ t), e, leading-others (d ∷ t)) refl)
      ]
    where
      part_cases : (b : List ℕ) → (b ≡ []) ⊎ ((c : ℕ) × (bytes : List ℕ) × (b ≡ c ∷ bytes))
      part_cases [] = inl refl
      part_cases (c ∷ bytes) = inr (c, bytes, refl)
