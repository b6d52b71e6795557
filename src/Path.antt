-- ===== src/Path.antt =====
-- librewin/base/txos/ke/fs/pparser.c: a path such as "0:/dir/file" into its drive and its parts. The text of the
-- path is memory that the parser only reads; a part is the list of its bytes, and its `next` is the rest of the
-- list. The allocator is an interface, since the parser relies on its answers alone.
pub mod Split
pub mod Served
pub mod Parse
mod Tests
use libre_win.Prelude.{
  ℕ, zero, suc, ◌+◌, Bool, true, false, ◌&&◌, ◌||◌, not, leb, ltb, ◌==◌, if◌then◌else◌, Option,
  none, some, List, [], ◌∷◌,
}
use libre_win.Prelude.Int.{ℤ}
use libre_win.Config.{max_path, ebadpath, minus, is_neg}
use libre_win.Kheap.{Allocator}
use libre_win.Memory.{Mem}
use libre_win.Str.{strlen, strnlen, isdigit, tonumericdigit}

pub record PathRoot : Type 0 where
  pub drive_no : ℤ
  pub first : List (List ℕ)

abbrev pub and_then : {A B : Type 0} → Option A → (A → Option B) → Option B
and_then none f = none
and_then (some a) f = f a

-- The bytes from `p` on up to a slash or the end, and the address where they end.
pub part_loop : ℕ → Mem → ℕ → Option (List ℕ × ℕ)
part_loop zero text p = none
part_loop (suc fuel) text p =
    let rest = part_loop fuel text (p + 1) in
    if (text p == b'/') || (text p == 0)
    then some ([], p)
    else and_then rest (λ (bytes, q). some (text p ∷ bytes, q))

-- memcmp with the two bytes of ":/" answers 0 where they are the bytes of the path.
pub pathparser_path_valid_format : Mem → ℕ → Bool
pathparser_path_valid_format text filename =
    leb 3 (strnlen text filename max_path)
    && isdigit (text filename)
    && ((text (filename + 1) == b':') && (text (filename + 2) == b'/'))

-- The number of the drive or -EBADPATH, and the path afterwards.
pub pathparser_get_drive_by_path : Mem → ℕ → ℤ × ℕ
unfolding pathparser_path_valid_format
pathparser_get_drive_by_path text path =
    if not (pathparser_path_valid_format text path)
    then (minus ebadpath, path)
    else (tonumericdigit (text path), path + 3)

-- What reads a part answers: the part, or `none` for the null pointer; the path afterwards; the heap.
pub record Part (S : Type 0) : Type 0 where
  pub part : Option (List ℕ)
  pub path : ℕ
  pub heap : S

abbrev pub non_null : {A : Type 0} → ℕ → A → Option A
non_null ptr a = if ptr == 0 then none else some a

module _ {S : Type 0} (heap : Allocator S) where
  -- The size of `struct path_root` is 8.
  pub pathparser_create_root : ℤ → S → Option PathRoot × S
  pathparser_create_root drive_number s =
      let (path_r, s') = heap.alloc s 8 in
      (non_null path_r (record { drive_no = drive_number; first = [] }), s')

  -- An empty part gives its buffer back.
  pub part_or_free : ℕ → ℕ → S → List ℕ → Option (Part S)
  part_or_free result_path_part path s [] =
      and_then (heap.free s result_path_part)
        (λ s'. some (record { part = none; path = path; heap = s' }))
  part_or_free result_path_part path s (c ∷ bytes) =
      some (record { part = non_null result_path_part (c ∷ bytes); path = path; heap = s })

  pub pathparser_get_path_part : ℕ → Mem → ℕ → S → Option (Part S)
  unfolding part_loop part_or_free
  pathparser_get_path_part fuel text path s =
      let (result_path_part, s') = heap.alloc s max_path in
      and_then (part_loop fuel text path)
        (λ (bytes, q). part_or_free result_path_part (if text q == b'/' then q + 1 else q) s' bytes)

  -- The node of a part; the size of `struct path_part` is 8.
  pub add_part : Part S → Option (List ℕ) → Part S
  add_part r none = r
  add_part r (some bytes) =
      let (part, s') = heap.alloc r.heap 8 in
      record { part = non_null part bytes; path = r.path; heap = s' }

  pub pathparser_parse_path_part : ℕ → Mem → ℕ → S → Option (Part S)
  unfolding pathparser_get_path_part add_part
  pathparser_parse_path_part fuel text path s =
      and_then (pathparser_get_path_part fuel text path s) (λ r. some (add_part r r.part))

  -- The list of a part and what follows it, or of no part.
  pub before_parts :
      Part S → Option (List ℕ) → Option (List (List ℕ) × S) → Option (List (List ℕ) × S)
  before_parts r none rest = some ([], r.heap)
  before_parts r (some bytes) rest = and_then rest (λ (parts, s'). some (bytes ∷ parts, s'))

  -- The parts that are left, up to the first null pointer.
  pub parts_loop : ℕ → ℕ → Mem → ℕ → S → Option (List (List ℕ) × S)
  unfolding pathparser_parse_path_part before_parts
  parts_loop zero fuel text path s = none
  parts_loop (suc left) fuel text path s =
      and_then (pathparser_parse_path_part fuel text path s)
        (λ r. before_parts r r.part (parts_loop left fuel text r.path r.heap))

  pub with_parts : ℕ → Mem → ℕ → Option PathRoot × S → Option (Option PathRoot × S)
  unfolding parts_loop
  with_parts fuel text path (none, s) = some (none, s)
  with_parts fuel text path (some root, s) =
      and_then (parts_loop fuel fuel text path s)
        (λ (parts, s'). some (some (record root { first = parts }), s'))

  -- `none` where the fuel runs out or a buffer cannot be freed. The root is `none` for the null pointer.
  pub pathparser_parse : ℕ → Mem → ℕ → S → Option (Option PathRoot × S)
  unfolding pathparser_get_drive_by_path pathparser_create_root with_parts
  pathparser_parse fuel text path s = and_then (strlen fuel text path) (λ len.
      if ltb max_path len
      then some (none, s)
      else (let (res, tmp_path) = pathparser_get_drive_by_path text path in
          if is_neg res
          then some (none, s)
          else with_parts fuel text tmp_path (pathparser_create_root res s)))
