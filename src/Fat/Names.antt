-- ===== src/Fat/Names.antt =====
-- fat16.c: the name that the driver gives to an item of a directory.
use libre_win.Prelude.{
  ℕ, zero, suc, ◌+◌, ◌-◌, ◌≤◌, ◌<◌, ◌≡◌, ◌≢◌, refl, ◌⊎◌, inl, inr, arith, false, ◌||◌, ltb, leb,
  ◌==◌, if◌then◌else◌, some,
}
use libre_win.Config.{max_path}
use libre_win.Memory.{Mem, write}
use libre_win.Memory.Laws.{within}
use libre_win.Fat.{chain, item_ext}
use libre_win.Fat.Directory.{
  fat16_to_proper_string, add_extension, fat16_get_full_relative_filename,
}

abbrev pub Ends : ℕ → Type 0
Ends c = (c ≡ 0x00) ⊎ (c ≡ 0x20)

-- From `a` on the first byte that ends a text is the one at `a + n`.
abbrev pub IsText : Mem → ℕ → ℕ → Type 0
IsText m a n = ((i : ℕ) → i < n → (m (a + i) ≢ 0x00) × (m (a + i) ≢ 0x20)) × Ends (m (a + n))

IsText-tail : (m : Mem) (a n : ℕ) → IsText m a (suc n) → IsText m (a + 1) n
IsText-tail m a n (plain, end) = (λ i h. ground (arith, plain (suc i) (omega arith)), ground arith)

fat16_to_proper_string_lem :
    (n left : ℕ) (m : Mem) (in_ : ℕ) (buf : Mem) (out : ℕ)
    → n < left
    → IsText m in_ n
    → ((x : ℕ) → out ≤ x → buf x ≡ 0)
    → (buf' : Mem) × (fat16_to_proper_string left m in_ buf out ≡ some (buf', out + n))
      × ((x : ℕ) → buf' x ≡ (if within out n x then m (in_ + (x - out)) else buf x))
unfolding fat16_to_proper_string write
fat16_to_proper_string_lem zero zero m in_ buf out h t z = absurd (omega arith)
fat16_to_proper_string_lem (suc n) zero m in_ buf out h t z = absurd (omega arith)
fat16_to_proper_string_lem zero (suc left) m in_ buf out h (plain, inl e) z =
    (buf, ground (arith, e), λ x. ground arith)
fat16_to_proper_string_lem zero (suc left) m in_ buf out h (plain, inr e) z =
    (write buf out 0, ground (arith, e), λ x. ground (arith, z x))
fat16_to_proper_string_lem (suc n) (suc left) m in_ buf out h t z =
    let (buf', e, bytes) =
      fat16_to_proper_string_lem n left m (in_ + 1) (write buf out (m in_)) (out + 1) (omega arith)
        (IsText-tail m in_ n t) (λ x hx. ground (arith, z x)) in
    (buf', ground (arith, e, t.0 0 (omega arith)), λ x. ground (arith, bytes x))

extension_step :
    (m : Mem) (item max_len : ℕ) (buf : Mem) (out : ℕ) (buf' : Mem) (last : ℕ)
    → m (item_ext item) ≢ 0x00
    → m (item_ext item) ≢ 0x20
    → out < max_len
    → fat16_to_proper_string (max_len - (out + 1)) m (item_ext item) (write buf out b'.') (out + 1)
      ≡ some (buf', last)
    → add_extension m item max_len (buf, out) ≡ some buf'
unfolding add_extension chain
extension_step m item max_len buf out buf' last no_end no_space fit e =
    let here : ((m (item_ext item) == 0x00) || (m (item_ext item) == 0x20)) ≡ false =
      ground arith in
    let room : leb max_len out ≡ false = ground arith in rw (here, room, e) refl

-- The dot and the extension.
add_extension_lem :
    (m : Mem) (item max_len : ℕ) (buf : Mem) (out k : ℕ)
    → 0 < k
    → out + 1 + k < max_len
    → IsText m (item_ext item) k
    → ((x : ℕ) → out ≤ x → buf x ≡ 0)
    → (buf' : Mem) × (add_extension m item max_len (buf, out) ≡ some buf')
      × ((x : ℕ)
          → buf' x ≡ (
              if x == out
              then b'.'
              else if within (out + 1) k x
              then m (item_ext item + (x - (out + 1)))
              else buf x))
unfolding write
add_extension_lem m item max_len buf out k hk fit t z =
    let (buf', e, bytes) =
      fat16_to_proper_string_lem k (max_len - (out + 1)) m (item_ext item) (write buf out b'.')
        (out + 1) (omega arith) t (λ x hx. ground (arith, z x)) in
    let (no_end, no_space) = t.0 0 hk in
    let first : item_ext item + 0 ≡ item_ext item = omega arith in
    (
      buf',
      extension_step m item max_len buf out buf' (out + 1 + k) (rw first at (no_end))
          (rw first at (no_space)) (omega arith) e,
      λ x. ground (arith, bytes x),
    )

name_step :
    (m : Mem) (item max_len : ℕ) (buf : Mem) (last n : ℕ) (out : Mem)
    → fat16_to_proper_string max_len m item (λ i. 0) 0 ≡ some (buf, last)
    → last ≡ n
    → add_extension m item max_len (buf, n) ≡ some out
    → fat16_get_full_relative_filename m item max_len ≡ some out
unfolding fat16_get_full_relative_filename chain
name_step m item max_len buf last n out e same e' = rw (e, same) e'

-- If the bytes of an item from its name on end with a 0 or a space after `n` bytes, and from its extension on after
-- `k`, at least one, the file name is the first bytes, a dot, the others, and zeros up to its end.
pub fat16_get_full_relative_filename_lem :
    (m : Mem) (item max_len n k : ℕ)
    → 0 < k
    → n + 1 + k < max_len
    → IsText m item n
    → IsText m (item_ext item) k
    → (out : Mem) × (fat16_get_full_relative_filename m item max_len ≡ some out)
      × ((x : ℕ)
          → out x ≡ (
              if ltb x n
              then m (item + x)
              else if x == n
              then b'.'
              else if within (n + 1) k x
              then m (item_ext item + (x - (n + 1)))
              else 0))
fat16_get_full_relative_filename_lem m item max_len n k hk fit name ext =
    let (buf, e, bytes) =
      fat16_to_proper_string_lem n max_len m item (λ i. 0) 0 (omega arith) name (λ x _. refl) in
    let (out, e', bytes') =
      add_extension_lem m item max_len buf n k hk fit ext (λ x hx. ground (arith, bytes x)) in
    (
      out,
      name_step m item max_len buf (0 + n) n out e (omega arith) e',
      λ x. ground (arith, bytes x, bytes' x),
    )

ext_of_name :
    (m : Mem) (item : ℕ)
    → ((i : ℕ) → i < 11 → (m (item + i) ≢ 0x00) × (m (item + i) ≢ 0x20))
    → m (item + 11) ≡ 0x20
    → IsText m (item_ext item) 3
ext_of_name m item plain archived =
    (λ i h. ground (arith, plain (8 + i) (omega arith)), inr (ground (arith, archived)))

-- If none of the eight bytes of the name and the three of the extension is 0 or a space, and the attribute of the item
-- is that of an archived file, the file name has the extension twice: all eleven bytes come before the dot, and the
-- three of the extension after it.
pub fat16_get_full_relative_filename_long :
    (m : Mem) (item : ℕ)
    → ((i : ℕ) → i < 11 → (m (item + i) ≢ 0x00) × (m (item + i) ≢ 0x20))
    → m (item + 11) ≡ 0x20
    → (out : Mem) × (fat16_get_full_relative_filename m item max_path ≡ some out)
      × ((i : ℕ) → i < 11 → out i ≡ m (item + i))
      × (out 11 ≡ b'.')
      × ((i : ℕ) → i < 3 → out (12 + i) ≡ m (item_ext item + i))
fat16_get_full_relative_filename_long m item plain archived =
    let (out, e, bytes) =
      fat16_get_full_relative_filename_lem m item max_path 11 3 (omega arith) (omega arith)
        (plain, inr archived) (ext_of_name m item plain archived) in
    (out, e, λ i h. ground (arith, bytes i), bytes 11, λ i h. ground (arith, bytes (12 + i)))
