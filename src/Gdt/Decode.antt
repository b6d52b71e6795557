-- ===== src/Gdt/Decode.antt =====
-- gdt.c: what the processor reads from an encoded descriptor.
use libre_win.Prelude.{
  ℕ, ◌+◌, ◌*◌, ◌/◌, ◌%◌, ◌^◌, ◌≤◌, ◌<◌, ◌≡◌, ◌⊎◌, inl, inr, bit_or, none, some, arith, ltb, leb,
  if◌then◌else◌, ◌≢◌, Bool-cases,
}
use libre_win.Prelude.Bits.{bit_and_mask, bit_or-add}
use libre_win.Memory.{Mem, write}
use libre_win.Gdt.{GdtStructured, write_entry, encode_gdt_entry}

-- The base of the segment, from bytes 2, 3, 4 and 7.
abbrev pub base_of : Mem → ℕ → ℕ
base_of m t = m (t + 2) + m (t + 3) * 2 ^ 8 + m (t + 4) * 2 ^ 16 + m (t + 7) * 2 ^ 24

-- The 20 bits of the limit field, from bytes 0, 1 and the lower half of 6.
abbrev pub field_of : Mem → ℕ → ℕ
field_of m t = m t + m (t + 1) * 2 ^ 8 + m (t + 6) % 16 * 2 ^ 16

-- With the granularity bit, the highest of byte 6, the limit counts pages of 4096 bytes.
abbrev pub limit_of : Mem → ℕ → ℕ
limit_of m t = if leb 128 (m (t + 6)) then field_of m t * 4096 + 4095 else field_of m t

module _ (m : Mem) (t : ℕ) (s : GdtStructured) (limit flags : ℕ) where
  byte0 : write_entry m t s limit flags t ≡ limit % 256
  unfolding write_entry write
  byte0 = ground (arith, bit_and_mask 8 limit)

  byte1 : write_entry m t s limit flags (t + 1) ≡ limit / 2 ^ 8 % 256
  unfolding write_entry write
  byte1 = ground (arith, bit_and_mask 8 (limit / 2 ^ 8))

  byte2 : write_entry m t s limit flags (t + 2) ≡ s.base % 256
  unfolding write_entry write
  byte2 = ground (arith, bit_and_mask 8 s.base)

  byte3 : write_entry m t s limit flags (t + 3) ≡ s.base / 2 ^ 8 % 256
  unfolding write_entry write
  byte3 = ground (arith, bit_and_mask 8 (s.base / 2 ^ 8))

  byte4 : write_entry m t s limit flags (t + 4) ≡ s.base / 2 ^ 16 % 256
  unfolding write_entry write
  byte4 = ground (arith, bit_and_mask 8 (s.base / 2 ^ 16))

  byte5 : write_entry m t s limit flags (t + 5) ≡ s.access
  unfolding write_entry write
  byte5 = ground arith

  byte6 : write_entry m t s limit flags (t + 6) ≡ bit_or flags (limit / 2 ^ 16 % 16)
  unfolding write_entry write
  byte6 = ground (arith, bit_and_mask 4 (limit / 2 ^ 16))

  byte7 : write_entry m t s limit flags (t + 7) ≡ s.base / 2 ^ 24 % 256
  unfolding write_entry write
  byte7 = ground (arith, bit_and_mask 8 (s.base / 2 ^ 24))

  base-write_entry : s.base < 2 ^ 32 → base_of (write_entry m t s limit flags) t ≡ s.base
  base-write_entry h = omega (arith, byte2, byte3, byte4, byte7)

write_entry_frame :
    (m : Mem) (t : ℕ) (s : GdtStructured) (limit flags x : ℕ)
    → (x < t) ⊎ (t + 8 ≤ x)
    → write_entry m t s limit flags x ≡ m x
unfolding write_entry write
write_entry_frame m t s limit flags x o = ground arith

-- What an encoded descriptor says: the base, the access byte and the limit of the structured one, and
-- no other byte of the memory has changed.
pub record IsEncoded (m n : Mem) (t : ℕ) (s : GdtStructured) : Type 0 where
  pub base : base_of n t ≡ s.base
  pub access : n (t + 5) ≡ s.access
  pub limit : limit_of n t ≡ s.limit
  pub frame : (x : ℕ) → (x < t) ⊎ (t + 8 ≤ x) → n x ≡ m x

bytes-IsEncoded :
    (m : Mem) (t : ℕ) (s : GdtStructured)
    → s.base < 2 ^ 32
    → s.limit ≤ 65536
    → IsEncoded m (write_entry m t s s.limit 0x40) t s
bytes-IsEncoded m t s hb small = record {
  base = base-write_entry m t s s.limit 0x40 hb;
  access = byte5 m t s s.limit 0x40;
  limit = ground (
    arith,
    byte0 m t s s.limit 0x40,
    byte1 m t s s.limit 0x40,
    byte6 m t s s.limit 0x40,
    bit_or-add 4 4 (s.limit / 2 ^ 16 % 16),
  );
  frame = write_entry_frame m t s s.limit 0x40;
}

pages-IsEncoded :
    (m : Mem) (t : ℕ) (s : GdtStructured)
    → s.base < 2 ^ 32
    → s.limit < 2 ^ 32
    → s.limit % 4096 ≡ 4095
    → IsEncoded m (write_entry m t s (s.limit / 2 ^ 12) 0xc0) t s
pages-IsEncoded m t s hb hl whole = record {
  base = base-write_entry m t s (s.limit / 2 ^ 12) 0xc0 hb;
  access = byte5 m t s (s.limit / 2 ^ 12) 0xc0;
  limit = ground (
    arith,
    byte0 m t s (s.limit / 2 ^ 12) 0xc0,
    byte1 m t s (s.limit / 2 ^ 12) 0xc0,
    byte6 m t s (s.limit / 2 ^ 12) 0xc0,
    bit_or-add 4 12 (s.limit / 2 ^ 12 / 2 ^ 16 % 16),
  );
  frame = write_entry_frame m t s (s.limit / 2 ^ 12) 0xc0;
}

-- A descriptor with a 32-bit base and a 32-bit limit that is at most 65536 or ends a page is encoded, and is read back
-- as it was: a limit up to 65536 in bytes, a larger one in pages; no byte beside the eight has changed.
pub encode_gdt_entry-IsEncoded :
    (m : Mem) (t : ℕ) (s : GdtStructured)
    → s.base < 2 ^ 32
    → s.limit < 2 ^ 32
    → (s.limit ≤ 65536) ⊎ (s.limit % 4096 ≡ 4095)
    → (n : Mem) × (encode_gdt_entry m t s ≡ some n) × IsEncoded m n t s
unfolding encode_gdt_entry
encode_gdt_entry-IsEncoded m t s hb hl ok = elim (Bool-cases (ltb 65536 s.limit)) [
  | inl large ↦ (
    write_entry m t s (s.limit / 2 ^ 12) 0xc0,
    ground (arith, bit_and_mask 12 s.limit),
    pages-IsEncoded m t s hb hl (ground arith),
  )
  | inr small ↦
      (write_entry m t s s.limit 0x40, ground arith, bytes-IsEncoded m t s hb (ground arith))
]

-- A limit above 65536 that does not end a page cannot be encoded: it ends in the bug check.
pub encode_gdt_entry_refuses :
    (m : Mem) (t : ℕ) (s : GdtStructured)
    → 65536 < s.limit
    → s.limit % 4096 ≢ 4095
    → encode_gdt_entry m t s ≡ none
unfolding encode_gdt_entry
encode_gdt_entry_refuses m t s large ragged = ground (arith, bit_and_mask 12 s.limit)
