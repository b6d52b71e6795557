-- ===== src/Gdt.antt =====
-- librewin/base/txos/ke/gdt/gdt.c: segment descriptors in the form that the processor reads.
pub mod Decode
mod Tests
use libre_win.Prelude.{
  ℕ, zero, suc, ◌+◌, ◌*◌, ◌/◌, bit_and, bit_or, Bool, ◌&&◌, not, List, [], ◌∷◌, Option, none, some,
  ltb, ◌==◌, if◌then◌else◌, ◌^◌,
}
use libre_win.Memory.{Mem, write}

-- `struct gdt_structured`; `type` is `access` here.
pub record GdtStructured : Type 0 where
  pub base : ℕ
  pub limit : ℕ
  pub access : ℕ

-- The bytes of a descriptor whose limit field is `limit` and whose flags are `flags`.
pub write_entry : Mem → ℕ → GdtStructured → ℕ → ℕ → Mem
write_entry m target source limit flags =
    let m0 = write m (target + 0) (bit_and limit 0xff) in
    let m1 = write m0 (target + 1) (bit_and (limit / 2 ^ 8) 0xff) in
    let m6 = write m1 (target + 6) (bit_or flags (bit_and (limit / 2 ^ 16) 0x0f)) in
    let m2 = write m6 (target + 2) (bit_and source.base 0xff) in
    let m3 = write m2 (target + 3) (bit_and (source.base / 2 ^ 8) 0xff) in
    let m4 = write m3 (target + 4) (bit_and (source.base / 2 ^ 16) 0xff) in
    let m7 = write m4 (target + 7) (bit_and (source.base / 2 ^ 24) 0xff) in
    write m7 (target + 5) source.access

-- `none` is KeBugCheck(KMODE_GDTFAIL), which does not return.
pub encode_gdt_entry : Mem → ℕ → GdtStructured → Option Mem
unfolding write_entry
encode_gdt_entry m target source =
    if ltb 65536 source.limit && not (bit_and source.limit 0xfff == 0xfff)
    then none
    else (if ltb 65536 source.limit
        then some (write_entry m target source (source.limit / 2 ^ 12) 0xc0)
        else some (write_entry m target source source.limit 0x40))

abbrev pub and_then : Option Mem → (Mem → Option Mem) → Option Mem
and_then none f = none
and_then (some m) f = f m

-- The structured descriptors that are left, and the place of the next one; `struct gdt` is 8 bytes.
pub gdt_structured_to_gdt : Mem → ℕ → List GdtStructured → Option Mem
unfolding encode_gdt_entry
gdt_structured_to_gdt m gdt [] = some m
gdt_structured_to_gdt m gdt (entry ∷ rest) =
    and_then (encode_gdt_entry m gdt entry) (λ m'. gdt_structured_to_gdt m' (gdt + 8) rest)
