-- ===== src/Gdt/Tests.antt =====
-- The theorems of gdt.c on the kernel's segments.
use libre_win.Prelude.{◌≡◌, inr, refl, arith, some}
use libre_win.Memory.{Mem}
use libre_win.Gdt.{GdtStructured, encode_gdt_entry}
use libre_win.Gdt.Decode.{IsEncoded, encode_gdt_entry-IsEncoded}

abbrev blank : Mem
blank x = 0

-- The user code segment of kernel.c: all of the address space.
abbrev user_code : GdtStructured
user_code = record { base = 0; limit = 0xffffffff; access = 0xf8 }

encode_gdt_entry-IsEncoded_example :
    (n : Mem) × (encode_gdt_entry blank 64 user_code ≡ some n) × IsEncoded blank n 64 user_code
encode_gdt_entry-IsEncoded_example =
    encode_gdt_entry-IsEncoded blank 64 user_code (omega arith) (omega arith) (inr refl)
