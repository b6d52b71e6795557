-- ===== src/Config.antt =====
-- librewin/base/txos/ke/config.h and status.h: the constants of the kernel, and its status codes.
-- An `int` that holds a count, an index or a negated status code is an integer of Prelude.Int.
use libre_win.Prelude.{ℕ, zero, suc, ◌%◌, ◌^◌, ◌+◌, ◌-◌, Bool, true, false}
use libre_win.Prelude.Int.{ℤ, pos, negsuc}

abbrev pub heap_size_bytes : ℕ
heap_size_bytes = 104857600

abbrev pub block_size : ℕ
block_size = 4096

abbrev pub heap_address : ℕ
heap_address = 0x01000000

abbrev pub heap_table_address : ℕ
heap_table_address = 0x00007E00

abbrev pub sector_size : ℕ
sector_size = 512

abbrev pub max_path : ℕ
max_path = 108

abbrev pub max_filesystems : ℕ
max_filesystems = 12

abbrev pub max_file_descriptors : ℕ
max_file_descriptors = 512

abbrev pub max_processes : ℕ
max_processes = 12

abbrev pub eio : ℕ
eio = 1

abbrev pub einvarg : ℕ
einvarg = 2

abbrev pub enomem : ℕ
enomem = 3

abbrev pub ebadpath : ℕ
ebadpath = 4

abbrev pub efsnotus : ℕ
efsnotus = 5

abbrev pub erdonly : ℕ
erdonly = 6

abbrev pub eistkn : ℕ
eistkn = 8

-- `-e`
abbrev pub minus : ℕ → ℤ
minus zero = pos 0
minus (suc e) = negsuc e

-- `res < 0`
abbrev pub is_neg : ℤ → Bool
is_neg (pos n) = false
is_neg (negsuc n) = true

-- Sums and differences of `uint32_t`, `size_t` and pointers.
abbrev pub u32 : ℕ → ℕ
u32 n = n % 2 ^ 32

abbrev pub sub32 : ℕ → ℕ → ℕ
sub32 a b = (a + 2 ^ 32 - b) % 2 ^ 32
