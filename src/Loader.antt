-- ===== src/Loader.antt =====
-- librewin/base/txos/init/loader.c: the headers of a PE image, its sections, and its relocation. Memory is bytes by
-- address, and the image file lies in it; the log that the functions write is left. DWORD64 is an `unsigned long`, so it
-- has 32 bits here. The loop over the blocks of relocations ends at a block for address 0, and takes fuel.
pub mod Relocation
use libre_win.Prelude.{
  ℕ, zero, suc, ◌+◌, ◌-◌, ◌*◌, ◌/◌, ◌%◌, ◌^◌, bit_and, Bool, not, ◌==◌, if◌then◌else◌, Option, none,
  some,
}
use libre_win.Config.{u32, sub32}
use libre_win.Memory.{Mem, write, memcpy}
use libre_win.Memory.Words.{load32, store32}
use libre_win.Kheap.{Kernel, kmalloc}
use libre_win.Fat.{load16}

abbrev pub store16 : Mem → ℕ → ℕ → Mem
store16 m a v = write (write m a (v % 256)) (a + 1) (v / 2 ^ 8 % 256)

-- What is kept of the headers: a directory is the address of its entry.
pub record PeImage : Type 0 where
  pub is_dll : Bool
  pub image_base : ℕ
  pub size_of_image : ℕ
  pub address_of_entry_point_offset : ℕ
  pub num_of_sections : ℕ
  pub section_header_first : ℕ
  pub data_directory_export : ℕ
  pub data_directory_import : ℕ
  pub data_directory_reloc : ℕ
  pub data_directory_exception : ℕ

abbrev pub file_executable_image : ℕ
file_executable_image = 0x0003

abbrev pub file_dll : ℕ
file_dll = 0x2000

abbrev pub directory_entry : ℕ → ℕ → ℕ
directory_entry nt_headers index = nt_headers + 120 + 8 * index

-- `none` for FALSE. The offsets are those of IMAGE_DOS_HEADER and IMAGE_NT_HEADERS.
unfoldable pub ldr_process_pe : Mem → ℕ → Option PeImage
ldr_process_pe m image =
    let nt_headers = u32 (image + load32 m (image + 60)) in
    let characteristics = load16 m (nt_headers + 22) in
    if bit_and characteristics file_executable_image == 0
    then none
    else some (record {
      is_dll = not (bit_and characteristics file_dll == 0);
      image_base = load32 m (nt_headers + 52);
      size_of_image = load32 m (nt_headers + 80);
      address_of_entry_point_offset = load32 m (nt_headers + 40);
      num_of_sections = load16 m (nt_headers + 6);
      section_header_first = nt_headers + 24 + load16 m (nt_headers + 20);
      data_directory_export = directory_entry nt_headers 0;
      data_directory_import = directory_entry nt_headers 1;
      data_directory_reloc = directory_entry nt_headers 5;
      data_directory_exception = directory_entry nt_headers 3;
    })

-- The buffer for the image, 0 where there is no memory.
unfoldable pub ldr_alloc_memory : Kernel → ℕ → ℕ × Kernel
ldr_alloc_memory k size_of_image = kmalloc k size_of_image

-- The sections that are left, from the header at `header` on. A header has 40 bytes.
unfoldable pub sections_loop : ℕ → ℕ → ℕ → ℕ → Mem → Mem
sections_loop zero header image base m = m
sections_loop (suc left) header image base m = sections_loop left (header + 40) image base (
    memcpy m (u32 (base + load32 m (header + 12))) (u32 (image + load32 m (header + 20)))
      (load32 m (header + 16)))

unfoldable pub ldr_cpy_sections : PeImage → ℕ → ℕ → Mem → Mem
ldr_cpy_sections p image base m =
    sections_loop p.num_of_sections p.section_header_first image base m

-- One entry: four bits of its type above twelve of its offset. The types are those of IMAGE_REL_BASED_HIGH, LOW, HIGHLOW
-- and DIR32.
unfoldable pub relocate : Mem → ℕ → ℕ → ℕ → Mem
relocate m offset type_ at =
    if type_ == 1
    then store16 m at ((load16 m at + offset / 2 ^ 16) % 2 ^ 16)
    else if type_ == 2
    then store16 m at ((load16 m at + offset % 2 ^ 16) % 2 ^ 16)
    else if type_ == 3
    then store32 m at (u32 (load32 m at + offset))
    else if type_ == 6
    then store32 m at (u32 (load32 m at + offset))
    else m

-- The entries of the block that are left.
unfoldable pub entries_loop : ℕ → ℕ → ℕ → ℕ → ℕ → Mem → Mem
entries_loop zero i block base offset m = m
entries_loop (suc left) i block base offset m =
    let entry = load16 m (block + 8 + 2 * i) in
    let at = u32 (base + (load32 m block + entry % 2 ^ 12)) in
    entries_loop left (i + 1) block base offset (relocate m offset (entry / 2 ^ 12) at)

unfoldable pub blocks_loop : ℕ → ℕ → ℕ → ℕ → Mem → Option Mem
blocks_loop zero block base offset m = none
blocks_loop (suc fuel) block base offset m =
    let entries = sub32 (load32 m (block + 4)) 8 / 2 in
    let m' = entries_loop entries 0 block base offset m in
    let rest = blocks_loop fuel (u32 (block + load32 m' (block + 4))) base offset m' in
    if load32 m block == 0 then some m else rest

unfoldable pub ldr_reloc_memory : ℕ → PeImage → ℕ → Mem → Option Mem
ldr_reloc_memory fuel p base m =
    blocks_loop fuel (u32 (base + load32 m p.data_directory_reloc)) base (sub32 base p.image_base) m
