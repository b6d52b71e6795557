-- ===== src/Fat.antt =====
-- librewin/base/txos/ke/fs/fat/fat16.c and ke/disk/streamer.c: the state of the FAT16 driver, its streams, and the
-- reads that follow the clusters of a file. Structures that the driver allocates are found by their address in a
-- store of their kind; directory items are bytes of the kernel's memory. An `int` that holds a position or the number
-- of a sector is its 32 bits. The drive is a parameter. `none` is given where the code reads or writes outside a
-- buffer, divides by 0, frees a pointer below the heap, or the fuel runs out. An offset or a number of bytes of 2 GB or
-- more, which is a negative `int`, is not modelled.
pub mod Directory
pub mod File
pub mod Cluster
pub mod Frame
pub mod Members
pub mod Names
pub mod Read
pub mod Whole
mod Tests
use libre_win.Prelude.{
  ℕ, zero, suc, ◌+◌, ◌-◌, ◌*◌, ◌/◌, ◌%◌, ◌^◌, bit_or, Bool, true, false, ◌||◌, not, ltb, ◌==◌,
  if◌then◌else◌, Option, none, some,
}
use libre_win.Prelude.Int.{ℤ, pos, negsuc}
use libre_win.Config.{sector_size, u32, eio, minus, is_neg}
use libre_win.Memory.{Mem, write}
use libre_win.Kheap.{Kernel, kzalloc, kfree}
use libre_win.Vfs.{get_disk}
use libre_win.Stream.{Drive, diskstreamer_read}

-- What follows a step that gives a result.
unfoldable pub chain : {A B : Type 0} → Option A → (A → Option B) → Option B
chain none g = none
chain (some a) g = g a

abbrev pub load16 : Mem → ℕ → ℕ
load16 m a = m a + m (a + 1) * 2 ^ 8

-- The bytes of a `struct fat_h`, from 0 on; the fields that the driver uses.
abbrev pub header_size : ℕ
header_size = 62

abbrev pub sectors_per_cluster : Mem → ℕ
sectors_per_cluster h = h 13

abbrev pub reserved_sectors : Mem → ℕ
reserved_sectors h = load16 h 14

abbrev pub fat_copies : Mem → ℕ
fat_copies h = h 16

abbrev pub root_dir_entries : Mem → ℕ
root_dir_entries h = load16 h 17

abbrev pub sectors_per_fat : Mem → ℕ
sectors_per_fat h = load16 h 22

abbrev pub signature : Mem → ℕ
signature h = h 38

-- The fields of the `struct fat_directory_item` at an address.
abbrev pub item_size : ℕ
item_size = 32

abbrev pub item_ext : ℕ → ℕ
item_ext item = item + 8

abbrev pub item_attribute : Mem → ℕ → ℕ
item_attribute m item = m (item + 11)

abbrev pub high_16_bits_first_cluster : Mem → ℕ → ℕ
high_16_bits_first_cluster m item = load16 m (item + 20)

abbrev pub low_16_bits_first_cluster : Mem → ℕ → ℕ
low_16_bits_first_cluster m item = load16 m (item + 26)

pub record FatDirectory : Type 0 where
  pub item : ℕ
  pub total : ℕ
  pub sector_pos : ℕ
  pub ending_sector_pos : ℕ

-- `item` is the union of the two pointers.
pub record FatItem : Type 0 where
  pub item : ℕ
  pub item_type : ℕ

abbrev pub type_directory : ℕ
type_directory = 0

abbrev pub type_file : ℕ
type_file = 1

-- `pos` of the source is `offset` here.
pub record FatFileDescriptor : Type 0 where
  pub item : ℕ
  pub offset : ℕ

pub record FatPrivate : Type 0 where
  pub header : Mem
  pub root_directory : FatDirectory
  pub cluster_read_stream : ℕ
  pub fat_read_stream : ℕ
  pub directory_stream : ℕ

-- The kernel as the driver sees it: `fs_private` and `filesystem` are fields of the disk, `private_data` is what
-- `fs_private` points to, and a stream is its position.
pub record Fat : Type 0 where
  pub kernel : Kernel
  pub streams : ℕ → ℕ
  pub filesystem : ℕ
  pub fs_private : ℕ
  pub private_data : FatPrivate
  pub directories : ℕ → FatDirectory
  pub items : ℕ → FatItem
  pub descriptors : ℕ → FatFileDescriptor

abbrev pub put {ℓ} : {A : Type ℓ} → (ℕ → A) → ℕ → A → ℕ → A
put store ptr a p = if p == ptr then a else store p

abbrev pub with_kernel : Fat → Kernel → Fat
with_kernel f k = record f { kernel = k }

abbrev pub with_memory : Fat → Mem → Fat
with_memory f m = record f { kernel = record { mem = m; kernel_heap = f.kernel.kernel_heap } }

-- kzalloc and kfree for the driver.
pub allocate : Fat → ℕ → ℕ × Fat
allocate f size = let (ptr, k) = kzalloc f.kernel size in (ptr, with_kernel f k)

pub release : Fat → ℕ → Option Fat
release f ptr = chain (kfree f.kernel ptr) (λ k. some (with_kernel f k))

-- The size of `struct disk_stream` is 8. The allocation is not tested for the null pointer.
pub diskstreamer_new : Fat → ℤ → ℕ × Fat
unfolding allocate
diskstreamer_new f disk_id =
    if not (get_disk disk_id)
    then (0, f)
    else (let (streamer, f') = allocate f 8 in
        (streamer, record f' { streams = put f'.streams streamer 0 }))

-- The status is always 0.
pub diskstreamer_seek : Fat → ℕ → ℕ → Fat
diskstreamer_seek f stream position = record f { streams = put f.streams stream position }

pub diskstreamer_close : Fat → ℕ → Option Fat
unfolding release
diskstreamer_close f stream = release f stream

module _ (d : Drive) where
  -- A read to an address of the kernel's memory, with fuel for each sector.
  pub read_memory : Fat → ℕ → ℕ → ℕ → Option Fat
  read_memory f stream out total =
      chain
        (diskstreamer_read (suc (total / sector_size)) d (f.streams stream) f.kernel.mem out total)
        (λ (r : ℕ × Mem). some (record (with_memory f r.1) { streams = put f.streams stream r.0 }))

  -- A read to a variable of the caller, from 0 on.
  pub read_variable : Fat → ℕ → ℕ → Option (Mem × Fat)
  read_variable f stream total =
      chain (diskstreamer_read (suc (total / sector_size)) d (f.streams stream) (λ i. 0) 0 total)
        (λ (r : ℕ × Mem). some (r.1, record f { streams = put f.streams stream r.0 }))

-- `uint32_t` of an `int`.
abbrev pub word_of : ℤ → ℕ
word_of (pos n) = u32 n
word_of (negsuc n) = u32 (2 ^ 32 - (n + 1))

pub fat16_sector_to_absolute : ℕ → ℕ
fat16_sector_to_absolute sector = u32 (sector * sector_size)

pub fat16_get_first_cluster : Mem → ℕ → ℕ
fat16_get_first_cluster m item =
    bit_or (high_16_bits_first_cluster m item) (low_16_bits_first_cluster m item)

unfoldable pub fat16_cluster_to_sector : FatPrivate → ℤ → ℕ
fat16_cluster_to_sector p cluster = u32 (
    p.root_directory.ending_sector_pos
    + (word_of cluster + (2 ^ 32 - 2)) * sectors_per_cluster p.header)

unfoldable pub fat16_get_first_fat_sector : FatPrivate → ℕ
fat16_get_first_fat_sector p = reserved_sectors p.header

-- Where the entry of a cluster is read.
unfoldable pub fat_entry_position : FatPrivate → ℤ → ℕ
unfolding fat16_get_first_fat_sector
fat_entry_position p cluster =
    let fat_table_position = u32 (fat16_get_first_fat_sector p * sector_size) in
    u32 (fat_table_position * u32 (word_of cluster * 2))

-- The entries at which following a file ends with an error.
abbrev pub is_mark : ℤ → Bool
is_mark (pos e) =
    (e == 0xFF8) || ((e == 0xFFF) || ((e == 0xFF7) || ((e == 0xFF0) || ((e == 0xFF6) || (e == 0)))))
is_mark (negsuc n) = false

abbrev pub size_of_cluster_bytes : FatPrivate → ℕ
size_of_cluster_bytes p = sectors_per_cluster p.header * sector_size

module _ (d : Drive) where
  pub fat16_get_fat_entry : Fat → ℤ → Option (ℤ × Fat)
  unfolding fat_entry_position diskstreamer_seek read_variable
  fat16_get_fat_entry f cluster =
      let stream = f.private_data.fat_read_stream in
      let seeked = diskstreamer_seek f stream (fat_entry_position f.private_data cluster) in
      if stream == 0
      then some (negsuc 0, f)
      else chain (read_variable d seeked stream 2)
          (λ (r : Mem × Fat). some (pos (load16 r.0 0), r.1))

  -- The rounds that are left.
  pub cluster_loop : ℕ → Fat → ℤ → Option (ℤ × Fat)
  unfolding fat16_get_fat_entry
  cluster_loop zero f cluster_to_use = some (cluster_to_use, f)
  cluster_loop (suc left) f cluster_to_use =
      chain (fat16_get_fat_entry f cluster_to_use) (λ (r : ℤ × Fat).
        let rest = cluster_loop left r.1 r.0 in if is_mark r.0 then some (minus eio, r.1) else rest)

  -- An offset is not negative: see the header of this file.
  pub fat16_get_cluster_for_offset : Fat → ℤ → ℕ → Option (ℤ × Fat)
  unfolding cluster_loop
  fat16_get_cluster_for_offset f starting_cluster offset =
      let size = size_of_cluster_bytes f.private_data in
      let found = cluster_loop (offset / size) f starting_cluster in
      if size == 0 then none else found

  pub fat16_read_internal_from_stream : ℕ → Fat → ℕ → ℤ → ℕ → ℕ → ℕ → Option (ℤ × Fat)
  unfolding fat16_get_cluster_for_offset fat16_cluster_to_sector fat16_sector_to_absolute
      diskstreamer_seek read_memory
  fat16_read_internal_from_stream zero f stream cluster offset total out = none
  fat16_read_internal_from_stream (suc fuel) f stream cluster offset total out =
      chain (fat16_get_cluster_for_offset f cluster offset) (λ (r : ℤ × Fat).
        let p = r.1.private_data in
        let size = size_of_cluster_bytes p in
        let starting_pos = u32 (fat16_cluster_to_sector p r.0 * sector_size + offset % size) in
        let total_to_read = (if ltb size total then size else total) in
        let got =
          read_memory d (diskstreamer_seek r.1 stream starting_pos) stream out total_to_read in
        let read = chain got (λ (f' : Fat).
          let rest =
            fat16_read_internal_from_stream fuel f' stream cluster (offset + total_to_read)
              (total - total_to_read) (out + total_to_read) in
          if ltb 0 (total - total_to_read) then rest else some (pos 0, f')) in
        if is_neg r.0 then some r else read)

  pub fat16_read_internal : ℕ → Fat → ℤ → ℕ → ℕ → ℕ → Option (ℤ × Fat)
  unfolding fat16_read_internal_from_stream
  fat16_read_internal fuel f starting_cluster offset total out =
      fat16_read_internal_from_stream fuel f f.private_data.cluster_read_stream starting_cluster
        offset total out
