-- ===== src/Vfs.antt =====
-- librewin/base/txos/ke/fs/file.c and ke/disk/disk.c: the table of filesystems, the table of file descriptors, and
-- the one disk. A pointer is a number, 0 the null pointer. A filesystem's three functions are a driver, an
-- interface: they get the one disk, which they find in the rest of the kernel, of the type `W`.
pub mod Descriptors
pub mod Open
mod Tests
use libre_win.Prelude.{
  ℕ, zero, suc, ◌+◌, ◌-◌, ◌*◌, ◌%◌, ◌^◌, Bool, true, false, ◌&&◌, ◌||◌, not, leb, ltb, ◌==◌,
  if◌then◌else◌, Option, none, some, List, [], ◌∷◌, map,
}
use libre_win.Prelude.Int.{ℤ, pos, negsuc}
use libre_win.Config.{max_filesystems, max_file_descriptors, einvarg, eio, enomem, minus, is_neg}
use libre_win.Memory.{Mem, write}
use libre_win.Kheap.{Allocator}
use libre_win.Path.{PathRoot, and_then, pathparser_parse}

-- The numbers of FILE_MODE.
pub data FileMode : Type 0 where
  file_mode_read : FileMode
  file_mode_write : FileMode
  file_mode_append : FileMode
  file_mode_invalid : FileMode

-- The functions of `struct filesystem`. `open` answers a pointer or a negative status, as a 32-bit word.
pub record Driver (W : Type 0) : Type 0 where
  pub resolve : W → ℤ × W
  pub open_file : List (List ℕ) → FileMode → W → ℕ × W
  pub read_file : ℕ → ℕ → ℕ → ℕ → W → ℤ × W

-- `private` is `private_data` here; the disk is the one there is.
pub record FileDescriptor : Type 0 where
  pub index : ℕ
  pub filesystem : ℕ
  pub private_data : ℕ

-- The tables hold pointers; `descriptors` is what a pointer of the second one points to. `disk_filesystem` is
-- `disk.filesystem`, and `rest` is the remaining kernel.
pub record Files (W : Type 0) : Type 0 where
  pub filesystems : Mem
  pub file_descriptors : Mem
  pub descriptors : ℕ → FileDescriptor
  pub disk_filesystem : ℕ
  pub rest : W

abbrev pub is_zero : ℤ → Bool
is_zero (pos n) = n == 0
is_zero (negsuc n) = false

-- The index of the first null pointer of a table, from `i` on.
unfoldable pub free_loop : ℕ → ℕ → Mem → Option ℕ
free_loop zero i table = none
free_loop (suc left) i table =
    let more = free_loop left (i + 1) table in if table i == 0 then some i else more

module _ {W : Type 0} where
  pub fs_get_free_filesystem : Files W → Option ℕ
  unfolding free_loop
  fs_get_free_filesystem f = free_loop max_filesystems 0 f.filesystems

  abbrev pub put_filesystem : Files W → ℕ → Option ℕ → Option (Files W)
  put_filesystem f filesystem none = none
  put_filesystem f filesystem (some i) =
      some (record f { filesystems = write f.filesystems i filesystem })

  -- `none` where the table is full: the code then loops for ever.
  pub fs_insert_filesystem : Files W → ℕ → Option (Files W)
  unfolding fs_get_free_filesystem
  fs_insert_filesystem f filesystem = put_filesystem f filesystem (fs_get_free_filesystem f)

  -- fat16_init answers the address of the FAT16 driver.
  pub fs_static_load : ℕ → Files W → Option (Files W)
  unfolding fs_insert_filesystem
  fs_static_load fat16 f = fs_insert_filesystem f fat16

  pub fs_load : ℕ → Files W → Option (Files W)
  unfolding fs_static_load
  fs_load fat16 f = fs_static_load fat16 (record f { filesystems = λ i. 0 })

  pub fs_init : ℕ → Files W → Option (Files W)
  unfolding fs_load
  fs_init fat16 f = fs_load fat16 (record f { file_descriptors = λ i. 0 })

  -- The filesystems that are left, and the state; a driver is found by its address.
  pub resolve_loop : (ℕ → Driver W) → ℕ → ℕ → Mem → W → ℕ × W
  resolve_loop drivers zero i table w = (0, w)
  resolve_loop drivers (suc left) i table w =
      let (res, w') = (drivers (table i)).resolve w in
      let skip = resolve_loop drivers left (i + 1) table w in
      let more = resolve_loop drivers left (i + 1) table w' in
      if table i == 0 then skip else if is_zero res then (table i, w') else more

  pub fs_resolve : (ℕ → Driver W) → Files W → ℕ × Files W
  unfolding resolve_loop
  fs_resolve drivers f =
      let (fs, w) = resolve_loop drivers max_filesystems 0 f.filesystems f.rest in
      (fs, record f { rest = w })

  -- The other fields of the disk are constants.
  pub disk_init : (ℕ → Driver W) → Files W → Files W
  unfolding fs_resolve
  disk_init drivers f =
      let (fs, f') = fs_resolve drivers (record f { disk_filesystem = 0 }) in
      record f' { disk_filesystem = fs }

-- Whether there is a disk of that number.
pub get_disk : ℤ → Bool
get_disk (pos zero) = true
get_disk (pos (suc n)) = false
get_disk (negsuc n) = false

-- strncmp of the first character with the modes.
unfoldable pub file_get_mode_by_string : Mem → ℕ → FileMode
file_get_mode_by_string text str =
    if text str == b'r'
    then file_mode_read
    else if text str == b'w'
    then file_mode_write
    else if text str == b'a'
    then file_mode_append
    else file_mode_invalid

abbrev pub is_invalid : FileMode → Bool
is_invalid file_mode_invalid = true
is_invalid _ = false

abbrev pub is_empty : List (List ℕ) → Bool
is_empty [] = true
is_empty (part ∷ parts) = false

abbrev pub write_descriptor : (ℕ → FileDescriptor) → ℕ → FileDescriptor → ℕ → FileDescriptor
write_descriptor descriptors ptr d p = if p == ptr then d else descriptors p

module _ {W : Type 0} where
  -- The address that `fd` stands for, 0 where there is none.
  pub file_get_descriptor : Files W → ℤ → ℕ
  file_get_descriptor f (negsuc n) = 0
  file_get_descriptor f (pos fd) =
      if (fd == 0) || leb max_file_descriptors fd then 0 else f.file_descriptors (fd - 1)

  pub fread : (ℕ → Driver W) → Files W → ℕ → ℕ → ℕ → ℤ → ℤ × Files W
  unfolding file_get_descriptor
  fread drivers f ptr size nmemb fd =
      if (size == 0) || (nmemb == 0) || is_neg fd || is_zero fd
      then (minus einvarg, f)
      else (let desc = file_get_descriptor f fd in
          if desc == 0
          then (minus einvarg, f)
          else (let d = f.descriptors desc in
              let (res, w) =
                (drivers d.filesystem).read_file d.private_data size nmemb ptr f.rest in
              (res, record f { rest = w })))

  module _ (heap : Allocator W) where
    -- The size of `struct file_descriptor` is 16. The allocation is not tested for the null pointer.
    pub new_descriptor_at : Files W → Option ℕ → ℤ × (ℕ × Files W)
    new_descriptor_at f none = (minus enomem, (0, f))
    new_descriptor_at f (some i) =
        let (desc, w) = heap.alloc f.rest 16 in
        let d : FileDescriptor = record { index = i + 1; filesystem = 0; private_data = 0 } in
        (
          pos 0,
          (
            desc,
            record f {
              file_descriptors = write f.file_descriptors i desc;
              descriptors = write_descriptor f.descriptors desc d;
              rest = w;
            },
          ),
        )

    pub file_new_descriptor : Files W → ℤ × (ℕ × Files W)
    unfolding free_loop new_descriptor_at
    file_new_descriptor f =
        new_descriptor_at f (free_loop max_file_descriptors 0 f.file_descriptors)

    -- A descriptor for the private data that the driver answered; its index is the result.
    pub open_descriptor : ℕ → Files W → ℤ × Files W
    unfolding file_new_descriptor
    open_descriptor data_ptr f =
        let (res, (desc, f')) = file_new_descriptor f in
        if is_neg res
        then (res, f')
        else (let index = (f'.descriptors desc).index in
            let d : FileDescriptor = record {
              index = index;
              filesystem = f.disk_filesystem;
              private_data = data_ptr;
            } in
            (pos index, record f' { descriptors = write_descriptor f'.descriptors desc d }))

    pub open_root : (ℕ → Driver W) → FileMode → Files W → Option PathRoot → ℤ × Files W
    unfolding get_disk open_descriptor
    open_root drivers mode f none = (minus einvarg, f)
    open_root drivers mode f (some root) =
        if is_empty root.first
        then (minus einvarg, f)
        else if not (get_disk root.drive_no)
        then (minus eio, f)
        else if f.disk_filesystem == 0
        then (minus eio, f)
        else if is_invalid mode
        then (minus einvarg, f)
        else (let (data_ptr, w) = (drivers f.disk_filesystem).open_file root.first mode f.rest in
            if leb (2 ^ 31) data_ptr
            then (minus (2 ^ 32 - data_ptr), record f { rest = w })
            else open_descriptor data_ptr (record f { rest = w }))

    abbrev pub no_negative : ℤ × Files W → ℤ × Files W
    no_negative (pos n, f) = (pos n, f)
    no_negative (negsuc n, f) = (pos 0, f)

    -- `none` where the parser gives `none`.
    pub fopen : (ℕ → Driver W) → ℕ → Mem → ℕ → ℕ → Files W → Option (ℤ × Files W)
    unfolding open_root file_get_mode_by_string
    fopen drivers fuel text filename mode_str f =
        and_then (pathparser_parse heap fuel text filename f.rest) (λ (root, w). some (
          no_negative (
            open_root drivers (file_get_mode_by_string text mode_str) (record f { rest = w })
              root)))
