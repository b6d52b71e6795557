-- ===== src/Fat/Directory.antt =====
-- fat16.c: directories and the names of their items.
use libre_win.Prelude.{
  ℕ, zero, suc, ◌+◌, ◌-◌, ◌*◌, ◌/◌, bit_and, ◌||◌, ltb, leb, ◌==◌, if◌then◌else◌, Option, none,
  some, List, get_or,
}
use libre_win.Prelude.Int.{ℤ, pos}
use libre_win.Config.{sector_size, max_path, u32, enomem, minus}
use libre_win.Memory.{Mem, write, memcpy}
use libre_win.Str.{istrncmp}
use libre_win.Vfs.{is_zero}
use libre_win.Stream.{Drive}
use libre_win.Fat.{
  chain, Fat, FatDirectory, FatItem, put, with_memory, allocate, release, type_directory, type_file,
  item_size, item_ext, item_attribute, root_dir_entries, sectors_per_fat, fat_copies,
  reserved_sectors, diskstreamer_seek, read_memory, read_variable, fat16_sector_to_absolute,
  fat16_get_first_cluster, fat16_cluster_to_sector, fat16_read_internal,
}

-- The bytes from `in_` on, up to one that is 0 or a space, to the buffer from `out` on, which has `left` bytes.
-- The buffer, and the end of what is written.
unfoldable pub fat16_to_proper_string : ℕ → Mem → ℕ → Mem → ℕ → Option (Mem × ℕ)
fat16_to_proper_string zero m in_ buf out = if m in_ == 0x00 then some (buf, out) else none
fat16_to_proper_string (suc left) m in_ buf out =
    let rest = fat16_to_proper_string left m (in_ + 1) (write buf out (m in_)) (out + 1) in
    if m in_ == 0x00
    then some (buf, out)
    else if m in_ == 0x20
    then some (write buf out 0x00, out)
    else rest

-- The dot and the extension of an item, after its name.
unfoldable pub add_extension : Mem → ℕ → ℕ → Mem × ℕ → Option Mem
unfolding fat16_to_proper_string
add_extension m item max_len (buf, out) =
    let ext = m (item_ext item) in
    let whole =
      chain
        (fat16_to_proper_string (max_len - (out + 1)) m (item_ext item) (write buf out b'.')
          (out + 1))
        (λ (r : Mem × ℕ). some r.0) in
    if (ext == 0x00) || (ext == 0x20) then some buf else if leb max_len out then none else whole

-- The buffer `out` of `max_len` bytes afterwards.
unfoldable pub fat16_get_full_relative_filename : Mem → ℕ → ℕ → Option Mem
unfolding fat16_to_proper_string add_extension
fat16_get_full_relative_filename m item max_len =
    chain (fat16_to_proper_string max_len m item (λ i. 0x00) 0)
      (λ (r : Mem × ℕ). add_extension m item max_len r)

unfoldable pub fat16_clone_directory_item : Fat → ℕ → ℕ → ℕ × Fat
unfolding allocate
fat16_clone_directory_item f item size =
    let (item_copy, f') = allocate f size in
    if ltb size item_size
    then (0, f)
    else if item_copy == 0
    then (0, f')
    else (item_copy, with_memory f' (memcpy f'.kernel.mem item_copy item size))

unfoldable pub fat16_free_directory : Fat → ℕ → Option Fat
unfolding release
fat16_free_directory f directory =
    let item = (f.directories directory).item in
    let freed =
      chain (if item == 0 then some f else release f item) (λ (f' : Fat). release f' directory) in
    if directory == 0 then some f else freed

unfoldable pub fat16_fat_item_free : Fat → ℕ → Option Fat
unfolding fat16_free_directory
fat16_fat_item_free f item =
    let i = f.items item in
    chain
      (if i.item_type == type_directory
        then fat16_free_directory f i.item
        else if i.item_type == type_file
        then release f i.item
        else some f)
      (λ (f' : Fat). release f' item)

-- The name of a file as the comparison reads it: the buffer, and `name` behind it.
abbrev pub beside : ℕ → Mem → List ℕ → Mem
beside max_len buf name x = if ltb x max_len then buf x else get_or name (x - max_len) 0

abbrev pub with_root : Fat → FatDirectory → Fat
with_root f directory = record f {
  private_data = record f.private_data { root_directory = directory };
}

-- The last lines: the type is the one of a file, and the item is a copy, whatever it was.
unfoldable pub set_item : Fat → ℕ → ℕ → Option (ℕ × Fat)
unfolding fat16_clone_directory_item
set_item f f_item item =
    let (item_copy, f') = fat16_clone_directory_item f item item_size in
    let i : FatItem = record { item = item_copy; item_type = type_file } in
    some (f_item, record f' { items = put f'.items f_item i })

module _ (d : Drive) where
  -- The rounds that the fuel allows, and `i`.
  unfoldable pub items_loop : ℕ → Fat → ℕ → ℕ → Option (ℕ × Fat)
  unfolding read_variable
  items_loop zero f stream i = none
  items_loop (suc fuel) f stream i = chain (read_variable d f stream item_size) (λ (r : Mem × Fat).
      let more = items_loop fuel r.1 stream (i + 1) in
      let skip = items_loop fuel r.1 stream i in
      if r.0 0 == 0x00 then some (i, r.1) else if r.0 0 == 0xE5 then skip else more)

  unfoldable pub fat16_get_total_items_for_directory : ℕ → Fat → ℕ → Option (ℕ × Fat)
  unfolding items_loop diskstreamer_seek
  fat16_get_total_items_for_directory fuel f directory_start_sector =
      let stream = f.private_data.directory_stream in
      items_loop fuel (diskstreamer_seek f stream (u32 (directory_start_sector * sector_size)))
        stream 0

  -- The directory that is filled in is the root directory of the driver's data.
  unfoldable pub fat16_get_root_directory : ℕ → Fat → Option (ℤ × Fat)
  unfolding fat16_get_total_items_for_directory allocate diskstreamer_seek read_memory
      fat16_sector_to_absolute
  fat16_get_root_directory fuel f =
      let h = f.private_data.header in
      let root_dir_sector_pos = fat_copies h * sectors_per_fat h + reserved_sectors h in
      let root_dir_size = root_dir_entries h * item_size in
      chain (fat16_get_total_items_for_directory fuel f root_dir_sector_pos) (λ (r : ℕ × Fat).
        let (dir, f') = allocate r.1 root_dir_size in
        let stream = f'.private_data.directory_stream in
        let seeked = diskstreamer_seek f' stream (fat16_sector_to_absolute root_dir_sector_pos) in
        let filled = chain (read_memory d seeked stream dir root_dir_size) (λ (f'' : Fat). some (
          pos 0,
          with_root f'' (record {
            item = dir;
            total = r.0;
            sector_pos = root_dir_sector_pos;
            ending_sector_pos = root_dir_sector_pos + root_dir_size / sector_size;
          }),
        )) in
        if dir == 0 then some (minus enomem, f') else filled)

  -- The items of a directory that has been allocated; it is freed, and answered all the same, on an error.
  unfoldable pub load_items : ℕ → Fat → ℕ → ℤ → ℕ → Option (ℕ × Fat)
  unfolding allocate fat16_read_internal fat16_free_directory
  load_items fuel f directory cluster total_items =
      let directory_size = u32 (total_items * item_size) in
      let (item, f') = allocate f directory_size in
      let f'' : Fat = record f' {
        directories =
            put f'.directories directory
              (record { item = item; total = total_items; sector_pos = 0; ending_sector_pos = 0 });
      } in
      let free : Fat → Option (ℕ × Fat) =
        λ g. chain (fat16_free_directory g directory) (λ (g' : Fat). some (directory, g')) in
      let loaded =
        chain (fat16_read_internal d fuel f'' cluster 0x00 directory_size item)
          (λ (r : ℤ × Fat). if is_zero r.0 then some (directory, r.1) else free r.1) in
      if item == 0 then free f'' else loaded

  -- The size of `struct fat_directory` is 16.
  unfoldable pub fat16_load_fat_directory : ℕ → Fat → ℕ → Option (ℕ × Fat)
  unfolding fat16_get_first_cluster fat16_cluster_to_sector fat16_get_total_items_for_directory
      load_items allocate
  fat16_load_fat_directory fuel f item =
      let (directory, f') = allocate f 16 in
      let cluster = pos (fat16_get_first_cluster f'.kernel.mem item) in
      let loaded =
        chain
          (fat16_get_total_items_for_directory fuel f'
            (fat16_cluster_to_sector f'.private_data cluster))
          (λ (r : ℕ × Fat). load_items fuel r.1 directory cluster r.0) in
      if bit_and (item_attribute f.kernel.mem item) 0x10 == 0
      then some (0, f)
      else if directory == 0
      then some (0, f')
      else loaded

  -- The size of `struct fat_item` is 8.
  unfoldable pub fat16_new_fat_item_for_directory_item : ℕ → Fat → ℕ → Option (ℕ × Fat)
  unfolding allocate fat16_load_fat_directory set_item
  fat16_new_fat_item_for_directory_item fuel f item =
      let (f_item, f') = allocate f 8 in
      let directory = chain (fat16_load_fat_directory fuel f' item) (λ (r : ℕ × Fat).
        let i : FatItem = record { item = r.0; item_type = type_directory } in
        set_item (record r.1 { items = put r.1.items f_item i }) f_item item) in
      if f_item == 0
      then some (0, f')
      else if bit_and (item_attribute f'.kernel.mem item) 0x10 == 0
      then set_item f' f_item item
      else directory

  -- The items that are left, from the one at `item` on, and what was found last.
  unfoldable pub find_loop : ℕ → ℕ → ℕ → List ℕ → ℕ → Fat → Option (ℕ × Fat)
  unfolding fat16_get_full_relative_filename fat16_new_fat_item_for_directory_item
  find_loop fuel zero item name f_item f = some (f_item, f)
  find_loop fuel (suc left) item name f_item f =
      chain (fat16_get_full_relative_filename f.kernel.mem item max_path) (λ (tmp_filename : Mem).
        let same = is_zero (istrncmp (beside max_path tmp_filename name) 0 max_path max_path) in
        chain (if same then fat16_new_fat_item_for_directory_item fuel f item else some (f_item, f))
          (λ (r : ℕ × Fat). find_loop fuel left (item + item_size) name r.0 r.1))

  unfoldable pub fat16_find_item_in_directory : ℕ → Fat → FatDirectory → List ℕ → Option (ℕ × Fat)
  unfolding find_loop
  fat16_find_item_in_directory fuel f directory name =
      find_loop fuel directory.total directory.item name 0 f
