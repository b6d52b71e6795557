-- ===== src/Fat/File.antt =====
-- fat16.c: what the driver gives to the virtual file system, which is its resolve, open and read.
use libre_win.Prelude.{
  ℕ, zero, suc, ◌+◌, ◌-◌, ◌^◌, Bool, true, false, not, ◌==◌, if◌then◌else◌, Option, some, List, [],
  ◌∷◌,
}
use libre_win.Prelude.Int.{ℤ, pos}
use libre_win.Config.{u32, eio, enomem, efsnotus, erdonly, minus, is_neg}
use libre_win.Memory.{Mem}
use libre_win.Vfs.{FileMode, file_mode_read, is_zero}
use libre_win.Stream.{Drive}
use libre_win.Fat.{
  chain, Fat, FatFileDescriptor, put, allocate, release, type_directory, header_size, signature,
  diskstreamer_new, diskstreamer_close, read_variable, fat16_get_first_cluster, fat16_read_internal,
}
use libre_win.Fat.Directory.{
  fat16_fat_item_free, fat16_find_item_in_directory, fat16_get_root_directory,
}

-- ERROR(-e) as a pointer.
abbrev pub error : ℕ → ℕ
error e = 2 ^ 32 - e

abbrev pub is_read : FileMode → Bool
is_read file_mode_read = true
is_read _ = false

unfoldable pub fat16_init_private : Fat → ℤ → Fat
unfolding diskstreamer_new
fat16_init_private f disk_id =
    let (cluster_read, f1) = diskstreamer_new f disk_id in
    let (fat_read, f2) = diskstreamer_new f1 disk_id in
    let (directory, f3) = diskstreamer_new f2 disk_id in
    record f3 {
      private_data = record {
        header = λ i. 0;
        root_directory = record { item = 0; total = 0; sector_pos = 0; ending_sector_pos = 0 };
        cluster_read_stream = cluster_read;
        fat_read_stream = fat_read;
        directory_stream = directory;
      };
    }

-- What the driver's data is freed for.
unfoldable pub end_of_resolve : ℕ → ℤ × Fat → Option (ℤ × Fat)
unfolding diskstreamer_close release
end_of_resolve stream (res, f) =
    chain (if stream == 0 then some f else diskstreamer_close f stream) (λ (f' : Fat).
      let freed =
        chain (release f' f'.fs_private) (λ (g : Fat). some (res, record g { fs_private = 0 })) in
      if is_neg res then freed else some (res, f'))

abbrev pub with_header : Fat → Mem → Fat
with_header f h = record f { private_data = record f.private_data { header = h } }

module _ (d : Drive) where
  unfoldable pub resolve_header : ℕ → Fat → Mem → Option (ℤ × Fat)
  unfolding fat16_get_root_directory
  resolve_header fuel f header =
      let f' = with_header f header in
      let root =
        chain (fat16_get_root_directory d fuel f')
          (λ (r : ℤ × Fat). some (if is_zero r.0 then r else (minus eio, r.1))) in
      if not (signature header == 0x29) then some (minus efsnotus, f') else root

  -- The driver's structure has 92 bytes, the header in it 62. `fat16_fs` is the address of the driver.
  unfoldable pub fat16_resolve : ℕ → ℕ → Fat → Option (ℤ × Fat)
  unfolding fat16_init_private allocate diskstreamer_new resolve_header end_of_resolve read_variable
  fat16_resolve fuel fat16_fs f =
      let (ptr, f1) = allocate f 92 in
      let f2 = record (fat16_init_private f1 (pos 0)) { fs_private = ptr; filesystem = fat16_fs } in
      let (stream, f3) = diskstreamer_new f2 (pos 0) in
      let found =
        chain (read_variable d f3 stream header_size)
          (λ (r : Mem × Fat). resolve_header fuel r.1 r.0) in
      chain (if stream == 0 then some (minus enomem, f3) else found)
        (λ (r : ℤ × Fat). end_of_resolve stream r)

  -- The parts that are left, and the item so far.
  unfoldable pub entry_loop : ℕ → List (List ℕ) → ℕ → Fat → Option (ℕ × Fat)
  unfolding fat16_find_item_in_directory fat16_fat_item_free
  entry_loop fuel [] current_item f = some (current_item, f)
  entry_loop fuel (part ∷ parts) current_item f =
      let current = f.items current_item in
      let next =
        chain (fat16_find_item_in_directory d fuel f (f.directories current.item) part)
          (λ (r : ℕ × Fat).
            chain (fat16_fat_item_free r.1 current_item)
              (λ (f' : Fat). entry_loop fuel parts r.0 f')) in
      if not (current.item_type == type_directory) then some (0, f) else next

  -- The first part and the others: a path has a part.
  unfoldable pub fat16_get_directory_entry : ℕ → Fat → List ℕ → List (List ℕ) → Option (ℕ × Fat)
  unfolding entry_loop
  fat16_get_directory_entry fuel f part parts =
      chain (fat16_find_item_in_directory d fuel f f.private_data.root_directory part)
        (λ (r : ℕ × Fat).
          let rest = entry_loop fuel parts r.0 r.1 in if r.0 == 0 then some (0, r.1) else rest)

  -- The size of `struct fat_file_descriptor` is 8.
  unfoldable pub fat16_open : ℕ → Fat → List ℕ → List (List ℕ) → FileMode → Option (ℕ × Fat)
  unfolding fat16_get_directory_entry allocate
  fat16_open fuel f part parts mode =
      let (descriptor, f') = allocate f 8 in
      let opened = chain (fat16_get_directory_entry fuel f' part parts) (λ (r : ℕ × Fat).
        let file : FatFileDescriptor = record { item = r.0; offset = 0 } in
        if r.0 == 0
        then some (error eio, r.1)
        else some (descriptor, record r.1 { descriptors = put r.1.descriptors descriptor file })) in
      if not (is_read mode)
      then some (error erdonly, f)
      else if descriptor == 0
      then some (error enomem, f')
      else opened

  -- The members that are left.
  unfoldable pub members_loop : ℕ → ℕ → Fat → ℕ → ℕ → ℕ → ℕ → ℤ → Option (ℤ × Fat)
  unfolding fat16_read_internal fat16_get_first_cluster
  members_loop fuel zero f item offset size out_ptr done = some (done, f)
  members_loop fuel (suc left) f item offset size out_ptr done =
      chain
        (fat16_read_internal d fuel f (pos (fat16_get_first_cluster f.kernel.mem item)) offset size
          out_ptr)
        (λ (r : ℤ × Fat).
          let rest =
            members_loop fuel left r.1 item (u32 (offset + size)) size (out_ptr + size) done in
          if is_neg r.0 then some r else rest)

  -- `size` bytes for each of `nmemb` members, which is the result.
  unfoldable pub fat16_read : ℕ → Fat → ℕ → ℕ → ℕ → ℕ → Option (ℤ × Fat)
  unfolding members_loop
  fat16_read fuel f descriptor size nmemb out_ptr =
      let fat_desc = f.descriptors descriptor in
      let item = (f.items fat_desc.item).item in
      members_loop fuel nmemb f item fat_desc.offset size out_ptr (pos nmemb)
