-- ===== src/Vfs/Open.antt =====
-- file.c: fopen, and fread on the descriptor that it answers.
use libre_win.Prelude.{
  ℕ, ◌+◌, ◌-◌, ◌<◌, ◌≡◌, ◌≢◌, ◌^◌, refl, true, false, arith, ltb, leb, ◌==◌, if◌then◌else◌, some,
  Bool-cases, inl, inr,
}
use libre_win.Prelude.Int.{pos}
use libre_win.Config.{minus, einvarg}
use libre_win.Memory.{Mem, write}
use libre_win.Kheap.{Allocator}
use libre_win.Path.{PathRoot, pathparser_parse}
use libre_win.Vfs.{
  Driver, Files, FileDescriptor, free_loop, fopen, fread, open_root, open_descriptor,
  file_new_descriptor, new_descriptor_at, file_get_mode_by_string, is_invalid, is_empty,
  write_descriptor, file_get_descriptor, get_disk,
}

same : (n : ℕ) → (n == n) ≡ true
same n = ground arith

module _ {W : Type 0} (heap : Allocator W) (drivers : ℕ → Driver W) where
  -- The tables after a descriptor for `data_ptr` is put at entry `i`.
  pub opened : Files W → ℕ → ℕ → Files W
  opened f i data_ptr =
      let (desc, w) = heap.alloc f.rest 16 in
      let d0 : FileDescriptor = record { index = i + 1; filesystem = 0; private_data = 0 } in
      let d : FileDescriptor = record {
        index = i + 1;
        filesystem = f.disk_filesystem;
        private_data = data_ptr;
      } in
      record f {
        file_descriptors = write f.file_descriptors i desc;
        descriptors = write_descriptor (write_descriptor f.descriptors desc d0) desc d;
        rest = w;
      }

  open_descriptor-opened :
      (f : Files W) (i data_ptr : ℕ)
      → free_loop 512 0 f.file_descriptors ≡ some i
      → open_descriptor heap data_ptr f ≡ (pos (i + 1), opened f i data_ptr)
  unfolding open_descriptor file_new_descriptor new_descriptor_at opened
  open_descriptor-opened f i data_ptr e = rw (e, same (heap.alloc f.rest 16).0) refl

  fopen-opened :
      (fuel : ℕ) (text : Mem) (filename mode_str : ℕ) (f : Files W) (w w' : W) (root : PathRoot)
      (i data_ptr : ℕ)
      → pathparser_parse heap fuel text filename f.rest ≡ some (some root, w)
      → is_empty root.first ≡ false
      → root.drive_no ≡ pos 0
      → f.disk_filesystem ≢ 0
      → is_invalid (file_get_mode_by_string text mode_str) ≡ false
      → (drivers f.disk_filesystem).open_file root.first (file_get_mode_by_string text mode_str) w
        ≡ (data_ptr, w')
      → data_ptr < 2 ^ 31
      → free_loop 512 0 f.file_descriptors ≡ some i
      → fopen heap drivers fuel text filename mode_str f
        ≡ some (pos (i + 1), opened (record f { rest = w' }) i data_ptr)
  unfolding fopen open_root get_disk
  fopen-opened fuel text filename mode_str f w w' root i data_ptr parsed parts drive some_fs mode
        driver small free =
      let fs : (f.disk_filesystem == 0) ≡ false = ground (arith, some_fs) in
      let no_error : leb (2 ^ 31) data_ptr ≡ false = ground arith in
      rw
        (
          parsed,
          parts,
          drive,
          fs,
          mode,
          driver,
          no_error,
          open_descriptor-opened (record f { rest = w' }) i data_ptr free,
        )
        refl

  fread-opened :
      (f : Files W) (i data_ptr ptr size nmemb : ℕ)
      → (heap.alloc f.rest 16).0 ≢ 0
      → 0 < size
      → 0 < nmemb
      → i < 512
      → let f' = opened f i data_ptr in
        fread drivers f' ptr size nmemb (pos (i + 1)) ≡ (
          if ltb i 511
          then (let (res, w) =
                (drivers f.disk_filesystem).read_file data_ptr size nmemb ptr f'.rest in
              (res, record f' { rest = w }))
          else (minus einvarg, f'))
  unfolding fread opened file_get_descriptor write
  fread-opened f i data_ptr ptr size nmemb ok has_size has_nmemb h =
      let a : (size == 0) ≡ false = ground arith in
      let b : (nmemb == 0) ≡ false = ground arith in
      let c : (i + 1 == 0) ≡ false = ground arith in
      let back : i + 1 - 1 ≡ i = omega arith in
      let d : ((heap.alloc f.rest 16).0 == 0) ≡ false = ground (arith, ok) in
      elim (Bool-cases (ltb i 511)) [
        | inl low ↦
            let e : leb 512 (i + 1) ≡ false = ground arith in
            rw (a, b, c, e, low, back, same i, d, same (heap.alloc f.rest 16).0) refl
        | inr last ↦ let e : leb 512 (i + 1) ≡ true = ground arith in rw (a, b, c, e, last) refl
      ]

-- Where the path is parsed and has a part, its drive is 0, the disk has a filesystem, the mode is one of "r", "w" and
-- "a", the driver opens the file, entry `i` of the table is the first free one, and memory for a descriptor is
-- there, fopen answers `i + 1`. Then fread of at least one byte on that number is the driver's read with what its
-- open answered, unless `i` is the last entry: there fread answers -EINVARG.
pub fread-fopen :
    {W : Type 0} (heap : Allocator W) (drivers : ℕ → Driver W) (fuel : ℕ) (text : Mem)
    (filename mode_str : ℕ) (f : Files W) (w w' : W) (root : PathRoot)
    (i data_ptr ptr size nmemb : ℕ)
    → pathparser_parse heap fuel text filename f.rest ≡ some (some root, w)
    → is_empty root.first ≡ false
    → root.drive_no ≡ pos 0
    → f.disk_filesystem ≢ 0
    → is_invalid (file_get_mode_by_string text mode_str) ≡ false
    → (drivers f.disk_filesystem).open_file root.first (file_get_mode_by_string text mode_str) w
      ≡ (data_ptr, w')
    → data_ptr < 2 ^ 31
    → free_loop 512 0 f.file_descriptors ≡ some i
    → i < 512
    → (heap.alloc w' 16).0 ≢ 0
    → 0 < size
    → 0 < nmemb
    → (f' : Files W) × (fopen heap drivers fuel text filename mode_str f ≡ some (pos (i + 1), f'))
      × (fread drivers f' ptr size nmemb (pos (i + 1)) ≡ (
          if ltb i 511
          then (let (res, w'') =
                (drivers f.disk_filesystem).read_file data_ptr size nmemb ptr f'.rest in
              (res, record f' { rest = w'' }))
          else (minus einvarg, f')))
fread-fopen heap drivers fuel text filename mode_str f w w' root i data_ptr ptr size nmemb parsed
      parts drive some_fs mode driver small free h ok has_size has_nmemb =
    (
      opened heap drivers (record f { rest = w' }) i data_ptr,
      fopen-opened heap drivers fuel text filename mode_str f w w' root i data_ptr parsed parts
          drive some_fs mode driver small free,
      fread-opened heap drivers (record f { rest = w' }) i data_ptr ptr size nmemb ok has_size
          has_nmemb h,
    )
