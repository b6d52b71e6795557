-- ===== src/Vfs/Descriptors.antt =====
-- file.c: the search for a free entry, and the filesystem of the disk after fs_init.
use libre_win.Prelude.{
  ℕ, zero, suc, ◌+◌, ◌≤◌, ◌<◌, ◌≡◌, ◌≢◌, refl, Bool, true, false, arith, ◌==◌, if◌then◌else◌,
  Option, none, some, Bool-cases, inl, inr,
}
use libre_win.Prelude.Int.{ℤ}
use libre_win.Memory.{Mem, write}
use libre_win.Vfs.{
  Driver, Files, free_loop, fs_init, fs_resolve, disk_init, resolve_loop, is_zero, fs_load,
  fs_static_load, fs_insert_filesystem, fs_get_free_filesystem,
}

-- What a search of a table of `total` entries finds: the first null pointer, or none in a full table.
pub data FirstFree (table : Mem) (total : ℕ) : Option ℕ → Type 0 where
  found :
      {i : ℕ}
      → i < total
      → table i ≡ 0
      → ((j : ℕ) → j < i → table j ≢ 0)
      → FirstFree table total (some i)
  full : ((j : ℕ) → j < total → table j ≢ 0) → FirstFree table total none

free_loop-from :
    (left i total : ℕ) (table : Mem)
    → i + left ≡ total
    → ((j : ℕ) → j < i → table j ≢ 0)
    → FirstFree table total (free_loop left i table)
unfolding free_loop
free_loop-from zero i total table e used = full (λ j h. used j (omega arith))
free_loop-from (suc left) i total table e used = elim (Bool-cases (table i == 0)) [
  | inl free ↦ rw free (found (omega arith) (ground arith) used)
  | inr taken ↦ rw taken (
      free_loop-from left (i + 1) total table (omega arith) (λ j h. elim (Bool-cases (j == i)) [
        | inl same ↦ ground arith
        | inr other ↦ used j (ground arith)
      ]))
]

-- The search of a table finds its first null pointer, and answers none only where there is none.
pub free_loop-FirstFree :
    (total : ℕ) (table : Mem) → FirstFree table total (free_loop total 0 table)
free_loop-FirstFree total table =
    free_loop-from total 0 total table (omega arith) (λ j h. absurd (omega arith))

abbrev first_pair : {W : Type 0} → ℕ → W → ℕ × W
first_pair fs w = (fs, w)

-- The filesystem `fs`, or the null pointer, by the answer of its driver.
abbrev first_answer : {W : Type 0} → ℕ → ℤ × W → ℕ × W
first_answer fs (res, w) = (if is_zero res then fs else 0, w)

module _ {W : Type 0} (drivers : ℕ → Driver W) (table : Mem) where
  resolve_loop_empty :
      (left i : ℕ) (w : W)
      → ((j : ℕ) → i ≤ j → table j ≡ 0)
      → resolve_loop drivers left i table w ≡ (0, w)
  unfolding resolve_loop
  resolve_loop_empty zero i w none_left = refl
  resolve_loop_empty (suc left) i w none_left =
      let null : (table i == 0) ≡ true = ground (arith, none_left i) in
      rw null (resolve_loop_empty left (i + 1) w (λ j h. none_left j (omega arith)))

  resolve_loop_one :
      (left fs : ℕ) (w : W)
      → table 0 ≡ fs
      → fs ≢ 0
      → ((j : ℕ) → 1 ≤ j → table j ≡ 0)
      → resolve_loop drivers (suc left) 0 table w ≡ first_answer fs ((drivers fs).resolve w)
  unfolding resolve_loop
  resolve_loop_one left fs w e ne none_left =
      let used : (fs == 0) ≡ false = ground (arith, ne) in
      rw (e, used, resolve_loop_empty left 1 ((drivers fs).resolve w).1 none_left)
        (branch fs 0 ((drivers fs).resolve w).1 (is_zero ((drivers fs).resolve w).0))
    where
      branch :
          {V : Type 0} (a b : ℕ) (x : V) (t : Bool)
          → (if t then (a, x) else (b, x)) ≡ first_pair (if t then a else b) x
      branch a b x true = refl
      branch a b x false = refl

write_here : (v : ℕ) → write (λ i. 0) 0 v 0 ≡ v
unfolding write
write_here v = ground arith

write_apart : (v j : ℕ) → 1 ≤ j → write (λ i. 0) 0 v j ≡ 0
unfolding write
write_apart v j h = ground arith

-- With a driver that is not null, after fs_init the FAT16 filesystem is the only one: DiskInit gives it to the disk
-- if its resolve answers 0, and none otherwise, and asks no other.
pub disk_init-fs_init :
    {W : Type 0} (drivers : ℕ → Driver W) (fat16 : ℕ) (f : Files W)
    → fat16 ≢ 0
    → let (res, w) = (drivers fat16).resolve f.rest in
      (f' : Files W) × (fs_init fat16 f ≡ some f')
      × ((disk_init drivers f').disk_filesystem ≡ (if is_zero res then fat16 else 0))
      × ((disk_init drivers f').rest ≡ w)
unfolding fs_init fs_load fs_static_load fs_insert_filesystem fs_get_free_filesystem free_loop
    disk_init fs_resolve
disk_init-fs_init drivers fat16 f ne =
    let table = write (λ i. 0) 0 fat16 in
    let one =
      resolve_loop_one drivers table 11 fat16 f.rest (write_here fat16) ne (write_apart fat16) in
    (record f { file_descriptors = λ i. 0; filesystems = table }, refl, rw one refl, rw one refl)
