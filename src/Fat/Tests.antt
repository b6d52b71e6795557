-- ===== src/Fat/Tests.antt =====
-- The theorems of fat16.c on a small volume.
use libre_win.Prelude.{
  ℕ, zero, suc, ◌+◌, ◌-◌, ◌*◌, ◌<◌, ◌≡◌, ◌≢◌, refl, arith, inl, inr, ◌⊎◌, if◌then◌else◌, Bool, true,
  not, ◌&&◌, ltb, ◌==◌, some, List, [], ◌∷◌, get_or,
}
use libre_win.Prelude.Int.{pos}
use libre_win.Memory.{Mem, write}
use libre_win.Memory.Laws.{within}
use libre_win.Stream.{Drive, disk_read_sector, word_loop, select_sector}
use libre_win.Fat.{
  Fat, fat_entry_position, fat16_cluster_to_sector, fat16_get_cluster_for_offset,
  fat16_read_internal,
}
use libre_win.Fat.Directory.{fat16_get_full_relative_filename}
use libre_win.Fat.Names.{
  IsText, fat16_get_full_relative_filename_lem, fat16_get_full_relative_filename_long,
}
use libre_win.Fat.Cluster.{table_entry, is_one_of, follow, fat16_get_cluster_for_offset_lem}
use libre_win.Fat.Read.{IsReadable, file_byte}
use libre_win.Fat.Whole.{fat16_read_internal_lem}

-- Every word of sector `s` is s - 1.
abbrev drive : Drive
drive = record { word = λ lba i. lba - 1 }

-- One sector in a cluster, and one reserved sector before the table.
abbrev header : Mem
header i = if i == 13 then 1 else if i == 14 then 1 else 0

-- Two items: "KERNEL32" with the extension "DLL" at 0x1000, and "A" with the extension "B" at 0x1020.
abbrev item_bytes : List ℕ
item_bytes =
    b'K' ∷ b'E' ∷ b'R' ∷ b'N' ∷ b'E' ∷ b'L' ∷ b'3' ∷ b'2' ∷ b'D' ∷ b'L' ∷ b'L' ∷ 0x20 ∷ 0 ∷ 0 ∷ 0
    ∷ 0 ∷ 0 ∷ 0 ∷ 0 ∷ 0 ∷ 0 ∷ 0 ∷ 0 ∷ 0 ∷ 0 ∷ 0 ∷ 2 ∷ 0 ∷ 0 ∷ 0 ∷ 0 ∷ 0 ∷ b'A' ∷ 0x20 ∷ 0x20 ∷ 0x20
    ∷ 0x20 ∷ 0x20 ∷ 0x20 ∷ 0x20 ∷ b'B' ∷ 0x20 ∷ []

abbrev items_memory : Mem
items_memory x = if ltb x 0x1000 then 0 else get_or item_bytes (x - 0x1000) 0

abbrev volume : Fat
volume = record {
  kernel = record {
    mem = items_memory;
    kernel_heap = record { table = record { entries = λ i. 0; total = 4 }; saddr = 0x1000000 };
  };
  streams = λ s. 0;
  filesystem = 1;
  fs_private = 1;
  private_data = record {
    header = header;
    root_directory = record { item = 0x1000; total = 2; sector_pos = 2; ending_sector_pos = 3 };
    cluster_read_stream = 1;
    fat_read_stream = 2;
    directory_stream = 3;
  };
  directories = λ p. record { item = 0; total = 0; sector_pos = 0; ending_sector_pos = 0 };
  items = λ p. record { item = 0x1000; item_type = 1 };
  descriptors = λ p. record { item = 4; offset = 0 };
}

one_not_zero : (n : ℕ) → n ≡ 2 → n ≢ 0
one_not_zero n e z = omega arith

fat16_get_cluster_for_offset_lem_example :
    (s : ℕ → ℕ) × (fat16_get_cluster_for_offset drive volume (pos 2) 600
      ≡ some (follow drive volume.private_data 1 (pos 2), record volume { streams = s }))
fat16_get_cluster_for_offset_lem_example =
    fat16_get_cluster_for_offset_lem drive volume (pos 2) 600 (one_not_zero 2 refl)
      (λ e. omega (arith, e))

lt_or_eq : (n i : ℕ) → i < suc n → (i < n) ⊎ (i ≡ n)
lt_or_eq n i h = omega arith

-- The first cluster is 2, and the entry that is read for it is 3.
next_cluster : follow drive volume.private_data 1 (pos 2) ≡ pos 3
unfolding follow table_entry is_one_of disk_read_sector word_loop select_sector fat_entry_position
    write
next_cluster = refl

volume-IsReadable :
    (b : ℕ)
    → b * 512 < 600
    → IsReadable volume.private_data (follow drive volume.private_data b (pos 2))
unfolding follow fat16_cluster_to_sector
volume-IsReadable zero h = (refl, omega arith)
volume-IsReadable (suc zero) h = rw next_cluster (refl, omega arith)
volume-IsReadable (suc (suc b)) h = absurd (omega arith)

-- 600 bytes of a file whose first cluster is 2.
fat16_read_internal_lem_example :
    (g : Fat) × (fat16_read_internal drive 2 volume (pos 2) 0 600 0x2000 ≡ some (pos 0, g))
    × ((x : ℕ)
        → g.kernel.mem x ≡ (
            if within 0x2000 600 x
            then file_byte drive volume.private_data (pos 2) (x - 0x2000)
            else volume.kernel.mem x))
fat16_read_internal_lem_example =
    fat16_read_internal_lem drive 2 volume (pos 2) 600 0x2000 (one_not_zero 2 refl) (omega arith)
      (omega arith) (omega arith) volume-IsReadable

abbrev are_plain : ℕ → Mem → ℕ → Bool
are_plain zero m a = true
are_plain (suc n) m a = not (m (a + n) == 0x00) && (not (m (a + n) == 0x20) && are_plain n m a)

plain_below :
    (n : ℕ) (m : Mem) (a : ℕ)
    → are_plain n m a ≡ true
    → (i : ℕ) → i < n
    → (m (a + i) ≢ 0x00) × (m (a + i) ≢ 0x20)
plain_below zero m a e i h = absurd (omega arith)
plain_below (suc n) m a e i h = elim (lt_or_eq n i h) [
  | inl below ↦ plain_below n m a (ground (arith, e)) i below
  | inr last ↦ rw last (ground (arith, e))
]

-- No byte of "KERNEL32DLL" ends a text.
kernel32_plain :
    (i : ℕ) → i < 11 → (items_memory (0x1000 + i) ≢ 0x00) × (items_memory (0x1000 + i) ≢ 0x20)
kernel32_plain i h = plain_below 11 items_memory 0x1000 refl i h

fat16_get_full_relative_filename_long_example :
    (out : Mem) × (fat16_get_full_relative_filename items_memory 0x1000 108 ≡ some out)
    × ((i : ℕ) → i < 11 → out i ≡ items_memory (0x1000 + i))
    × (out 11 ≡ b'.')
    × ((i : ℕ) → i < 3 → out (12 + i) ≡ items_memory (0x1008 + i))
fat16_get_full_relative_filename_long_example =
    fat16_get_full_relative_filename_long items_memory 0x1000 kernel32_plain refl

one_character :
    (a c : ℕ)
    → items_memory a ≡ c
    → c ≢ 0x00
    → c ≢ 0x20
    → items_memory (a + 1) ≡ 0x20
    → IsText items_memory a 1
one_character a c at no_end no_space next = (λ i h. ground arith, inr next)

fat16_get_full_relative_filename_lem_example :
    (out : Mem) × (fat16_get_full_relative_filename items_memory 0x1020 108 ≡ some out)
    × ((x : ℕ)
        → out x ≡ (
            if ltb x 1
            then items_memory (0x1020 + x)
            else if x == 1
            then b'.'
            else if within 2 1 x
            then items_memory (0x1028 + (x - 2))
            else 0))
fat16_get_full_relative_filename_lem_example =
    fat16_get_full_relative_filename_lem items_memory 0x1020 108 1 1 (omega arith) (omega arith)
      (one_character 0x1020 b'A' refl (λ e. omega (arith, e)) (λ e. omega (arith, e)) refl)
      (one_character 0x1028 b'B' refl (λ e. omega (arith, e)) (λ e. omega (arith, e)) refl)
