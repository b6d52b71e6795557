-- ===== src/Fat/Members.antt =====
-- fat16.c: fat16_read of one member from the beginning of a file.
use libre_win.Prelude.{ℕ}
use libre_win.Prelude.Int.{ℤ, pos}
use libre_win.Fat.{Fat, fat16_get_first_cluster}

-- The first cluster of the file of a descriptor.
abbrev pub first_cluster : Fat → ℕ → ℤ
first_cluster f descriptor =
    pos (fat16_get_first_cluster f.kernel.mem (f.items (f.descriptors descriptor).item).item)
