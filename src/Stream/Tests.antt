-- ===== src/Stream/Tests.antt =====
-- The theorems of streamer.c on a drive whose word is the number of its sector and its index, a byte each.
use libre_win.Prelude.{ℕ, ◌+◌, ◌-◌, ◌*◌, ◌≡◌, refl, arith, inl, if◌then◌else◌, none, some}
use libre_win.Memory.{Mem}
use libre_win.Memory.Laws.{within}
use libre_win.Stream.{Drive, diskstreamer_read}
use libre_win.Stream.Sector.{disk_byte}
use libre_win.Stream.Read.{diskstreamer_read_lem, diskstreamer_read_past}

abbrev drive : Drive
drive = record { word = λ lba i. lba * 256 + i }

abbrev blank : Mem
blank x = 0

-- 700 bytes from the start of sector 2 on.
diskstreamer_read_lem_example :
    (m' : Mem) × (diskstreamer_read 2 drive 1024 blank 4096 700 ≡ some (1724, m'))
    × ((x : ℕ) → m' x ≡ (if within 4096 700 x then disk_byte drive (1024 + (x - 4096)) else 0))
diskstreamer_read_lem_example =
    diskstreamer_read_lem drive 1024 blank 4096 700 (omega arith) (inl refl)

-- 20 bytes from byte 500 of a sector on.
diskstreamer_read_past_example : diskstreamer_read 3 drive 1012 blank 4096 20 ≡ none
diskstreamer_read_past_example =
    diskstreamer_read_past 3 drive 1012 blank 4096 20 (omega arith) (omega arith) (omega arith)
