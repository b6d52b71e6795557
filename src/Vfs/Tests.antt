-- ===== src/Vfs/Tests.antt =====
-- The theorems of file.c on a kernel whose remaining state is a count of allocations.
use libre_win.Prelude.{true, ℕ, ◌+◌, ◌-◌, ◌≡◌, refl, arith, List, [], ◌∷◌, some}
use libre_win.Prelude.Int.{pos}
use libre_win.Memory.{Mem}
use libre_win.Str.Text.{HasString, byte_at}
use libre_win.Kheap.{Allocator}
use libre_win.Path.{pathparser_parse}
use libre_win.Path.Split.{Serves, segments, leading, in_first}
use libre_win.Path.Parse.{pathparser_parse-leading}
use libre_win.Vfs.{Driver, Files, file_mode_read, fopen, fread, free_loop, file_get_mode_by_string}
use libre_win.Vfs.Open.{fread-fopen}

abbrev counter : Allocator ℕ
counter = record { alloc = λ s size. (s + 1, s + 1); free = λ s p. some s }

abbrev counter_serves : Serves counter
counter_serves = record {
  ReadyFor = λ n s. true ≡ true;
  gives = λ n s size positive small ready. (omega arith, refl);
  frees = λ n s size positive small ready. (s + 1, refl);
}

-- It opens every file as number 100, and reads the number of bytes that is asked for.
abbrev driver : Driver ℕ
driver = record {
  resolve = λ w. (pos 0, w);
  open_file = λ parts mode w. (100, 50);
  read_file = λ data_ptr size nmemb ptr w. (pos (data_ptr + nmemb), w);
}

abbrev fresh : Files ℕ
fresh = record {
  filesystems = λ i. 0;
  file_descriptors = λ i. 0;
  descriptors = λ p. record { index = 0; filesystem = 0; private_data = 0 };
  disk_filesystem = 7;
  rest = 0;
}

-- "0:/a" at 10, and "r" at 15
abbrev bytes : List ℕ
bytes = b'0' ∷ b':' ∷ b'/' ∷ b'a' ∷ 0 ∷ b'r' ∷ []

text : Mem
unfolding byte_at
text x = byte_at bytes (x - 10)

text-HasString : HasString text 10 (b'0' ∷ b':' ∷ b'/' ∷ b'a' ∷ [])
unfolding text byte_at
text-HasString =
    (refl, omega arith, (refl, omega arith, (refl, omega arith, (refl, omega arith, refl))))

parsed :
    (w : ℕ) × (pathparser_parse counter 7 text 10 0
      ≡ some (some (record { drive_no = pos 0; first = (b'a' ∷ []) ∷ [] }), w))
unfolding segments leading in_first
parsed =
    pathparser_parse-leading counter counter_serves 7 text 10 b'0' (b'a' ∷ []) 0 refl text-HasString
      (omega arith) (omega arith) (omega arith) (omega arith)

mode : file_get_mode_by_string text 15 ≡ file_mode_read
unfolding file_get_mode_by_string text byte_at
mode = refl

free : free_loop 512 0 (λ i. 0) ≡ some 0
unfolding free_loop
free = refl

fread-fopen_example :
    (f' : Files ℕ) × (fopen counter (λ p. driver) 7 text 10 15 fresh ≡ some (pos 1, f'))
    × (fread (λ p. driver) f' 0 1 8 (pos 1) ≡ (pos 108, f'))
fread-fopen_example =
    fread-fopen counter (λ p. driver) 7 text 10 15 fresh parsed.0 50
      (record { drive_no = pos 0; first = (b'a' ∷ []) ∷ [] }) 0 100 0 1 8 parsed.1 refl refl
      (omega arith) (rw mode refl) refl (omega arith) free (omega arith) (omega arith) (omega arith)
      (omega arith)
