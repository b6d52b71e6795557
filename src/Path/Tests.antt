-- ===== src/Path/Tests.antt =====
-- The theorem of pparser.c on a path, with the heap that kheap_init makes of a memory of zeros.
use libre_win.Prelude.{ℕ, ◌+◌, ◌-◌, ◌≡◌, refl, arith, List, [], ◌∷◌, some}
use libre_win.Prelude.Int.{pos}
use libre_win.Memory.{Mem}
use libre_win.Str.Text.{HasString, byte_at}
use libre_win.Heap.{heap_get_entry_type}
use libre_win.Heap.Search.{IsFree}
use libre_win.Kheap.{Kernel, kheap_init, kernel_allocator}
use libre_win.Kheap.Laws.{kheap_init-IsHeap}
use libre_win.Path.Served.{HasFreeBlocks, kernel_serves}
use libre_win.Path.{pathparser_parse}
use libre_win.Path.Split.{segments, leading, in_first}
use libre_win.Path.Parse.{pathparser_parse-leading}

abbrev blank : Kernel
blank = record {
  mem = λ x. 0;
  kernel_heap = record { table = record { entries = λ i. 0; total = 0 }; saddr = 0 };
}

-- The kernel after kheap_init.
booted : Kernel
booted = (kheap_init blank).1

booted-IsFree : IsFree booted.kernel_heap.table.entries 0 (0 + 8)
unfolding booted heap_get_entry_type
booted-IsFree j p q =
    let (made, at, total, v) = kheap_init-IsHeap blank in
    rw (v.rest j (omega (arith, total)) refl) refl

booted-HasFreeBlocks : HasFreeBlocks 8 booted
unfolding booted
booted-HasFreeBlocks =
    let (made, at, total, v) = kheap_init-IsHeap blank in
    ([], 0, v, omega (arith, total), booted-IsFree)

-- "0:/a/b" at 10
abbrev path : List ℕ
path = b'0' ∷ b':' ∷ b'/' ∷ b'a' ∷ b'/' ∷ b'b' ∷ []

text : Mem
unfolding byte_at
text x = byte_at path (x - 10)

text-HasString : HasString text 10 path
unfolding text byte_at
text-HasString = (
  refl,
  omega arith,
  (
    refl,
    omega arith,
    (refl, omega arith, (refl, omega arith, (refl, omega arith, (refl, omega arith, refl)))),
  ),
)

pathparser_parse-leading_example :
    (k : Kernel) × (pathparser_parse kernel_allocator 7 text 10 booted
      ≡ some (some (record { drive_no = pos 0; first = (b'a' ∷ []) ∷ (b'b' ∷ []) ∷ [] }), k))
unfolding segments leading in_first
pathparser_parse-leading_example =
    pathparser_parse-leading kernel_allocator kernel_serves 7 text 10 b'0' (b'a' ∷ b'/' ∷ b'b' ∷ [])
      booted booted-HasFreeBlocks text-HasString (omega arith) (omega arith) (omega arith)
      (omega arith)
