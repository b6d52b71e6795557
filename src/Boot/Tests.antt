-- ===== src/Boot/Tests.antt =====
-- The theorems of kernel_main: on the heap that kheap_init makes of a memory of zeros, and on a boot.ini with the two
-- lines "[settings]" and "res=8x6".
use libre_win.Prelude.{
  ℕ, ◌+◌, ◌-◌, ◌%◌, ◌^◌, ◌<◌, ◌≡◌, refl, inl, arith, ltb, ◌==◌, if◌then◌else◌, some, List, [], ◌∷◌,
  ◌++◌,
}
use libre_win.Memory.{Mem, write}
use libre_win.Str.Text.{byte_at}
use libre_win.Heap.{heap_get_entry_type}
use libre_win.Heap.Search.{IsFree}
use libre_win.Kheap.{Kernel, kheap_init}
use libre_win.Kheap.Laws.{kheap_init-IsHeap}
use libre_win.Paging.Walk.{IsDirectory, page_entry}
use libre_win.Debug.{decimal_digits, digit_loop, decimal_digit}
use libre_win.Settings.Search.{first_occurrence}
use libre_win.Boot.{
  set_up_paging, Asked, kernel_main, start_up, buffer_size, print_cpu_model, terminal_initialize,
  vdi_set_screen_res, vdi_init, kmalloc_buffer, load_psf_font, jump_usermode,
}
use libre_win.Boot.Memory.{set_up_paging_lem}
use libre_win.Boot.Resolution.{section_text, key_text, kernel_main-HasResolution}

abbrev blank : Kernel
blank = record {
  mem = λ x. 0;
  kernel_heap = record { table = record { entries = λ i. 0; total = 0 }; saddr = 0 };
}

-- The kernel after kheap_init.
booted : Kernel
booted = (kheap_init blank).1

booted-IsFree : IsFree booted.kernel_heap.table.entries 0 (0 + 1027)
unfolding booted heap_get_entry_type
booted-IsFree j p q =
    let (made, at, total, v) = kheap_init-IsHeap blank in
    rw (v.rest j (omega (arith, total)) refl) refl

set_up_paging_lem_example :
    let p = set_up_paging booted in
    (p.switched.current_directory ≡ p.switched.loaded)
    × IsDirectory p.kernel.mem p.switched.loaded
    × (p.ptr % 4096 ≡ 0)
    × ((virt : ℕ)
        → virt % 4096 ≡ 0
        → virt < 2 ^ 32
        → page_entry p.kernel.mem p.switched.loaded virt
          ≡ (if virt == 0x1000 then p.ptr else virt) + 7)
unfolding booted
set_up_paging_lem_example =
    set_up_paging_lem booted 0 (kheap_init-IsHeap blank).3
      (omega (arith, (kheap_init-IsHeap blank).2)) booted-IsFree

abbrev boot_ini : List ℕ
boot_ini = section_text ++ 10 ∷ (key_text ++ b'8' ∷ b'x' ∷ b'6' ∷ [])

abbrev memory : Mem
unfolding byte_at
memory x =
    if ltb x 100
    then byte_at boot_ini x
    else if ltb x 200
    then byte_at section_text (x - 100)
    else byte_at key_text (x - 200)

abbrev asked : Asked
unfolding byte_at
asked = record {
  fd = 1;
  mem = memory;
  buf = 0;
  section = 100;
  key = 200;
  double_buffer = λ size. 0x2000000;
}

kernel_main-HasResolution_example :
    kernel_main 40 asked
    ≡ some (
        start_up
        ++ (terminal_initialize
            ∷ vdi_set_screen_res 8 6
            ∷ vdi_init
            ∷ kmalloc_buffer (buffer_size 8 6)
            ∷ print_cpu_model
            ∷ load_psf_font
            ∷ jump_usermode
            ∷ []))
unfolding first_occurrence decimal_digits digit_loop decimal_digit memory asked byte_at write
kernel_main-HasResolution_example =
    kernel_main-HasResolution 40 asked 8 6 0 11 boot_ini (omega arith) (omega arith) (omega arith)
      (omega arith) (omega arith) (omega arith) (omega arith) refl refl
      ((refl, refl, refl), refl, (refl, refl, refl), inl refl) (omega arith) (omega arith)
      (omega arith) (omega arith)
