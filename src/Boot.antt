-- ===== src/Boot.antt =====
-- librewin/base/txos/init/kernel.c: kernel_main, with paging_switch of ke/memory/paging/paging.c. The set-up of paging
-- works on the kernel's heap and memory; the settings are read from the text of boot.ini in memory.
pub mod Memory
pub mod Resolution
mod Tests
use libre_win.Prelude.{
  ℕ, zero, suc, ◌+◌, ◌-◌, ◌*◌, ◌/◌, ◌%◌, ◌^◌, bit_or, Bool, true, false, not, ◌==◌, leb,
  if◌then◌else◌, Option, none, some, List, [], ◌∷◌, ◌++◌,
}
use libre_win.Prelude.Int.{ℤ}
use libre_win.Config.{u32}
use libre_win.Memory.{Mem, write}
use libre_win.Memory.Words.{load32}
use libre_win.Kheap.{Kernel, kzalloc}
use libre_win.Path.{and_then}
use libre_win.Settings.{strstr, fetchwh}
use libre_win.Paging.{paging_set}
use libre_win.Paging.Chunk.{paging_new_4gb, paging_4gb_chunk_get_directory, with_mem}

abbrev pub option_cases : {A B : Type 0} → Option A → B → (A → B) → B
option_cases none b f = b
option_cases (some a) b f = f a

-- The directory that the processor has, and the one that the kernel remembers.
pub record Switched : Type 0 where
  pub loaded : ℕ
  pub current_directory : ℕ

unfoldable pub paging_switch : ℕ → Switched
paging_switch directory = record { loaded = directory; current_directory = directory }

-- Writable, present and open to all.
abbrev pub all_access : ℕ
all_access = 7

-- What the set-up of paging leaves: the chunk, what the processor has, the page that was allocated and the kernel.
pub record PagingSetUp : Type 0 where
  pub kernel_chunk : ℕ
  pub switched : Switched
  pub ptr : ℕ
  pub kernel : Kernel

-- The status of paging_set is not looked at.
unfoldable pub set_up_paging : Kernel → PagingSetUp
unfolding paging_switch
set_up_paging k =
    let (kernel_chunk, k') = paging_new_4gb k all_access in
    let switched = paging_switch (paging_4gb_chunk_get_directory k'.mem kernel_chunk) in
    let (ptr, k'') = kzalloc k' 4096 in
    let directory = paging_4gb_chunk_get_directory k''.mem kernel_chunk in
    let word = bit_or (bit_or (bit_or ptr 4) 1) 2 in
    let (status, m) = paging_set k''.mem directory 0x1000 word in
    record { kernel_chunk = kernel_chunk; switched = switched; ptr = ptr; kernel = with_mem k'' m }

-- A write with paging on: the byte goes to the frame that the directory names.
unfoldable pub write_paged : Mem → ℕ → ℕ → ℕ → Mem
write_paged m directory virt value =
    let table = load32 m (directory + 4 * (virt / 2 ^ 22)) / 4096 * 4096 in
    let frame = load32 m (table + 4 * (virt / 2 ^ 12 % 1024)) / 4096 * 4096 in
    write m (frame + virt % 4096) value

-- `ptr2[0] = 'A'; ptr2[1] = 'B';`
unfoldable pub paging_test : PagingSetUp → Mem
unfolding write_paged
paging_test p =
    let directory = p.switched.loaded in
    write_paged (write_paged p.kernel.mem directory 0x1000 b'A') directory 0x1001 b'B'

-- Which of its messages the search for the resolution logs.
pub data Found : Type 0 where
  extracted failed_to_parse no_resolution no_settings : Found

-- `w` and `h`, and the message.
pub record Settings : Type 0 where
  pub found : Found
  pub width : ℕ
  pub height : ℕ

abbrev pub settings_of : Found → ℕ → ℕ → Settings
settings_of f w h = record { found = f; width = w; height = h }

-- The texts "[settings]" and "res=" stand at `section` and `key`. fetchwh writes `w` and `h` also where it fails.
unfoldable pub read_settings : ℕ → Mem → ℕ → ℕ → ℕ → ℕ → ℕ → Option Settings
read_settings fuel m section key buf w h =
    let kept = λ (f : Found). some (settings_of f w h) in
    let parsed = λ (res_start : ℕ). and_then (fetchwh fuel m (res_start + 4)) (λ (r : ℕ × ℕ × ℕ).
      some (settings_of (if r.0 == 2 then extracted else failed_to_parse) r.1 r.2)) in
    let resolution = λ (settings_section : ℕ).
      and_then (strstr fuel m settings_section key)
        (λ (res_start : Option ℕ). option_cases res_start (kept no_resolution) parsed) in
    and_then (strstr fuel m buf section)
      (λ (settings_section : Option ℕ). option_cases settings_section (kept no_settings) resolution)

-- What kernel_main calls, in order, but for the log. `gdt_load` and `tss_load` stand for the table and for the task state
-- that are made and then loaded, `set_up_paging_and_test` for set_up_paging, paging_test and what is between them.
pub data Call : Type 0 where
  dbg_init first_time_boot_init gdt_load kheap_init fs_init idt_init tss_load : Call
  set_up_paging_and_test disk_init enable_interrupts : Call
  print_starting print_not_found print_cpu_model : Call
  terminal_initialize vdi_init load_psf_font jump_usermode : Call
  vdi_set_screen_res : ℕ → ℕ → Call
  kmalloc_buffer : ℕ → Call

-- What kernel_main asks: the descriptor of boot.ini, the memory after it was read, and the double buffer.
pub record Asked : Type 0 where
  pub fd : ℕ
  pub mem : Mem
  pub buf : ℕ
  pub section : ℕ
  pub key : ℕ
  pub double_buffer : ℕ → ℕ

abbrev pub start_up : List Call
start_up =
    dbg_init ∷ first_time_boot_init ∷ print_starting ∷ gdt_load ∷ kheap_init ∷ fs_init ∷ idt_init
    ∷ tss_load ∷ set_up_paging_and_test ∷ disk_init ∷ enable_interrupts ∷ []

-- The bytes of the double buffer, where the product is no overflow.
abbrev pub buffer_size : ℕ → ℕ → ℕ
buffer_size w h = w * h * 32 / 8

unfoldable pub start_screen : Asked → ℕ → ℕ → List Call
start_screen q w h =
    let begun =
      terminal_initialize
      ∷ vdi_set_screen_res w h
      ∷ vdi_init
      ∷ kmalloc_buffer (buffer_size w h)
      ∷ [] in
    if q.double_buffer (buffer_size w h) == 0
    then begun
    else begun ++ (print_cpu_model ∷ load_psf_font ∷ jump_usermode ∷ [])

-- `none` is given where the size of the double buffer overflows an `int`. `buf[500] = 0x00` ends the text. The default resolution is 640 times 480.
unfoldable pub kernel_main : ℕ → Asked → Option (List Call)
unfolding start_screen
kernel_main fuel q =
    let settings = read_settings fuel (write q.mem (q.buf + 500) 0) q.section q.key q.buf 640 480 in
    if q.fd == 0
    then some (start_up ++ (print_not_found ∷ []))
    else and_then settings (λ (s : Settings).
      if leb (2 ^ 31) (s.width * s.height * 32)
      then none
      else some (start_up ++ start_screen q s.width s.height))
