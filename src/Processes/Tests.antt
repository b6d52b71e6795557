-- ===== src/Processes/Tests.antt =====
-- Loading a process where the first two slots are taken.
use libre_win.Prelude.{ℕ, ◌+◌, ◌<◌, ◌≡◌, ◌≢◌, ◌⊎◌, some, ltb, if◌then◌else◌}
use libre_win.Config.{eistkn, minus}
use libre_win.Memory.{Mem}
use libre_win.Kheap.{Allocator}
use libre_win.Processes.{Processes, TaskPages, blank_process, process_load}
use libre_win.Processes.Load.{Loaded, process_load_lem}

-- The state is the next free address.
abbrev counter : Allocator ℕ
counter = record { alloc = λ s n. (s, s + n); free = λ s p. some s }

abbrev one_task : TaskPages ℕ
one_task = record { task_new = λ s p. (0x800000, s); map_to = λ s process. s }

abbrev table : Processes ℕ
table = record {
  processes = λ i. if ltb i 2 then 1 else 0;
  process_at = λ p. blank_process;
  rest = 0x1000;
}

abbrev name : Mem
name x = if ltb x 3 then b'a' else 0

process_load_lem_example :
    (((j : ℕ) → j < 12 → table.processes j ≢ 0)
      × (process_load counter one_task table name ≡ some (minus eistkn, (0, table))))
    ⊎ ((slot : ℕ) × (slot < 12)
        × ((j : ℕ) → j < slot → table.processes j ≢ 0)
        × Loaded counter one_task table slot (process_load counter one_task table name))
process_load_lem_example = process_load_lem counter one_task table name
