-- ===== src/Processes.antt =====
-- librewin/base/txos/ke/task/process.c: the table of processes. A process is known by its address, and what stands there
-- is the store `process_at`. The heap, the tasks and the pages are interfaces over the rest of the kernel. `none` is
-- given where the code reads a pointer that it never set, or one that is a negative status.
pub mod Load
mod Tests
use libre_win.Prelude.{
  ℕ, ◌+◌, ◌-◌, ◌*◌, ◌^◌, Bool, not, leb, ltb, ◌==◌, if◌then◌else◌, Option, none, some,
}
use libre_win.Prelude.Int.{ℤ, pos}
use libre_win.Config.{max_path, max_processes, eistkn, enomem, minus, is_neg}
use libre_win.Memory.{Mem, write}
use libre_win.Kheap.{Allocator}
use libre_win.Path.{and_then}
use libre_win.Str.{strncpy}
use libre_win.Vfs.{free_loop}

-- `filename` is the bytes of that field. `allocations` is never used.
pub record Process : Type 0 where
  pub id : ℕ
  pub filename : Mem
  pub task : ℕ
  pub ptr : ℕ
  pub stack : ℕ
  pub size : ℕ

pub record Processes (S : Type 0) : Type 0 where
  pub processes : Mem
  pub process_at : ℕ → Process
  pub rest : S

-- task_new on the address of a process, which answers a pointer or a negative status by its 32 bits, and the mapping of
-- a process's pages, whose status is not looked at.
pub record TaskPages (S : Type 0) : Type 0 where
  pub task_new : S → ℕ → ℕ × S
  pub map_to : S → Process → S

-- ISERR of what task_new answers.
abbrev pub is_error : ℕ → Bool
is_error task = leb (2 ^ 31) task

abbrev pub blank_process : Process
blank_process = record { id = 0; filename = λ i. 0; task = 0; ptr = 0; stack = 0; size = 0 }

-- strncpy of a name to a field of zeros: the field at 0, and the name behind it.
abbrev pub copied_name : Mem → Mem
copied_name name =
    strncpy (λ x. if ltb x max_path then 0 else name (x - max_path)) 0 max_path max_path

-- The size of `struct process`: its allocations have 4096 bytes.
abbrev pub process_size : ℕ
process_size = 112 + 4 + 4 * 1024 + 3 * 4

abbrev pub user_program_stack_size : ℕ
user_program_stack_size = 1024 * 16

-- The program is not read: the status is 1, which is no error.
abbrev pub process_load_data : ℤ
process_load_data = pos 1

module _ {S : Type 0} where
  -- The address, 0 for NULL.
  unfoldable pub process_get : Processes S → ℤ → ℕ
  process_get k (pos process_id) =
      if leb max_processes process_id then 0 else k.processes process_id
  process_get k _ = 0

  -- The slot, or `none` for -EISTKN.
  unfoldable pub process_get_free_slot : Processes S → Option ℕ
  process_get_free_slot k = free_loop max_processes 0 k.processes

  abbrev pub put_process : Processes S → ℕ → Process → Processes S
  put_process k p process = record k {
    process_at = λ q. if q == p then process else k.process_at q;
  }

  module _ (heap : Allocator S) (tasks : TaskPages S) where
    -- The mapping answers 0. It reads the directory of the task.
    unfoldable pub process_map_memory : Processes S → ℕ → Option (ℤ × Processes S)
    process_map_memory k process =
        if is_error (k.process_at process).task
        then none
        else some (pos 0, record k { rest = tasks.map_to k.rest (k.process_at process) })

    abbrev pub put_slot : ℕ → ℕ → ℤ × Processes S → ℤ × (ℕ × Processes S)
    put_slot process slot (res, k) =
        (res, (process, record k { processes = write k.processes slot process }))

    -- The task of the process, its pages, and its place in the table. The status, the process and the state.
    unfoldable pub start_process : Processes S → ℕ → ℕ → Option (ℤ × (ℕ × Processes S))
    unfolding process_map_memory
    start_process k process slot =
        let (task, s) = tasks.task_new k.rest process in
        let k' =
          put_process (record k { rest = s }) process
            (record (k.process_at process) { task = task }) in
        and_then (process_map_memory k' process)
          (λ (r : ℤ × Processes S). some (put_slot process slot r))

    -- What follows the allocation of the process, which is not 0.
    unfoldable pub fill_process : Processes S → Mem → ℕ → ℕ → Option (ℤ × (ℕ × Processes S))
    unfolding start_process
    fill_process k filename process slot =
        let (program_stack_ptr, s) = heap.alloc k.rest user_program_stack_size in
        let k' = record k { rest = s } in
        let filled = put_process k' process (record blank_process {
          filename = copied_name filename;
          stack = program_stack_ptr;
          id = slot;
        }) in
        if is_neg process_load_data
        then some (process_load_data, (0, put_process k process blank_process))
        else if program_stack_ptr == 0
        then some (minus enomem, (0, put_process k' process blank_process))
        else start_process filled process slot

    -- The process is 0 where none is given.
    unfoldable pub process_load_for_slot : Processes S → Mem → ℕ → Option (ℤ × (ℕ × Processes S))
    unfolding fill_process
    process_load_for_slot k filename slot =
        let (process, s) = heap.alloc k.rest process_size in
        let k' = record k { rest = s } in
        if not (process_get k (pos slot) == 0)
        then none
        else if process == 0
        then some (minus enomem, (0, k'))
        else fill_process k' filename process slot

    unfoldable pub process_load : Processes S → Mem → Option (ℤ × (ℕ × Processes S))
    unfolding process_load_for_slot
    process_load k filename = elim (process_get_free_slot k) [
      | none ↦ some (minus eistkn, (0, k))
      | some slot ↦ process_load_for_slot k filename slot
    ]
