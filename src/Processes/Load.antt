-- ===== src/Processes/Load.antt =====
-- process.c: what loading a process does to the table.
use libre_win.Prelude.{
  ℕ, ◌<◌, ◌≡◌, ◌≢◌, refl, ap, if_prop, inl, inr, ◌⊎◌, arith, true, false, sym, ◌∙◌, Bool-cases, leb,
  ◌==◌, if◌then◌else◌, Option, none, some,
}
use libre_win.Prelude.Int.{ℤ, pos}
use libre_win.Config.{eistkn, enomem, minus}
use libre_win.Memory.{Mem, write}
use libre_win.Kheap.{Allocator}
use libre_win.Vfs.Descriptors.{FirstFree, found, full, free_loop-FirstFree}
use libre_win.Processes.{
  Process, Processes, TaskPages, process_get, process_get_free_slot, start_process, fill_process,
  process_load_for_slot, process_load, is_error, process_map_memory, put_process, blank_process,
  copied_name, process_size, user_program_stack_size,
}

put_self :
    (store : ℕ → Process) (p : ℕ) (process : Process) (slot : ℕ)
    → process.id ≡ slot
    → (if p == p then process else store p).id ≡ slot
put_self store p process slot e = ground (arith, e)

module _ {S : Type 0} (heap : Allocator S) (tasks : TaskPages S) where
  -- The address of the process, that of its stack and its task, as loading asks for them in turn.
  abbrev pub given_process : Processes S → ℕ
  given_process k = (heap.alloc k.rest process_size).0

  abbrev pub given_stack : Processes S → ℕ × S
  given_stack k = heap.alloc (heap.alloc k.rest process_size).1 user_program_stack_size

  abbrev pub given_task : Processes S → ℕ
  given_task k = (tasks.task_new (given_stack k).1 (given_process k)).0

  -- What loading a process into a free slot gives: no memory, with the table as it was, where the process or its stack is
  -- not given; the process in the slot, with its number and its task, and the other slots as they were, where all are
  -- given; and a read through an error where the task is one.
  abbrev pub Loaded : Processes S → ℕ → Option (ℤ × (ℕ × Processes S)) → Type 0
  Loaded k slot none =
      (given_process k ≢ 0) × ((given_stack k).0 ≢ 0) × (is_error (given_task k) ≡ true)
  Loaded k slot (some (res, (p, k'))) =
      ((res ≡ minus enomem)
        × (k'.processes ≡ k.processes)
        × ((given_process k ≡ 0) ⊎ ((given_stack k).0 ≡ 0)))
      ⊎ ((res ≡ pos 0)
          × (p ≡ given_process k)
          × (p ≢ 0)
          × ((j : ℕ) → k'.processes j ≡ (if j == slot then p else k.processes j))
          × ((k'.process_at p).id ≡ slot)
          × ((k'.process_at p).task ≡ given_task k)
          × (is_error (given_task k) ≡ false))

  start_process-Loaded :
      (k k0 : Processes S) (slot : ℕ)
      → given_process k0 ≢ 0
      → (given_stack k0).0 ≢ 0
      → k.processes ≡ k0.processes
      → k.rest ≡ (given_stack k0).1
      → (k.process_at (given_process k0)).id ≡ slot
      → Loaded k0 slot (start_process heap tasks k (given_process k0) slot)
  unfolding start_process process_map_memory write
  start_process-Loaded k k0 slot ne stack same rest id =
      let p = given_process k0 in
      let self : (p == p) ≡ true = ground arith in
      let task : (tasks.task_new k.rest p).0 ≡ given_task k0 =
        ap (λ s. (tasks.task_new s p).0) rest in
      elim (Bool-cases (is_error (tasks.task_new k.rest p).0)) [
        | inl wrong ↦ rw (self, wrong) (ne, stack, ap is_error (sym task) ∙ wrong)
        | inr right ↦
            rw (self, right)
              (inr (
                refl,
                refl,
                ne,
                (λ j. ground (arith, ap (λ t. t j) same)),
                rw self id,
                rw self task,
                ap is_error (sym task) ∙ right,
              ))
      ]

  fill_process-Loaded :
      (k k0 : Processes S) (filename : Mem) (slot : ℕ)
      → given_process k0 ≢ 0
      → k.processes ≡ k0.processes
      → k.rest ≡ (heap.alloc k0.rest process_size).1
      → Loaded k0 slot (fill_process heap tasks k filename (given_process k0) slot)
  unfolding fill_process
  fill_process-Loaded k k0 filename slot ne same rest =
      let p = given_process k0 in
      let given : heap.alloc k.rest user_program_stack_size ≡ given_stack k0 =
        ap (λ s. heap.alloc s user_program_stack_size) rest in
      let (stack, s) = heap.alloc k.rest user_program_stack_size in
      let process : Process = record blank_process {
        filename = copied_name filename;
        stack = stack;
        id = slot;
      } in
      if_prop (Loaded k0 slot) (stack == 0) _ _
        (λ e. inl (refl, same, inr (ground (arith, ap (λ (r : ℕ × S). r.0) given, e))))
        (λ e.
          start_process-Loaded (put_process (record k { rest = s }) p process) k0 slot ne
            (ground (arith, ap (λ (r : ℕ × S). r.0) given, e)) same (ap (λ (r : ℕ × S). r.1) given)
            (put_self k.process_at p process slot refl))

  free_slot :
      (k : Processes S) (filename : Mem) (slot : ℕ)
      → slot < 12
      → k.processes slot ≡ 0
      → Loaded k slot (process_load_for_slot heap tasks k filename slot)
  unfolding process_load_for_slot process_get
  free_slot k filename slot h free =
      let within_table : leb 12 slot ≡ false = ground arith in
      rw (within_table, free)
        (if_prop (Loaded k slot) (given_process k == 0) _ _
          (λ e. inl (refl, refl, inl (ground (arith, e))))
          (λ e. fill_process-Loaded _ k filename slot (ground (arith, e)) refl refl))

  -- In a full table process_load answers -EISTKN and changes nothing. Otherwise it takes the first free slot: it answers
  -- -ENOMEM, and the table is as it was, where the memory for the process or its stack is not given; where these and a
  -- task are given, it answers 0, and the slot has the process with the slot's number and this task, and no other slot
  -- changes; and where task_new answers an error, the code reads through it.
  pub process_load_lem :
      (k : Processes S) (filename : Mem)
      → (((j : ℕ) → j < 12 → k.processes j ≢ 0)
          × (process_load heap tasks k filename ≡ some (minus eistkn, (0, k))))
        ⊎ ((slot : ℕ) × (slot < 12)
            × ((j : ℕ) → j < slot → k.processes j ≢ 0)
            × Loaded k slot (process_load heap tasks k filename))
  unfolding process_load process_get_free_slot
  process_load_lem k filename = by_slot _ (free_loop-FirstFree 12 k.processes)
    where
      by_slot :
          (found_slot : Option ℕ)
          → FirstFree k.processes 12 found_slot
          → let loaded : Option (ℤ × (ℕ × Processes S)) = (elim found_slot [
            | none ↦ some (minus eistkn, (0, k))
            | some slot ↦ process_load_for_slot heap tasks k filename slot
          ]) in
            (((j : ℕ) → j < 12 → k.processes j ≢ 0) × (loaded ≡ some (minus eistkn, (0, k))))
            ⊎ ((slot : ℕ) × (slot < 12)
                × ((j : ℕ) → j < slot → k.processes j ≢ 0)
                × Loaded k slot loaded)
      by_slot none (full used) = inl (used, refl)
      by_slot (some slot) (found h free before) =
          inr (slot, h, before, free_slot k filename slot h free)
