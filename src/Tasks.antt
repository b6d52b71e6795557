-- ===== src/Tasks.antt =====
-- librewin/base/txos/ke/task/task.c: the list of tasks. A task is known by its address, and what stands there is
-- the store `task_at`. The heap and the page directories are interfaces over the rest of the kernel.
pub mod Chain
pub mod Append
mod Tests
use libre_win.Prelude.{ℕ, ◌+◌, Bool, true, false, not, ◌==◌, if◌then◌else◌, Option, none, some}
use libre_win.Prelude.Int.{ℤ, pos}
use libre_win.Config.{eio, enomem, minus, is_neg}
use libre_win.Kheap.{Allocator}
use libre_win.Path.{and_then}

-- The registers that task_init does not set are 0.
pub record Task : Type 0 where
  pub page_directory : ℕ
  pub ip : ℕ
  pub ss : ℕ
  pub esp : ℕ
  pub process : ℕ
  pub next_task : ℕ
  pub prev_task : ℕ

pub record Tasks (S : Type 0) : Type 0 where
  pub current_task : ℕ
  pub task_tail : ℕ
  pub task_head : ℕ
  pub task_at : ℕ → Task
  pub rest : S

-- paging_new_4gb and paging_free_4gb, on the address of a chunk.
pub record Pages (S : Type 0) : Type 0 where
  pub new_4gb : S → ℕ × S
  pub free_4gb : S → ℕ → Option S

module _ {S : Type 0} where
  pub put_task : Tasks S → ℕ → Task → Tasks S
  put_task k p t = record k { task_at = λ q. if q == p then t else k.task_at q }

  -- `next` of the task at an address is set.
  pub set_next : Tasks S → ℕ → ℕ → Tasks S
  unfolding put_task
  set_next k p next = put_task k p (record (k.task_at p) { next_task = next })

  pub set_prev : Tasks S → ℕ → ℕ → Tasks S
  unfolding put_task
  set_prev k p prev = put_task k p (record (k.task_at p) { prev_task = prev })

  pub task_get_next : Tasks S → ℕ
  task_get_next k =
      let next = (k.task_at k.current_task).next_task in if next == 0 then k.task_head else next

  -- The four tests of task_list_remove, in order.
  pub unlink : Tasks S → ℕ → Tasks S
  unfolding set_next
  unlink k task =
      let t = k.task_at task in if t.prev_task == 0 then k else set_next k t.prev_task t.next_task

  pub leave_head : Tasks S → ℕ → Tasks S
  leave_head k task =
      if task == k.task_head then record k { task_head = (k.task_at task).next_task } else k

  pub leave_tail : Tasks S → ℕ → Tasks S
  leave_tail k task =
      if task == k.task_tail then record k { task_tail = (k.task_at task).prev_task } else k

  pub leave_current : Tasks S → ℕ → Tasks S
  unfolding task_get_next
  leave_current k task =
      if task == k.current_task then record k { current_task = task_get_next k } else k

  pub task_list_remove : Tasks S → ℕ → Tasks S
  unfolding unlink leave_head leave_tail leave_current
  task_list_remove k task = leave_current (leave_tail (leave_head (unlink k task) task) task) task

  -- The task goes to the end of the list.
  pub append : Tasks S → ℕ → Tasks S
  unfolding set_next set_prev
  append k task =
      if k.task_head == 0
      then record k { task_head = task; task_tail = task }
      else (let k' = set_prev (set_next k k.task_tail task) task k.task_tail in
          record k' { task_tail = task })

  module _ (heap : Allocator S) (pages : Pages S) where
    -- `none` where the chunk or the task cannot be freed.
    pub task_free : Tasks S → ℕ → Option (Tasks S)
    unfolding task_list_remove
    task_free k task = and_then (pages.free_4gb k.rest (k.task_at task).page_directory) (λ s.
        let k' = task_list_remove (record k { rest = s }) task in
        and_then (heap.free k'.rest task) (λ s'. some (record k' { rest = s' })))

    -- LIBREWIN_PROGRAM_VIRTUAL_ADDRESS, USER_DATA_SEGMENT and LIBREWIN_PROGRAM_VIRTUAL_STACK_ADDRESS_START
    pub task_init : Tasks S → ℕ → ℕ → ℤ × Tasks S
    unfolding put_task
    task_init k task process =
        let (directory, s) = pages.new_4gb k.rest in
        let blank : Task = record {
          page_directory = directory;
          ip = 0;
          ss = 0;
          esp = 0;
          process = 0;
          next_task = 0;
          prev_task = 0;
        } in
        let k' = record k { rest = s } in
        if directory == 0 then (minus eio, put_task k' task blank) else (
          pos 0,
          put_task k' task
              (record blank { ip = 0x400000; ss = 0x23; esp = 0x3FF000; process = process }),
        )

    -- The size of `struct task` is 64. The address of the task, or the status of a failure, after task_free.
    pub task_new : Tasks S → ℕ → Option (ℤ × Tasks S)
    unfolding task_init append task_free
    task_new k process =
        let (task, s) = heap.alloc k.rest 64 in
        let k' = record k { rest = s } in
        if task == 0
        then and_then (task_free k' task) (λ freed. some (minus enomem, freed))
        else (let (res, ready) = task_init k' task process in
            if is_neg res
            then and_then (task_free ready task) (λ freed. some (res, freed))
            else some (pos task, append ready task))
