-- ===== src/Tasks/Tests.antt =====
-- The theorems of task.c on a list of the tasks 10 and 20.
use libre_win.Prelude.{ℕ, ◌≡◌, refl, ◌&&◌, not, arith, ◌==◌, if◌then◌else◌, [], ◌∷◌}
use libre_win.Tasks.{Task, Tasks, append, task_list_remove}
use libre_win.Tasks.Chain.{Links, last_task, IsNot, IsDistinct, IsTaskList, task_list_remove_links}
use libre_win.Tasks.Append.{append-IsTaskList}

abbrev task : ℕ → ℕ → Task
task next prev = record {
  page_directory = 0;
  ip = 0;
  ss = 0;
  esp = 0;
  process = 0;
  next_task = next;
  prev_task = prev;
}

abbrev two : Tasks ℕ
two = record {
  current_task = 10;
  task_tail = 20;
  task_head = 10;
  task_at = λ p. if p == 10 then task 20 0 else if p == 20 then task 0 10 else task 0 0;
  rest = 0;
}

two-IsTaskList : IsTaskList two (10 ∷ 20 ∷ [])
unfolding Links last_task IsNot IsDistinct
two-IsTaskList = record {
  links = (refl, omega arith, refl, (refl, omega arith, refl, refl));
  tail = refl;
  distinct = ((omega arith, tt), (tt, tt));
}

three-IsNot : IsNot 30 (10 ∷ 20 ∷ [])
unfolding IsNot
three-IsNot = (omega arith, (omega arith, tt))

append-IsTaskList_example : IsTaskList (append two 30) (10 ∷ 20 ∷ 30 ∷ [])
append-IsTaskList_example =
    append-IsTaskList two 30 (10 ∷ 20 ∷ []) two-IsTaskList (omega arith) three-IsNot refl refl

-- Without 10, the task 20 still points back to it.
task_list_remove_links_example :
    let k' = task_list_remove two 10 in
    ((x : ℕ) → (k'.task_at x).prev_task ≡ (two.task_at x).prev_task)
    × ((x : ℕ)
        → (k'.task_at x).next_task
          ≡ (if not (0 == 0) && (x == 0) then 20 else (two.task_at x).next_task))
    × (k'.task_head ≡ 20)
    × (k'.task_tail ≡ 20)
task_list_remove_links_example = task_list_remove_links two 10
