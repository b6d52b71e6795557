-- ===== src/Tasks/Chain.antt =====
-- task.c: the tasks as a doubly linked list, what appending does to it, and what removing does not.
use libre_win.Prelude.{
  ℕ, ◌≡◌, ◌≢◌, refl, ◌&&◌, not, arith, ◌==◌, if◌then◌else◌, List, [], ◌∷◌, ◌++◌, ap, Bool-cases,
  inl, inr, sym, ◌∙◌, if_prop,
}
use libre_win.Tasks.{
  Task, Tasks, put_task, set_next, task_list_remove, unlink, leave_head, leave_tail, leave_current,
}

-- From `p` on the tasks are `qs`, by `next`, and each points back to the one before; `prev` is before the first.
unfoldable pub Links : (ℕ → Task) → ℕ → ℕ → List ℕ → Type 0
Links task_at prev p [] = p ≡ 0
Links task_at prev p (q ∷ qs) =
    (p ≡ q) × (q ≢ 0) × ((task_at q).prev_task ≡ prev) × Links task_at q (task_at q).next_task qs

unfoldable pub last_task : ℕ → List ℕ → ℕ
last_task prev [] = prev
last_task prev (q ∷ qs) = last_task q qs

unfoldable pub IsNot : ℕ → List ℕ → Type 0
IsNot t [] = Unit
IsNot t (q ∷ qs) = (t ≢ q) × IsNot t qs

unfoldable pub IsDistinct : List ℕ → Type 0
unfolding IsNot
IsDistinct [] = Unit
IsDistinct (q ∷ qs) = IsNot q qs × IsDistinct qs

-- The list of tasks, from the head to the tail.
pub record IsTaskList {S : Type 0} (k : Tasks S) (qs : List ℕ) : Type 0 where
  pub links : Links k.task_at 0 k.task_head qs
  pub tail : k.task_tail ≡ last_task 0 qs
  pub distinct : IsDistinct qs

-- A list whose first task is before `task` in none of its places ends elsewhere.
pub last-IsNot : (t q : ℕ) (qs : List ℕ) → t ≢ q → IsNot t qs → t ≢ last_task q qs
unfolding last_task IsNot
last-IsNot t q [] ne h = ne
last-IsNot t q (r ∷ qs) ne h = last-IsNot t r qs h.0 h.1

module _ (old new : ℕ → Task) (task : ℕ) (not_null : task ≢ 0)
    (prev_kept : (x : ℕ) → task ≢ x → (new x).prev_task ≡ (old x).prev_task)
    (no_next : (new task).next_task ≡ 0) where
  -- `q` is the task that the list has reached, and `t` its end, to which the new task is linked.
  pub Links-append :
      (t prev p q : ℕ) (qs : List ℕ)
      → ((x : ℕ) → t ≢ x → task ≢ x → (new x).next_task ≡ (old x).next_task)
      → (new t).next_task ≡ task
      → (new task).prev_task ≡ t
      → t ≡ last_task q qs
      → IsDistinct (q ∷ qs)
      → IsNot task (q ∷ qs)
      → Links old prev p (q ∷ qs)
      → Links new prev p (q ∷ (qs ++ (task ∷ [])))
  unfolding Links last_task IsDistinct IsNot
  Links-append t prev p q [] next_kept to_task back end distinct apart (e, ne, b, links) = (
    e,
    ne,
    prev_kept q apart.0 ∙ b,
    (ap (λ x. (new x).next_task) (sym end) ∙ to_task, not_null, back ∙ end, no_next),
  )
  Links-append t prev p q (r ∷ qs) next_kept to_task back end distinct apart (e, ne, b, links) = (
    e,
    ne,
    prev_kept q apart.0 ∙ b,
    rw (next_kept q (λ f. last-IsNot q r qs distinct.0.0 distinct.0.1 (sym f ∙ end)) apart.0) (
        Links-append t q (old q).next_task r qs next_kept to_task back end distinct.1 apart.1
          links),
  )

module _ {S : Type 0} where
  unlink-prev :
      (k : Tasks S) (task x : ℕ) → ((unlink k task).task_at x).prev_task ≡ (k.task_at x).prev_task
  unfolding unlink set_next put_task
  unlink-prev k task x = elim (Bool-cases ((k.task_at task).prev_task == 0)) [
    | inl e ↦ rw e refl
    | inr e ↦ rw e (elim (Bool-cases (x == (k.task_at task).prev_task)) [
      | inl same ↦ rw same (ap (λ y. (k.task_at y).prev_task) (ground arith))
      | inr other ↦ rw other refl
    ])
  ]

  unlink-next :
      (k : Tasks S) (task x : ℕ)
      → ((unlink k task).task_at x).next_task ≡ (
          if not ((k.task_at task).prev_task == 0) && (x == (k.task_at task).prev_task)
          then (k.task_at task).next_task
          else (k.task_at x).next_task)
  unfolding unlink set_next put_task
  unlink-next k task x = elim (Bool-cases ((k.task_at task).prev_task == 0)) [
    | inl e ↦ rw e refl
    | inr e ↦ rw e (elim (Bool-cases (x == (k.task_at task).prev_task)) [
      | inl same ↦ rw same refl
      | inr other ↦ rw other refl
    ])
  ]

  unlink_ends :
      (k : Tasks S) (task : ℕ)
      → ((unlink k task).task_head ≡ k.task_head) × ((unlink k task).task_tail ≡ k.task_tail)
  unfolding unlink set_next put_task
  unlink_ends k task = elim (Bool-cases ((k.task_at task).prev_task == 0)) [
    | inl e ↦ rw e (refl, refl)
    | inr e ↦ rw e (refl, refl)
  ]

  unlink-next_own :
      (k : Tasks S) (task : ℕ)
      → ((unlink k task).task_at task).next_task ≡ (k.task_at task).next_task
  unlink-next_own k task =
      unlink-next k task task
      ∙ if_prop (λ x. x ≡ (k.task_at task).next_task)
          (not ((k.task_at task).prev_task == 0) && (task == (k.task_at task).prev_task))
          (k.task_at task).next_task (k.task_at task).next_task (λ e. refl) (λ e. refl)

  leave_head_lem :
      (k : Tasks S) (task : ℕ)
      → let k' = leave_head k task in
        (k'.task_at ≡ k.task_at)
        × (k'.task_head ≡ (if task == k.task_head then (k.task_at task).next_task else k.task_head))
        × (k'.task_tail ≡ k.task_tail)
  unfolding leave_head
  leave_head_lem k task = elim (Bool-cases (task == k.task_head)) [
    | inl e ↦ rw e (refl, refl, refl)
    | inr e ↦ rw e (refl, refl, refl)
  ]

  leave_tail_lem :
      (k : Tasks S) (task : ℕ)
      → let k' = leave_tail k task in
        (k'.task_at ≡ k.task_at)
        × (k'.task_head ≡ k.task_head)
        × (k'.task_tail ≡ (if task == k.task_tail then (k.task_at task).prev_task else k.task_tail))
  unfolding leave_tail
  leave_tail_lem k task = elim (Bool-cases (task == k.task_tail)) [
    | inl e ↦ rw e (refl, refl, refl)
    | inr e ↦ rw e (refl, refl, refl)
  ]

  leave_current_lem :
      (k : Tasks S) (task : ℕ)
      → let k' = leave_current k task in
        (k'.task_at ≡ k.task_at) × (k'.task_head ≡ k.task_head) × (k'.task_tail ≡ k.task_tail)
  unfolding leave_current
  leave_current_lem k task = elim (Bool-cases (task == k.current_task)) [
    | inl e ↦ rw e (refl, refl, refl)
    | inr e ↦ rw e (refl, refl, refl)
  ]

-- What task_list_remove does to the links: the task before the removed one gets its `next`; no `prev` changes,
-- so that the task behind the removed one still points back to it. The head and the tail leave the task.
pub task_list_remove_links :
    {S : Type 0} (k : Tasks S) (task : ℕ)
    → let k' = task_list_remove k task in
      let t = k.task_at task in
      ((x : ℕ) → (k'.task_at x).prev_task ≡ (k.task_at x).prev_task)
      × ((x : ℕ)
          → (k'.task_at x).next_task ≡ (
              if not (t.prev_task == 0) && (x == t.prev_task)
              then t.next_task
              else (k.task_at x).next_task))
      × (k'.task_head ≡ (if task == k.task_head then t.next_task else k.task_head))
      × (k'.task_tail ≡ (if task == k.task_tail then t.prev_task else k.task_tail))
unfolding task_list_remove
task_list_remove_links k task =
    let k1 = unlink k task in
    let k2 = leave_head k1 task in
    let k3 = leave_tail k2 task in
    let (at2, head2, tail2) = leave_head_lem k1 task in
    let (at3, head3, tail3) = leave_tail_lem k2 task in
    let (at4, head4, tail4) = leave_current_lem k3 task in
    let (head1, tail1) = unlink_ends k task in
    let store = at4 ∙ at3 ∙ at2 in
    (
      λ x. ap (λ at. (at x).prev_task) store ∙ unlink-prev k task x,
      λ x. ap (λ at. (at x).next_task) store ∙ unlink-next k task x,
      head4 ∙ head3 ∙ head2 ∙ rw (head1, unlink-next_own k task) refl,
      tail4 ∙ tail3 ∙ rw (tail2, at2, tail1, unlink-prev k task task) refl,
    )
