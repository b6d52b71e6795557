-- ===== src/Tasks/Append.antt =====
-- task.c: a new task goes to the end of the list.
use libre_win.Prelude.{
  ℕ, ◌≡◌, ◌≢◌, refl, true, false, arith, ◌==◌, List, [], ◌∷◌, ◌++◌, sym, ◌∙◌, ap, if_prop,
}
use libre_win.Tasks.{Task, Tasks, put_task, set_next, set_prev, append}
use libre_win.Tasks.Chain.{
  Links, last_task, IsNot, IsDistinct, IsTaskList, last-IsNot, Links-append,
}

last_task-append : (p task : ℕ) (qs : List ℕ) → last_task p (qs ++ (task ∷ [])) ≡ task
unfolding last_task
last_task-append p task [] = refl
last_task-append p task (q ∷ qs) = last_task-append q task qs

IsNot-append : (t task : ℕ) (qs : List ℕ) → t ≢ task → IsNot t qs → IsNot t (qs ++ (task ∷ []))
unfolding IsNot
IsNot-append t task [] ne h = (ne, tt)
IsNot-append t task (q ∷ qs) ne h = (h.0, IsNot-append t task qs ne h.1)

IsDistinct-append :
    (task : ℕ) (qs : List ℕ) → IsDistinct qs → IsNot task qs → IsDistinct (qs ++ (task ∷ []))
unfolding IsDistinct IsNot
IsDistinct-append task [] d h = (tt, tt)
IsDistinct-append task (q ∷ qs) d h =
    (IsNot-append q task qs (λ e. h.0 (sym e)) d.0, IsDistinct-append task qs d.1 h.1)

differ : (a b : ℕ) → a ≢ b → (a == b) ≡ false
differ a b ne = ground (arith, ne)

same : (a : ℕ) → (a == a) ≡ true
same a = ground arith

-- The store after `task` is linked behind `t`.
module _ {S : Type 0} (k : Tasks S) (task t : ℕ) (ne : task ≢ t) where
  abbrev linked : ℕ → Task
  unfolding set_prev set_next
  linked = (set_prev (set_next k t task) task t).task_at

  linked-prev : (x : ℕ) → task ≢ x → (linked x).prev_task ≡ (k.task_at x).prev_task
  unfolding set_prev set_next put_task
  linked-prev x h = rw (differ x task (λ e. h (sym e))) (
      if_prop (λ (r : Task). r.prev_task ≡ (k.task_at x).prev_task) (x == t) _ (k.task_at x)
        (λ e. ap (λ y. (k.task_at y).prev_task) (ground arith)) (λ e. refl))

  linked-next : (x : ℕ) → t ≢ x → task ≢ x → (linked x).next_task ≡ (k.task_at x).next_task
  unfolding set_prev set_next put_task
  linked-next x h h' = rw (differ x task (λ e. h' (sym e)), differ x t (λ e. h (sym e))) refl

  linked-next_t : (linked t).next_task ≡ task
  unfolding set_prev set_next put_task
  linked-next_t = rw (differ t task (λ e. ne (sym e)), same t) refl

  linked-prev_task : (linked task).prev_task ≡ t
  unfolding set_prev set_next put_task
  linked-prev_task = rw (same task) refl

  linked-next_task : (linked task).next_task ≡ (k.task_at task).next_task
  unfolding set_prev set_next put_task
  linked-next_task = rw (same task, differ task t ne) refl

-- Where the tasks are a doubly linked list of different tasks, a task that is not one of them and whose links are
-- null goes to the end: afterwards they are the list with that task behind the others.
pub append-IsTaskList :
    {S : Type 0} (k : Tasks S) (task : ℕ) (qs : List ℕ)
    → IsTaskList k qs
    → task ≢ 0
    → IsNot task qs
    → (k.task_at task).next_task ≡ 0
    → (k.task_at task).prev_task ≡ 0
    → IsTaskList (append k task) (qs ++ (task ∷ []))
unfolding append set_next set_prev Links last_task IsDistinct IsNot
append-IsTaskList k task [] v ne apart no_next no_prev =
    rw v.links (record { links = (refl, ne, no_prev, no_next); tail = refl; distinct = (tt, tt) })
append-IsTaskList k task (q ∷ qs) v ne apart no_next no_prev =
    let t = k.task_tail in
    let some_head : (k.task_head == 0) ≡ false =
      differ k.task_head 0 (λ e. v.links.1 (sym v.links.0 ∙ e)) in
    let other : task ≢ t = λ e. last-IsNot task q qs apart.0 apart.1 (e ∙ v.tail) in
    rw some_head (record {
      links =
          Links-append k.task_at (set_prev (set_next k t task) task t).task_at task ne
            (linked-prev k task t other) (linked-next_task k task t other ∙ no_next) t 0 k.task_head
            q qs (linked-next k task t other) (linked-next_t k task t other)
            (linked-prev_task k task t other) v.tail v.distinct apart v.links;
      tail = sym (last_task-append q task qs);
      distinct = IsDistinct-append task (q ∷ qs) v.distinct apart;
    })
