-- ===== src/Task/Stuck.antt =====
-- `schedule` where the task behind the current one is a zombie, and `task_exit`.
use piggy_os.Base.{
  ℕ, zero, suc, ◌≡◌, ◌≢◌, refl, ap, ◌∙◌, List, ◌∷◌, ◌++◌, arith, Bool, true, false, none, some,
  ◌==◌, if◌then◌else◌, update_ne, update_self, then_with, ne→==,
}
use piggy_os.DList.{
  Node, DList, Memory, Removed, list_remove_node, list_remove_front, list_remove_back, unlink,
}
use piggy_os.DList.Linked.{IsList}
use piggy_os.Task.{
  Task, zombie, is_zombie, Sched, set_task, task_destroy, pick, switch_to, schedule, task_exit,
}
use piggy_os.Task.Pick.{schedule-Switched, schedule-pick}

-- A node keeps its value when a node is taken out, also the node itself.
front-value :
    (l : DList) (m : Memory) (q : ℕ) → ((list_remove_front l m).2.nodes q).value ≡ (m.nodes q).value
unfolding list_remove_front
front-value l m q = ground arith

back-value :
    (l : DList) (m : Memory) (q : ℕ) → ((list_remove_back l m).2.nodes q).value ≡ (m.nodes q).value
unfolding list_remove_back
back-value l m q = ground arith

unlink-value : (p q : ℕ) (n : ℕ → Node) → (unlink p n q).value ≡ (n q).value
unlink-value p q n = ground arith

if_both {ℓ κ} :
    {A : Type ℓ} (P : A → Type κ) (b : Bool) {x y : A} → P x → P y → P (if b then x else y)
if_both P true p q = p
if_both P false p q = q

removed-value :
    (p q : ℕ) (l : DList) (m : Memory)
    → ((list_remove_node p l m).2.nodes q).value ≡ (m.nodes q).value
unfolding list_remove_node
removed-value p q l m =
    let Kept = λ (r : Removed). (r.2.nodes q).value ≡ (m.nodes q).value in
    if_both Kept (l.head == p) (front-value l m q)
      (if_both Kept (l.tail == p) (back-value l m q) (unlink-value p q m.nodes))

destroyed-value :
    (v q : ℕ) (l : DList) (s : Sched)
    → ((task_destroy v l s).1.memory.nodes q).value ≡ (s.memory.nodes q).value
unfolding task_destroy
destroyed-value v q l s = removed-value (s.tasks v).self q l s.memory

destroyed-tasks : (v : ℕ) (l : DList) (s : Sched) → (task_destroy v l s).1.tasks ≡ s.tasks
unfolding task_destroy
destroyed-tasks v l s = refl

-- `_pick_next` from a node whose task is a zombie never ends: the freed node is read again, and the
-- task is destroyed again.
pick-stuck :
    (fuel node : ℕ) (l : DList) (s : Sched)
    → node ≢ 0
    → is_zombie (s.tasks (s.memory.nodes node).value).state ≡ true
    → pick fuel node l s ≡ none
unfolding pick
pick-stuck zero node l s real dead = refl
pick-stuck (suc fuel) node l s real dead =
    let v = (s.memory.nodes node).value in
    let after = task_destroy v l s in
    let still : is_zombie (after.1.tasks (after.1.memory.nodes node).value).state ≡ true =
      ap (λ w. is_zombie (after.1.tasks w).state) (destroyed-value v node l s)
      ∙ ap (λ (ts : ℕ → Task). is_zombie (ts v).state) (destroyed-tasks v l s)
      ∙ dead in
    rw (ne→== node 0 real, dead) (pick-stuck fuel node after.0 after.1 real still)

-- Where the task behind the current one is a zombie, `schedule` never ends, with any number of rounds:
-- the loop reads the node that it gave back again, as long as freed memory keeps its contents, and
-- destroys the task again and again.
pub schedule-stuck :
    (fuel ticks node : ℕ) (l : DList) (s : Sched)
    → s.task_list ≡ some l
    → s.current_task ≢ 0
    → (s.memory.nodes (s.tasks s.current_task).self).next ≡ node
    → node ≢ 0
    → is_zombie (s.tasks (s.memory.nodes node).value).state ≡ true
    → schedule fuel ticks s ≡ none
schedule-stuck fuel ticks node l s made real behind some_node dead =
    schedule-pick fuel ticks node l s made real behind
    ∙ ap (λ r. then_with r λ (p : ℕ × Sched). some (switch_to ticks p.0 p.1))
        (pick-stuck fuel node l s some_node dead)

-- `task_exit` makes the current task a zombie with the exit code and goes on with the task behind it,
-- if that one is no zombie.
pub task_exit-Switched :
    (fuel ticks code c q : ℕ) (l : DList) (s : Sched) (ps qs : List ℕ)
    → s.task_list ≡ some l
    → s.current_task ≢ 0
    → (s.tasks s.current_task).self ≡ c
    → IsList s.memory l (ps ++ (c ∷ q ∷ qs))
    → s.current_task ≢ (s.memory.nodes q).value
    → is_zombie (s.tasks (s.memory.nodes q).value).state ≡ false
    → (s' : Sched) × (task_exit (suc fuel) ticks code s ≡ some s')
      × (s'.current_task ≡ (s.memory.nodes q).value)
      × ((s'.tasks s.current_task).state ≡ zombie)
      × ((s'.tasks s.current_task).exit_code ≡ code)
      × (s'.task_list ≡ some l)
unfolding task_exit
task_exit-Switched fuel ticks code c q l s ps qs made real at k other alive =
    let exited = record (s.tasks s.current_task) { exit_code = code; state = zombie } in
    let s1 = set_task s.current_task exited s in
    let next = (s.memory.nodes q).value in
    let alive' : is_zombie (s1.tasks next).state ≡ false =
      ap (λ (t : Task). is_zombie t.state) (update_ne s.tasks s.current_task exited other)
      ∙ alive in
    let at' : (s1.tasks s.current_task).self ≡ c =
      ap (λ (t : Task). t.self) (update_self s.tasks s.current_task exited) ∙ at in
    let (s', ran, switched) = schedule-Switched fuel ticks c q l s1 ps qs made real at' k alive' in
    let used = switched.account in
    let own = update_self s.tasks s.current_task exited in
    (
      s',
      ran,
      switched.runs,
      ap (λ (t : Task). t.state) used ∙ ap (λ (t : Task). t.state) own,
      ap (λ (t : Task). t.exit_code) used ∙ ap (λ (t : Task). t.exit_code) own,
      switched.kept.0 ∙ made,
    )
