-- ===== src/Task/Pick.antt =====
-- `schedule` where the task behind the current one is chosen.
use piggy_os.Base.{
  ℕ, suc, ◌≡◌, ◌≢◌, refl, ap, ◌∙◌, List, [], ◌∷◌, ◌++◌, arith, false, some, ◌==◌, add32, sub32,
  then_with, if_false, ne→==,
}
use piggy_os.DList.{Node, DList}
use piggy_os.DList.Linked.{Linked, Shape, IsList}
use piggy_os.Task.{
  is_zombie, Sched, pick, switch_to, context_switch, schedule, with_list, schedule_list,
}

-- The node behind `c` in a list.
next_in :
    (n : ℕ → Node) (before head tail c q : ℕ) (ps qs : List ℕ)
    → Linked n before head tail (ps ++ (c ∷ q ∷ qs))
    → ((n c).next ≡ q) × (q ≢ 0)
next_in n before head tail c q [] [] k = (k.4.0, k.4.1)
next_in n before head tail c q [] (r ∷ qs) k = (k.4.0, k.4.1)
next_in n before head tail c q (p ∷ []) qs k = next_in n p (n p).next tail c q [] qs k.4
next_in n before head tail c q (p ∷ r ∷ ps) qs k = next_in n p (n p).next tail c q (r ∷ ps) qs k.4

list-Shape :
    (n : ℕ → Node) (l : DList) (c q : ℕ) (ps qs : List ℕ)
    → Shape n l (ps ++ (c ∷ q ∷ qs))
    → Linked n 0 l.head l.tail (ps ++ (c ∷ q ∷ qs))
list-Shape n l c q [] qs k = k
list-Shape n l c q (p ∷ ps) qs k = k

-- What a switch from the task `old` to the task `next` does to the state: the stack pointer is stored
-- in `old`, with the ticks that it used, and that of `next` is loaded.
pub record Switched (ticks old next : ℕ) (s s' : Sched) : Type 0 where
  pub runs : s'.current_task ≡ next
  pub stack : s'.esp0 ≡ (s.tasks next).kstack
  pub space : s'.page_dir ≡ (s.tasks next).page_dir
  pub account : s'.tasks old ≡ record (s.tasks old) {
    usage = add32 (s.tasks old).usage (sub32 ticks s.prev_ticks);
    kstack = s.esp;
  }
  pub resumes : s'.esp ≡ (s'.tasks next).kstack
  pub others : (t : ℕ) → old ≢ t → s'.tasks t ≡ s.tasks t
  pub since : s'.prev_ticks ≡ ticks
  pub kept : (s'.task_list ≡ s.task_list) × (s'.memory ≡ s.memory)

pub switch_to-Switched :
    (ticks next : ℕ) (s : Sched) → Switched ticks s.current_task next s (switch_to ticks next s)
unfolding switch_to context_switch
switch_to-Switched ticks next s = record {
  runs = refl;
  stack = ground arith;
  space = ground arith;
  account = ground arith;
  resumes = refl;
  others = λ t ne. ground arith;
  since = refl;
  kept = (refl, refl);
}

pick-alive :
    (fuel node : ℕ) (l : DList) (s : Sched)
    → node ≢ 0
    → is_zombie (s.tasks (s.memory.nodes node).value).state ≡ false
    → pick (suc fuel) node l s ≡ some ((s.memory.nodes node).value, s)
unfolding pick
pick-alive fuel node l s real alive = rw (ne→== node 0 real, alive) refl

-- `schedule` from a task is the loop from the node behind it, and the switch.
pub schedule-pick :
    (fuel ticks node : ℕ) (l : DList) (s : Sched)
    → s.task_list ≡ some l
    → s.current_task ≢ 0
    → (s.memory.nodes (s.tasks s.current_task).self).next ≡ node
    → schedule fuel ticks s
      ≡ then_with (pick fuel node l s) (λ (next, s'). some (switch_to ticks next s'))
unfolding schedule_list
schedule-pick fuel ticks node l s made real at =
    let switch = λ (r : ℕ × Sched). some (switch_to ticks r.0 r.1) in
    ap (λ o. with_list o fuel ticks s) made
    ∙ if_false (s.current_task == 0) _ _ (ne→== s.current_task 0 real)
    ∙ ap (λ p. then_with (pick fuel p l s) switch) at

-- `schedule` switches from the current task to the one behind it in the list, if there is one and it
-- is no zombie; the list stays as it is.
pub schedule-Switched :
    (fuel ticks c q : ℕ) (l : DList) (s : Sched) (ps qs : List ℕ)
    → s.task_list ≡ some l
    → s.current_task ≢ 0
    → (s.tasks s.current_task).self ≡ c
    → IsList s.memory l (ps ++ (c ∷ q ∷ qs))
    → is_zombie (s.tasks (s.memory.nodes q).value).state ≡ false
    → (s' : Sched) × (schedule (suc fuel) ticks s ≡ some s')
      × Switched ticks s.current_task (s.memory.nodes q).value s s'
schedule-Switched fuel ticks c q l s ps qs made real at k alive =
    let n = s.memory.nodes in
    let behind = next_in n 0 l.head l.tail c q ps qs (list-Shape n l c q ps qs k.shape) in
    let node : (n (s.tasks s.current_task).self).next ≡ q = ap (λ a. (n a).next) at ∙ behind.0 in
    (
      switch_to ticks (n q).value s,
      schedule-pick (suc fuel) ticks q l s made real node
          ∙ ap (λ r. then_with r λ (p : ℕ × Sched). some (switch_to ticks p.0 p.1))
              (pick-alive fuel q l s behind.1 alive),
      switch_to-Switched ticks (n q).value s,
    )
