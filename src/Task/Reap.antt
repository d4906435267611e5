-- ===== src/Task/Reap.antt =====
-- `schedule` at the end of the list, and what becomes of zombies.
use piggy_os.Base.{
  ℕ, zero, suc, ◌≤◌, ◌≡◌, ◌≢◌, ◌⊎◌, inl, inr, refl, sym, ap, ◌∙◌, List, [], ◌∷◌, arith, true, false,
  some, ◌==◌, then_with, subst, if_true, ne→==, length, ==_refl,
}
use piggy_os.DList.{DList, Memory, Removed, list_remove_node, list_remove_front, list_peek_front}
use piggy_os.DList.Linked.{Linked-head, IsList, values}
use piggy_os.DList.Remove.{list_remove_front-Without}
use piggy_os.Task.{Task, is_zombie, Sched, task_destroy, pick, switch_to, schedule}
use piggy_os.Task.Pick.{Switched, switch_to-Switched, schedule-pick}

-- In the list of the nodes `ps` with the tasks `vs`, each task knows its node, up to the first one
-- that is no zombie, `t`.
abbrev pub FirstAlive : (ℕ → Task) → (ps vs : List ℕ) → ℕ → Type 0
FirstAlive tasks [] vs t = ⊥
FirstAlive tasks (p ∷ ps) [] t = ⊥
FirstAlive tasks (p ∷ ps) (v ∷ vs) t =
    ((v ≡ t) × (is_zombie (tasks v).state ≡ false))
    ⊎ (((tasks v).self ≡ p) × (is_zombie (tasks v).state ≡ true) × FirstAlive tasks ps vs t)

-- The state after zombies in front of the list were destroyed: nothing changes but the list, which
-- is still one and begins with the task `t`.
pub record Reaped (t : ℕ) (s s' : Sched) : Type 0 where
  pub tasks : s'.tasks ≡ s.tasks
  pub current : s'.current_task ≡ s.current_task
  pub ticks : s'.prev_ticks ≡ s.prev_ticks
  pub list :
      (l : DList) × (p : ℕ) × (ps : List ℕ) × (s'.task_list ≡ some l)
      × IsList s'.memory l (p ∷ ps)
      × ((s'.memory.nodes p).value ≡ t)

peek-head :
    (l : DList) (m : Memory) (p : ℕ) (ps : List ℕ)
    → IsList m l (p ∷ ps)
    → list_peek_front l m ≡ (m.nodes p).value
unfolding list_peek_front
peek-head l m p ps k =
    let (at, real, _) = Linked-head m.nodes 0 l.head l.tail p ps k.shape in
    rw (at, ne→== p 0 real) refl

removes_front :
    (l : DList) (m : Memory) (p : ℕ) (ps : List ℕ)
    → IsList m l (p ∷ ps)
    → list_remove_node p l m ≡ list_remove_front l m
unfolding list_remove_node
removes_front l m p ps k =
    let (at, _, _) = Linked-head m.nodes 0 l.head l.tail p ps k.shape in
    if_true (l.head == p) _ _ (rw at (==_refl p))

-- Giving addresses back leaves the list alone.
given-IsList :
    (m : Memory) (l : DList) (ps xs : List ℕ)
    → IsList m l ps
    → IsList (record m { freed = xs }) l ps
given-IsList m l ps xs k = record { shape = k.shape; count = k.count; few = k.few }

-- Destroying the first task of the list.
destroyed-front :
    (v p : ℕ) (l : DList) (s : Sched) (ps : List ℕ)
    → IsList s.memory l (p ∷ ps)
    → (s.tasks v).self ≡ p
    → let (l', s') = task_destroy v l s in
      IsList s'.memory l' ps × (values s'.memory.nodes ps ≡ values s.memory.nodes ps)
unfolding task_destroy
destroyed-front v p l s ps k own =
    let without = list_remove_front-Without l s.memory p ps k in
    let front = ap (λ q. list_remove_node q l s.memory) own ∙ removes_front l s.memory p ps k in
    let given = λ (m : Memory). v ∷ (s.tasks v).page_dir ∷ (s.tasks v).kstack_mem ∷ m.freed in
    subst
      (λ (r : Removed).
        IsList (record r.2 { freed = given r.2 }) r.1 ps
        × (values r.2.nodes ps ≡ values s.memory.nodes ps))
      (sym front)
      (
        given-IsList (list_remove_front l s.memory).2 (list_remove_front l s.memory).1 ps _
            without.list,
        without.same_values,
      )

destroyed-rest :
    (v : ℕ) (l : DList) (s : Sched)
    → let (l', s') = task_destroy v l s in
      (s'.tasks ≡ s.tasks)
      × (s'.current_task ≡ s.current_task)
      × (s'.prev_ticks ≡ s.prev_ticks)
      × (s'.task_list ≡ some l')
unfolding task_destroy
destroyed-rest v l s = (refl, refl, refl, refl)

-- Behind the end of the list the loop destroys the zombies in front and chooses the first task that
-- is none, in at most as many rounds as the list has nodes.
pick-Reaped :
    (fuel t : ℕ) (l : DList) (s : Sched) (ps : List ℕ)
    → s.task_list ≡ some l
    → IsList s.memory l ps
    → FirstAlive s.tasks ps (values s.memory.nodes ps) t
    → length ps ≤ fuel
    → (s' : Sched) × (pick fuel 0 l s ≡ some (t, s')) × Reaped t s s'
unfolding pick
pick-Reaped fuel t l s [] made k first lt = absurd first
pick-Reaped zero t l s (p ∷ ps) made k first lt = absurd (omega arith)
pick-Reaped (suc fuel) t l s (p ∷ ps) made k (inl alive) lt =
    let front = peek-head l s.memory p ps k in
    (
      s,
      rw (front, alive.1) (ap (λ v. some (v, s)) alive.0),
      record { tasks = refl; current = refl; ticks = refl; list = (l, p, ps, made, k, alive.0) },
    )
pick-Reaped (suc fuel) t l s (p ∷ ps) made k (inr dead) lt =
    let v = (s.memory.nodes p).value in
    let after = task_destroy v l s in
    let destroyed = destroyed-front v p l s ps k dead.0 in
    let rest = destroyed-rest v l s in
    let first : FirstAlive after.1.tasks ps (values after.1.memory.nodes ps) t =
      subst (λ vs. FirstAlive after.1.tasks ps vs t) (sym destroyed.1)
        (subst (λ ts. FirstAlive ts ps (values s.memory.nodes ps) t) (sym rest.0) dead.2) in
    let ih = pick-Reaped fuel t after.0 after.1 ps rest.3 destroyed.0 first (omega arith) in
    (
      ih.0,
      rw (peek-head l s.memory p ps k, dead.1) ih.1,
      record {
        tasks = ih.2.tasks ∙ rest.0;
        current = ih.2.current ∙ rest.1;
        ticks = ih.2.ticks ∙ rest.2;
        list = ih.2.list;
      },
    )

-- From the last task of the list, `schedule` destroys the zombies in front of the list, of which each
-- knows its node, and switches to the first task that is none; it ends within as many rounds as the
-- list has nodes, and what is left is a list that begins with that task.
pub schedule-Reaped :
    (fuel ticks t : ℕ) (l : DList) (s : Sched) (ps : List ℕ)
    → s.task_list ≡ some l
    → s.current_task ≢ 0
    → (s.memory.nodes (s.tasks s.current_task).self).next ≡ 0
    → IsList s.memory l ps
    → FirstAlive s.tasks ps (values s.memory.nodes ps) t
    → length ps ≤ fuel
    → (s1 s' : Sched) × (schedule fuel ticks s ≡ some s')
      × Reaped t s s1
      × Switched ticks s.current_task t s1 s'
schedule-Reaped fuel ticks t l s ps made real last k first lt =
    let (s1, picked, reaped) = pick-Reaped fuel t l s ps made k first lt in
    (
      s1,
      switch_to ticks t s1,
      schedule-pick fuel ticks 0 l s made real last
          ∙ ap (λ r. then_with r λ (p : ℕ × Sched). some (switch_to ticks p.0 p.1)) picked,
      reaped,
      subst (λ c. Switched ticks c t s1 (switch_to ticks t s1)) reaped.current
          (switch_to-Switched ticks t s1),
    )
