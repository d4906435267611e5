-- ===== src/Task.antt =====
-- kernel/sys/task.c: the list of tasks and the scheduler. Tasks stand at addresses, 0 is NULL; their
-- list is one of DList, whose nodes have the addresses of the tasks as their values. `context_switch`
-- (kernel/sys/context_switch.asm) is modelled by what it does to `current_task`, the `kstack` of the
-- tasks and the stack pointer; the registers that it pushes and the memory of the stacks are not
-- modelled.
pub mod Pick
pub mod Reap
pub mod Stuck
pub mod Create
pub mod Samples
mod Tests
use piggy_os.Base.{
  ℕ, zero, suc, ◌+◌, ◌-◌, ◌*◌, ◌%◌, ◌^◌, Bool, true, false, Option, none, some, List, [], ◌∷◌, ◌==◌,
  if◌then◌else◌, add32, sub32, update, then_with,
}
use piggy_os.DList.{
  DList, Memory, kfree, list_create, list_insert_front, list_peek_front, list_remove_node,
}

-- `enum task_state`
pub data TaskState : Type 0 where
  ready : TaskState
  sleeping : TaskState
  zombie : TaskState

abbrev pub is_zombie : TaskState → Bool
is_zombie ready = false
is_zombie sleeping = false
is_zombie zombie = true

-- `task_t`, without the space for the floating-point registers.
pub record Task : Type 0 where
  pub kstack : ℕ
  pub kstack_mem : ℕ
  pub page_dir : ℕ
  pub ifr : ℕ
  pub self : ℕ
  pub tid : ℕ
  pub state : TaskState
  pub exit_code : ℕ
  pub usage : ℕ

-- The variables of the file and the memory that they point to; `task_list` is none before
-- `multitasking_init`. `esp0` and `page_dir` are the kernel stack in the task state segment and the
-- page directory in use, `esp` the stack pointer at the instruction of `context_switch` that
-- stores it, and behind the one that loads it.
pub record Sched : Type 0 where
  pub tasks : ℕ → Task
  pub memory : Memory
  pub task_list : Option DList
  pub current_task : ℕ
  pub next_tid : ℕ
  pub prev_ticks : ℕ
  pub curr_ticks : ℕ
  pub esp0 : ℕ
  pub page_dir : ℕ
  pub esp : ℕ

abbrev pub set_task : (t : ℕ) → Task → Sched → Sched
set_task t v s = record s { tasks = update s.tasks t v }

-- `l` is the list, which `task_list` points to.
unfoldable pub task_destroy : (t : ℕ) → DList → Sched → DList × Sched
task_destroy t l s =
    let (value, l', m) = list_remove_node (s.tasks t).self l s.memory in
    let given = kfree t (kfree (s.tasks t).page_dir (kfree (s.tasks t).kstack_mem m)) in
    (l', record s { memory = given; task_list = some l' })

-- `_pick_next`, on `fuel` rounds: the task, and the state once zombies were destroyed. The node is
-- chosen before the loop and stays the same. `none` where the rounds run out.
pub pick : ℕ → (next_node : ℕ) → DList → Sched → Option (ℕ × Sched)
pick zero next_node l s = none
pick (suc fuel) next_node l s =
    let next =
      if next_node == 0 then list_peek_front l s.memory else (s.memory.nodes next_node).value in
    let destroyed = task_destroy next l s in
    let again = pick fuel next_node destroyed.0 destroyed.1 in
    if is_zombie (s.tasks next).state then again else some (next, s)

-- The stack pointer is stored in the current task, also where that is NULL, and that of the next task
-- is loaded.
unfoldable pub context_switch : (next : ℕ) → Sched → Sched
context_switch next s =
    let saved = set_task s.current_task (record (s.tasks s.current_task) { kstack = s.esp }) s in
    record saved { current_task = next; esp = (saved.tasks next).kstack }

-- The accounting, the stack of the task state segment, the page directory, and the switch.
-- `current_task` is never NULL here, so the panic is not reached.
unfoldable pub switch_to : (ticks next : ℕ) → Sched → Sched
unfolding context_switch
switch_to ticks next s =
    let current = s.tasks s.current_task in
    let used = record current { usage = add32 current.usage (sub32 ticks s.prev_ticks) } in
    let s' = set_task s.current_task used s in
    context_switch next (record s' {
      curr_ticks = ticks;
      prev_ticks = ticks;
      esp0 = (s'.tasks next).kstack;
      page_dir = (s'.tasks next).page_dir;
    })

-- `ticks` is the answer of `get_ticks`. The state is that in which the next task begins; the first
-- switch, from no task, never comes back.
unfoldable pub schedule_list : (fuel ticks : ℕ) → DList → Sched → Option Sched
unfolding context_switch
schedule_list fuel ticks l s =
    let next_node = (s.memory.nodes (s.tasks s.current_task).self).next in
    if s.current_task == 0
    then some (context_switch (list_peek_front l s.memory) s)
    else then_with (pick fuel next_node l s) λ (next, s'). some (switch_to ticks next s')

-- Without a list there is nothing to do.
abbrev pub with_list : Option DList → (fuel ticks : ℕ) → Sched → Option Sched
with_list none fuel ticks s = some s
with_list (some l) fuel ticks s = schedule_list fuel ticks l s

abbrev pub schedule : (fuel ticks : ℕ) → Sched → Option Sched
schedule fuel ticks s = with_list s.task_list fuel ticks s

unfoldable pub task_exit : (fuel ticks code : ℕ) → Sched → Option Sched
task_exit fuel ticks code s =
    let t = record (s.tasks s.current_task) { exit_code = code; state = zombie } in
    schedule fuel ticks (set_task s.current_task t s)
