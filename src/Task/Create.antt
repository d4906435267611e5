-- ===== src/Task/Create.antt =====
-- `task_create` and `multitasking_init` (kernel/sys/task.c). The addresses that the allocations
-- answer are arguments. The first frame on the stack, which the switch to the task pops, is answered
-- beside the state; `copy_page_directory` fills the new directory and is not modelled.
use piggy_os.Base.{ℕ, ◌+◌, ◌-◌, Option, none, some, ◌==◌, if◌then◌else◌, add32, then_with}
use piggy_os.DList.{DList, kfree, list_create, list_insert_front}
use piggy_os.Task.{Task, ready, Sched, set_task, schedule}

-- `struct context`, the fields that are written.
pub record Context : Type 0 where
  pub ebp : ℕ
  pub eip : ℕ
  pub eflags : ℕ

-- `KSTACK_SIZE`, and the sizes of `struct context` and of `regs_t`.
abbrev pub kstack_size : ℕ
kstack_size = 0x1000

abbrev pub context_size : ℕ
context_size = 24

abbrev pub regs_size : ℕ
regs_size = 76

-- Where the frame stands; with registers of an interrupt, they are copied above it.
unfoldable pub top_of_stack : (kstack_mem ifr : ℕ) → ℕ
top_of_stack kstack_mem ifr =
    let top = kstack_mem + kstack_size - context_size in if ifr == 0 then top else top - regs_size

-- The task before it is in the list.
abbrev pub new_task : (page_dir kstack_mem ifr tid : ℕ) → Task
new_task page_dir kstack_mem ifr tid = record {
  kstack = if kstack_mem == 0 then 0 else top_of_stack kstack_mem ifr;
  kstack_mem = kstack_mem;
  page_dir = page_dir;
  ifr = 0;
  self = 0;
  tid = tid;
  state = ready;
  exit_code = 0;
  usage = 0;
}

-- The answer, the frame, and the state once the caller runs again or the new task begins.
abbrev pub Created : Type 0
Created = Option (ℕ × Option Context × Sched)

unfoldable pub task_create :
    (fuel ticks func t page_dir kstack_mem node : ℕ) → DList → Sched → Created
task_create fuel ticks func t page_dir kstack_mem node l s =
    let ifr = (s.tasks s.current_task).ifr in
    let task = new_task page_dir kstack_mem ifr s.next_tid in
    let counted = record (set_task t task s) { next_tid = add32 s.next_tid 1 } in
    let failed = record counted { memory = kfree 0 counted.memory } in
    let (l', m) = list_insert_front node t l s.memory in
    let listed : Sched = record (set_task t (record task { self = node }) counted) {
      memory = m;
      task_list = some l';
    } in
    let frame : Context = record { ebp = task.kstack; eip = func; eflags = 0x202 } in
    if kstack_mem == 0
    then some (0, none, failed)
    else then_with (schedule fuel ticks listed) λ s'. some (t, some frame, s')

unfoldable pub multitasking_init :
    (fuel ticks func t page_dir kstack_mem node : ℕ) → Sched → Created
multitasking_init fuel ticks func t page_dir kstack_mem node s =
    task_create fuel ticks func t page_dir kstack_mem node list_create
      (record s { task_list = some list_create })
