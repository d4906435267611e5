-- ===== src/Task/Samples.antt =====
-- Three tasks, for the runs of the scheduler and of the system calls.
use piggy_os.Base.{ℕ, ◌+◌, refl, [], ◌∷◌, arith, some, ◌==◌, if◌then◌else◌}
use piggy_os.DList.{Node, DList, Memory, blank_node}
use piggy_os.DList.Linked.{IsList}
use piggy_os.Task.{Task, TaskState, ready, Sched}

-- The nodes 16, 32 and 48 hold the tasks 100, 200 and 300.
abbrev pub cells : ℕ → Node
cells p =
    if p == 16
    then record { prev = 0; next = 32; value = 100 }
    else if p == 32
    then record { prev = 16; next = 48; value = 200 }
    else if p == 48
    then record { prev = 32; next = 0; value = 300 }
    else blank_node

abbrev pub memory : Memory
memory = record { nodes = cells; freed = [] }

abbrev pub three : DList
three = record { head = 16; tail = 48; size = 3 }

pub three-IsList : IsList memory three (16 ∷ 32 ∷ 48 ∷ [])
three-IsList = record {
  shape = (
    refl,
    omega arith,
    refl,
    (omega arith, (omega arith, tt)),
    (refl, omega arith, refl, (omega arith, tt), (refl, omega arith, refl, refl, refl)),
  );
  count = refl;
  few = omega arith;
}

abbrev pub task_at : (self : ℕ) → TaskState → Task
task_at self state = record {
  kstack = self + 1;
  kstack_mem = self + 2;
  page_dir = self + 3;
  ifr = 0;
  self = self;
  tid = self;
  state = state;
  exit_code = 0;
  usage = 7;
}

-- The first task is a zombie or not, the others are ready.
abbrev pub tasks_with : TaskState → ℕ → Task
tasks_with first t =
    if t == 100 then task_at 16 first else if t == 200 then task_at 32 ready else task_at 48 ready

abbrev pub running : (current : ℕ) → TaskState → Sched
running current first = record {
  tasks = tasks_with first;
  memory = memory;
  task_list = some three;
  current_task = current;
  next_tid = 4;
  prev_ticks = 10;
  curr_ticks = 10;
  esp0 = 0;
  page_dir = 0;
  esp = 0x900;
}
