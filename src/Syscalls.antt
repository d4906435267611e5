-- ===== src/Syscalls.antt =====
-- kernel/sys/syscall.c and kernel/sys/syscalls/sys_task.c: the system calls of the current task. The
-- registers that the interrupt saved are `eax`, the number and the answer, and `ebx`, the first
-- argument.
pub mod Dispatch
mod Tests
use piggy_os.Base.{
  ℕ, zero, suc, ◌-◌, ◌^◌, Bool, ◌||◌, Option, none, some, ◌==◌, ltb, if◌then◌else◌, then_with,
}
use piggy_os.Task.{Sched, schedule, task_exit}

-- `SYS_GETTID`, `SYS_YIELD`, `SYS_EXIT` and `SYS_RPL3TEST`.
abbrev pub sys_gettid_number : ℕ
sys_gettid_number = 1

abbrev pub sys_yield_number : ℕ
sys_yield_number = 2

abbrev pub sys_exit_number : ℕ
sys_exit_number = 3

abbrev pub sys_rpl3test_number : ℕ
sys_rpl3test_number = 4

-- The numbers of `syscall_table` that hold a function; there are five entries, the first one NULL.
abbrev pub syscall_count : ℕ
syscall_count = 5

-- The call comes back with an `eax` once the caller runs again, or never; the state is that in which
-- the call comes back, a switch to another task begins it, or the caller waits for ever.
pub data Outcome : Type 0 where
  returns : (eax : ℕ) → Sched → Outcome
  never : Sched → Outcome

abbrev pub sys_gettid : Sched → Outcome
sys_gettid s = returns (s.tasks s.current_task).tid s

abbrev pub sys_yield : (fuel ticks : ℕ) → Sched → Option Outcome
sys_yield fuel ticks s = then_with (schedule fuel ticks s) λ s'. some (returns 0 s')

abbrev pub sys_exit : (fuel ticks code : ℕ) → Sched → Option Outcome
sys_exit fuel ticks code s = then_with (task_exit fuel ticks code s) λ s'. some (never s')

abbrev pub sys_rpl3test : Sched → Outcome
sys_rpl3test s = returns 0 s

-- The call through the table.
abbrev pub call : (fuel ticks eax ebx : ℕ) → Sched → Option Outcome
call fuel ticks eax ebx s =
    if eax == sys_gettid_number
    then some (sys_gettid s)
    else if eax == sys_yield_number
    then sys_yield fuel ticks s
    else if eax == sys_exit_number
    then sys_exit fuel ticks ebx s
    else some (sys_rpl3test s)

-- The answer −1 for a number that is 0 or behind the table.
unfoldable pub syscall_dispatcher : (fuel ticks eax ebx : ℕ) → Sched → Option Outcome
syscall_dispatcher fuel ticks eax ebx s =
    let called = call fuel ticks eax ebx s in
    if eax == 0 || ltb (syscall_count - 1) eax then some (returns (2 ^ 32 - 1) s) else called
