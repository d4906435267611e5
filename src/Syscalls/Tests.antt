-- ===== src/Syscalls/Tests.antt =====
-- Runs of the system calls.
use piggy_os.Base.{◌-◌, ◌^◌, ◌≡◌, inr, refl, [], ◌∷◌, arith, some}
use piggy_os.Task.{ready, zombie, Sched}
use piggy_os.Task.Samples.{three, three-IsList, running}
use piggy_os.Task.Pick.{Switched}
use piggy_os.Syscalls.{returns, never, syscall_dispatcher}
use piggy_os.Syscalls.Dispatch.{syscall_dispatcher-invalid, syscall_dispatcher-calls}

syscall_dispatcher-invalid_run :
    syscall_dispatcher 1 15 5 0 (running 200 ready)
    ≡ some (returns (2 ^ 32 - 1) (running 200 ready))
syscall_dispatcher-invalid_run =
    syscall_dispatcher-invalid 1 15 5 0 (running 200 ready) (inr (omega arith))

syscall_dispatcher-calls_example :
    let s = running 200 ready in
    (yielded exited : Sched) × (syscall_dispatcher 1 15 1 9 s ≡ some (returns 32 s))
    × (syscall_dispatcher 1 15 2 9 s ≡ some (returns 0 yielded))
    × Switched 15 200 300 s yielded
    × (syscall_dispatcher 1 15 3 9 s ≡ some (never exited))
    × (exited.current_task ≡ 300)
    × ((exited.tasks 200).state ≡ zombie)
    × ((exited.tasks 200).exit_code ≡ 9)
    × (syscall_dispatcher 1 15 4 9 s ≡ some (returns 0 s))
syscall_dispatcher-calls_example =
    syscall_dispatcher-calls 0 15 9 32 48 three (running 200 ready) (16 ∷ []) [] refl (omega arith)
      refl three-IsList (omega arith) refl
