-- ===== src/Task/Tests.antt =====
-- Runs of the scheduler on three tasks.
use piggy_os.Base.{◌≡◌, inl, inr, refl, [], ◌∷◌, arith, none, some, ◌==◌, if◌then◌else◌}
use piggy_os.Task.{ready, zombie, Sched, schedule, task_exit}
use piggy_os.Task.Samples.{three, three-IsList, task_at, tasks_with, running}
use piggy_os.Task.Pick.{Switched, schedule-Switched}
use piggy_os.Task.Reap.{Reaped, schedule-Reaped}
use piggy_os.Task.Stuck.{schedule-stuck, task_exit-Switched}

schedule-Switched_example :
    (s' : Sched) × (schedule 1 15 (running 200 ready) ≡ some s')
    × Switched 15 200 300 (running 200 ready) s'
schedule-Switched_example =
    schedule-Switched 0 15 32 48 three (running 200 ready) (16 ∷ []) [] refl (omega arith) refl
      three-IsList refl

schedule-Reaped_example :
    (s1 s' : Sched) × (schedule 3 15 (running 300 zombie) ≡ some s')
    × Reaped 200 (running 300 zombie) s1
    × Switched 15 300 200 s1 s'
schedule-Reaped_example =
    schedule-Reaped 3 15 200 three (running 300 zombie) (16 ∷ 32 ∷ 48 ∷ []) refl (omega arith) refl
      three-IsList (inr (refl, refl, inl (refl, refl))) (omega arith)

-- The task in front is current, and the one behind it a zombie.
abbrev before_zombie : Sched
before_zombie = record (running 100 ready) {
  tasks = λ t. if t == 200 then task_at 32 zombie else tasks_with ready t;
}

schedule-stuck_example : schedule 1000 15 before_zombie ≡ none
schedule-stuck_example =
    schedule-stuck 1000 15 32 three before_zombie refl (omega arith) refl (omega arith) refl

task_exit-Switched_run :
    (s' : Sched) × (task_exit 1 15 3 (running 200 ready) ≡ some s')
    × (s'.current_task ≡ 300)
    × ((s'.tasks 200).state ≡ zombie)
    × ((s'.tasks 200).exit_code ≡ 3)
    × (s'.task_list ≡ some three)
task_exit-Switched_run =
    task_exit-Switched 0 15 3 32 48 three (running 200 ready) (16 ∷ []) [] refl (omega arith) refl
      three-IsList (omega arith) refl
