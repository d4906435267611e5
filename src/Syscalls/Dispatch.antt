-- ===== src/Syscalls/Dispatch.antt =====
-- What each system call does, and what an unknown number does.
use piggy_os.Base.{
  ℕ, suc, ◌-◌, ◌^◌, ◌<◌, ◌≡◌, ◌≢◌, ◌⊎◌, inl, inr, refl, ap, List, ◌∷◌, ◌++◌, arith, true, false,
  some, ◌==◌, ltb, ◌||◌, then_with, if_true,
}
use piggy_os.DList.{DList}
use piggy_os.DList.Linked.{IsList}
use piggy_os.Task.{zombie, is_zombie, Sched}
use piggy_os.Task.Pick.{Switched, schedule-Switched}
use piggy_os.Task.Stuck.{task_exit-Switched}
use piggy_os.Syscalls.{returns, never, syscall_dispatcher}

-- A number that is 0 or greater than 4 is answered by −1, and nothing else happens.
pub syscall_dispatcher-invalid :
    (fuel ticks eax ebx : ℕ) (s : Sched)
    → (eax ≡ 0) ⊎ (4 < eax)
    → syscall_dispatcher fuel ticks eax ebx s ≡ some (returns (2 ^ 32 - 1) s)
unfolding syscall_dispatcher
syscall_dispatcher-invalid fuel ticks eax ebx s h =
    if_true (eax == 0 || ltb 4 eax) _ _ (outside eax h)
  where
    outside : (n : ℕ) → (n ≡ 0) ⊎ (4 < n) → (n == 0 || ltb 4 n) ≡ true
    outside n (inl e) = ground arith
    outside n (inr lt) = ground arith

-- The four calls of a task, where a task that is no zombie stands behind it in the list: its number
-- is answered; yielding switches to that task, and answers 0 in the state in which that task begins;
-- exiting switches to it too, answers nothing, and leaves a zombie with the code in `ebx`; the test
-- answers 0.
pub syscall_dispatcher-calls :
    (fuel ticks ebx c q : ℕ) (l : DList) (s : Sched) (ps qs : List ℕ)
    → s.task_list ≡ some l
    → s.current_task ≢ 0
    → (s.tasks s.current_task).self ≡ c
    → IsList s.memory l (ps ++ (c ∷ q ∷ qs))
    → s.current_task ≢ (s.memory.nodes q).value
    → is_zombie (s.tasks (s.memory.nodes q).value).state ≡ false
    → (yielded exited : Sched) × (syscall_dispatcher (suc fuel) ticks 1 ebx s
        ≡ some (returns (s.tasks s.current_task).tid s))
      × (syscall_dispatcher (suc fuel) ticks 2 ebx s ≡ some (returns 0 yielded))
      × Switched ticks s.current_task (s.memory.nodes q).value s yielded
      × (syscall_dispatcher (suc fuel) ticks 3 ebx s ≡ some (never exited))
      × (exited.current_task ≡ (s.memory.nodes q).value)
      × ((exited.tasks s.current_task).state ≡ zombie)
      × ((exited.tasks s.current_task).exit_code ≡ ebx)
      × (syscall_dispatcher (suc fuel) ticks 4 ebx s ≡ some (returns 0 s))
unfolding syscall_dispatcher
syscall_dispatcher-calls fuel ticks ebx c q l s ps qs made real at k other alive =
    let (yielded, ran, switched) =
      schedule-Switched fuel ticks c q l s ps qs made real at k alive in
    let exit = task_exit-Switched fuel ticks ebx c q l s ps qs made real at k other alive in
    (
      yielded,
      exit.0,
      refl,
      ap (λ r. then_with r λ (t : Sched). some (returns 0 t)) ran,
      switched,
      ap (λ r. then_with r λ (t : Sched). some (never t)) exit.1,
      exit.2,
      exit.3,
      exit.4,
      refl,
    )
