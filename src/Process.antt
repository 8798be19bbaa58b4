-- ===== src/Process.antt =====
-- lib/src/MDBProcess.cpp: suspending and resuming the threads and the task of the debuggee.
pub mod Resume
pub mod Suspend
pub mod Together
use rustdbg.Prelude.{
  ℕ, zero, suc, Bool, true, false, Option, none, some, List, [], ◌∷◌, ltb, if◌then◌else◌, ◌==◌,
}
use rustdbg.Mach.{Mach, ThreadRunState}

abbrev pub is_waiting : ThreadRunState → Bool
is_waiting ThreadRunState.waiting = true
is_waiting _ = false

module _ (m : Mach) where
  -- `for (i = 0; i < suspend_count; i++) thread_resume(thread);`
  unfoldable pub resume_times : ℕ → m.World → ℕ → m.World
  resume_times zero w t = w
  resume_times (suc n) w t = resume_times n (m.thread_resume w t).1 t

  abbrev pub abort_if : Bool → m.World → ℕ → m.World
  abort_if b w t = if b then m.thread_abort w t else w

  unfoldable pub mach_resume_thread : m.World → ℕ → Bool × m.World
  mach_resume_thread w t = elim (m.thread_info w t) [
    | none ↦ (false, w)
    | some info ↦
        (true, resume_times info.suspend_count (abort_if (is_waiting info.run_state) w t) t)
  ]

  unfoldable pub mach_suspend_thread : m.World → ℕ → Bool × m.World
  mach_suspend_thread w t = elim (m.thread_info w t) [
    | none ↦ (false, w)
    | some info ↦ (true, if info.suspend_count == 0 then (m.thread_suspend w t).1 else w)
  ]

  -- The loops go over the ports of the threads, in order.
  unfoldable pub mach_suspend_all_threads : m.World → List ℕ → m.World
  mach_suspend_all_threads w [] = w
  mach_suspend_all_threads w (t ∷ ts) = mach_suspend_all_threads (mach_suspend_thread w t).1 ts

  -- `while (true)`, on fuel: `none` if the loop has not ended.
  unfoldable pub mach_resume_task : ℕ → m.World → Option (Bool × m.World)
  mach_resume_task zero w = none
  mach_resume_task (suc fuel) w = elim (m.task_info w) [
    | none ↦ some (false, w)
    | some count ↦
        let rest = mach_resume_task fuel (m.task_resume w) in
        if ltb 0 count then rest else some (true, w)
  ]

  unfoldable pub mach_resume_threads_and_task : ℕ → m.World → List ℕ → Option (Bool × m.World)
  mach_resume_threads_and_task fuel w [] = mach_resume_task fuel w
  mach_resume_threads_and_task fuel w (t ∷ ts) =
      let (done, w') = mach_resume_thread w t in
      if done then mach_resume_threads_and_task fuel w' ts else some (false, w')
