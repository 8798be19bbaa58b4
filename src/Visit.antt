-- ===== src/Visit.antt =====
-- lib/src/MDBDebugger.cpp: `forallThreads`, and what its callers do with each thread of the task.
pub mod World
pub mod Noncurrent
use rustdbg.Prelude.{
  ℕ, zero, suc, Bool, true, false, Option, none, some, List, [], ◌∷◌, ◌==◌, if◌then◌else◌,
}
use rustdbg.Mach.{Mach, ThreadState32}
use rustdbg.Debugger.{Run, pure, ◌>>=◌, ◌>>◌}
use rustdbg.Threads.{set_world, setting, wrap_mach, set_trap, clear_trap}

module _ (m : Mach) where
  -- The loop over the threads: a visitor that answers false ends it.
  unfoldable pub visit_each : (ℕ → Run m Bool) → List ℕ → Run m (Unit {0})
  visit_each visitor [] d = some (tt, d)
  visit_each visitor (t ∷ ts) d =
      (do go_on ← visitor t; if go_on then visit_each visitor ts else pure tt) d

  unfoldable pub forall_threads : (ℕ → Run m Bool) → Run m Bool
  forall_threads visitor d = elim (m.task_threads d.world) [
    | none ↦ some (false, d)
    | some ports ↦
        (do
          visit_each visitor ports
          λ d'. let (done, w) = m.vm_deallocate d'.world in some (done, set_world d' w))
          d
  ]

  -- `thread_resume` as often as the count says, up to the first failure.
  unfoldable pub resume_while : ℕ → m.World → ℕ → m.World
  resume_while zero w t = w
  resume_while (suc n) w t =
      let (done, w') = m.thread_resume w t in
      let rest = resume_while n w' t in if done then rest else w'

  -- What `suspendOrResumeNoncurrentThread` does to a thread; it always answers true.
  unfoldable pub noncurrent_world : Bool → ℕ → ℕ → m.World → m.World
  noncurrent_world suspend thread current w =
      if current == thread then w else elim (m.thread_info w thread) [
        | none ↦ w
        | some info ↦
            if suspend
            then (if info.suspend_count == 0 then (m.thread_suspend w thread).1 else w)
            else resume_while info.suspend_count w thread
      ]

  unfoldable pub suspend_or_resume_noncurrent_thread : Bool → (thread current : ℕ) → Run m Bool
  suspend_or_resume_noncurrent_thread suspend thread current d =
      some (true, set_world d (noncurrent_world suspend thread current d.world))

  -- The delegates; `arg` is the current thread.
  unfoldable pub suspend_noncurrent_thread_delegate : (arg thread : ℕ) → Run m Bool
  suspend_noncurrent_thread_delegate arg thread =
      suspend_or_resume_noncurrent_thread true thread arg

  unfoldable pub resume_noncurrent_thread_delegate : (arg thread : ℕ) → Run m Bool
  resume_noncurrent_thread_delegate arg thread =
      suspend_or_resume_noncurrent_thread false thread arg

  -- `setSingleStep`: the registers of the thread again with the trap flag set or cleared.
  unfoldable pub set_flag : ℕ → Bool → ℕ → Option ThreadState32 → Run m Bool
  set_flag fuel on thread none = pure false
  set_flag fuel on thread (some state) = do
    r ← wrap_mach m fuel (
        setting (λ w. m.thread_set_state w thread (record state {
          eflags = if on then set_trap state.eflags else clear_trap state.eflags;
        })))
    elim r [ none ↦ pure false | some _ ↦ pure true ]

  unfoldable pub set_single_step : ℕ → Bool → ℕ → Run m Bool
  set_single_step fuel on thread = do
    state ← wrap_mach m fuel (λ w. m.thread_get_state w thread)
    set_flag fuel on thread state

  -- `arg` is the flag.
  unfoldable pub set_single_step_delegate : ℕ → Bool → ℕ → Run m Bool
  set_single_step_delegate fuel arg thread = set_single_step fuel arg thread
