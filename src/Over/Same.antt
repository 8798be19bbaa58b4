-- ===== src/Over/Same.antt =====
-- The suspending and resuming of MDBDebugger.cpp against that of MDBProcess.cpp, of which it is an older
-- copy.
use rustdbg.Prelude.{
  ℕ, zero, suc, ◌≡◌, refl, sym, ap, ◌∙◌, inl, inr, true, false, none, some, List, [], ◌∷◌, ltb,
  if◌then◌else◌, Bool-cases, Option-cases,
}
use rustdbg.Mach.{Mach}
use rustdbg.Process.{
  resume_times, mach_resume_thread, mach_suspend_thread, mach_suspend_all_threads, mach_resume_task,
  mach_resume_threads_and_task,
}
use rustdbg.Over.{
  resume_loop, resume_task, resume_task_if, resume_thread, suspend_thread, suspend_all_threads,
  resume_all_threads_and_task,
}

module _ (m : Mach) where
  resume_loop-resume_times :
      (n : ℕ) (w : m.World) (t : ℕ) → resume_loop m n w t ≡ resume_times m n w t
  unfolding resume_loop resume_times
  resume_loop-resume_times zero w t = refl
  resume_loop-resume_times (suc n) w t = resume_loop-resume_times n (m.thread_resume w t).1 t

  pub resume_task-mach : (fuel : ℕ) (w : m.World) → resume_task m fuel w ≡ mach_resume_task m fuel w
  unfolding resume_task mach_resume_task
  resume_task-mach zero w = refl
  resume_task-mach (suc fuel) w =
      ap
        (λ rest. elim (m.task_info w) [
          | none ↦ some (false, w)
          | some count ↦ if ltb 0 count then rest else some (true, w)
        ])
        (resume_task-mach fuel (m.task_resume w))

  suspend_thread-mach : (w : m.World) (t : ℕ) → suspend_thread m w t ≡ mach_suspend_thread m w t
  unfolding suspend_thread mach_suspend_thread
  suspend_thread-mach w t = refl

  -- The debugger's copy of the loop that suspends threads does what that of the process does.
  pub suspend_all_threads-mach :
      (w : m.World) (ts : List ℕ) → suspend_all_threads m w ts ≡ mach_suspend_all_threads m w ts
  unfolding suspend_all_threads mach_suspend_all_threads
  suspend_all_threads-mach w [] = refl
  suspend_all_threads-mach w (t ∷ ts) =
      ap (λ p. suspend_all_threads m p.1 ts) (suspend_thread-mach w t)
      ∙ suspend_all_threads-mach (mach_suspend_thread m w t).1 ts

  pub resume_thread-mach :
      (fuel : ℕ) (w : m.World) (t : ℕ)
      → resume_thread m fuel w t false ≡ some (mach_resume_thread m w t)
  unfolding resume_thread mach_resume_thread resume_task_if
  resume_thread-mach fuel w t = elim (Option-cases (m.thread_info w t)) [
    | inl e ↦ rw (e, resume_thread, mach_resume_thread)
    | inr (info, e) ↦
        rw (e, resume_thread, mach_resume_thread)
          (ap (λ w. some (true, w)) (resume_loop-resume_times info.suspend_count _ t))
  ]

  -- Where that of the process answers true, the debugger's copy of the loop that resumes the threads
  -- and the task does the same.
  pub resume_all_threads_and_task-mach :
      (fuel : ℕ) (w : m.World) (ts : List ℕ) (w' : m.World)
      → mach_resume_threads_and_task m fuel w ts ≡ some (true, w')
      → resume_all_threads_and_task m fuel w ts ≡ some (true, w')
  unfolding resume_all_threads_and_task mach_resume_threads_and_task
  resume_all_threads_and_task-mach fuel w [] w' e =
      rw (resume_task-mach fuel w ∙ e, resume_all_threads_and_task)
  resume_all_threads_and_task-mach fuel w (t ∷ ts) w' e =
      rw (resume_thread-mach fuel w t, resume_all_threads_and_task)
        (resume_all_threads_and_task-mach fuel (mach_resume_thread m w t).1 ts w' rest)
    where
      rest : mach_resume_threads_and_task m fuel (mach_resume_thread m w t).1 ts ≡ some (true, w')
      rest = elim (Bool-cases (mach_resume_thread m w t).0) [
        | inl done ↦ sym (rw (done, mach_resume_threads_and_task) refl) ∙ e
        | inr failed ↦
            let stops : mach_resume_threads_and_task m fuel w (t ∷ ts)
                ≡ some (false, (mach_resume_thread m w t).1) =
              rw (failed, mach_resume_threads_and_task) in
            absurd (cc (stops, e))
      ]
