-- ===== src/Process/Together.antt =====
-- Resuming all threads and the task, and letting a single thread run as a step does.
use rustdbg.Prelude.{
  ℕ, ◌≤◌, ◌<◌, ◌≡◌, ap, ◌∙◌, subst, ◌≢◌, inl, inr, true, some, List, [], ◌∷◌, arith, ◌==◌,
  Bool-cases, All,
}
use rustdbg.Mach.{Mach}
use rustdbg.Mach.Laws.{suspend_count, SuspendLaws}
use rustdbg.Process.{
  mach_resume_thread, mach_resume_task, mach_resume_threads_and_task, mach_suspend_all_threads,
}
use rustdbg.Process.Resume.{mach_resume_thread-runs, mach_resume_task-runs, Alive}
use rustdbg.Process.Suspend.{IsSuspended, mach_suspend_all_threads-stops}

-- The thread is there and runs as soon as its task does.
abbrev pub IsResumed : (m : Mach) → m.World → ℕ → Type 0
IsResumed m w t = suspend_count m w t ≡ some 0

module _ {m : Mach} (laws : SuspendLaws m) where
  resumed_after :
      (w : m.World) (t u : ℕ) {c k : ℕ}
      → suspend_count m w t ≡ some k
      → suspend_count m w u ≡ some c
      → (n : ℕ) × (suspend_count m (mach_resume_thread m w t).1 u ≡ some n) × (n ≤ c)
  resumed_after w t u {c} {k} there e =
      let (_, own, others, _) = mach_resume_thread-runs laws w t k there in
      elim (Bool-cases (t == u)) [
        | inl same ↦ (
          0,
          subst (λ x. suspend_count m (mach_resume_thread m w t).1 x ≡ some 0) (ground arith) own,
          omega arith,
        )
        | inr other ↦ (c, others u (ground arith) ∙ e, omega arith)
      ]

  Alive-resumed :
      (w : m.World) (t k : ℕ) (ts : List ℕ)
      → suspend_count m w t ≡ some k
      → Alive laws w ts
      → Alive laws (mach_resume_thread m w t).1 ts
  Alive-resumed w t k [] there alive = tt
  Alive-resumed w t k (u ∷ us) there alive =
      let (n, e, _) = resumed_after w t u there alive.0.1 in
      ((n, e), Alive-resumed w t k us there alive.1)

  -- What the loop over the threads and the task behind it leave.
  abbrev pub Resumed : (w : m.World) → List ℕ → m.World → Type 0
  Resumed w ts w' =
      All (IsResumed m w') ts
      × (m.task_info w' ≡ some 0)
      × ((u : ℕ) → suspend_count m w u ≡ some 0 → suspend_count m w' u ≡ some 0)
      × ((u : ℕ) → All (λ t. t ≢ u) ts → suspend_count m w' u ≡ suspend_count m w u)

  -- With fuel above the task's count and all threads there, `machResumeThreadsAndTask` answers true:
  -- every thread of the list and the task run, and no other thread's count has changed.
  pub mach_resume_threads_and_task-runs :
      (fuel c : ℕ) (w : m.World) (ts : List ℕ)
      → c < fuel
      → m.task_info w ≡ some c
      → Alive laws w ts
      → (w' : m.World) × (mach_resume_threads_and_task m fuel w ts ≡ some (true, w'))
        × Resumed w ts w'
  unfolding mach_resume_threads_and_task
  mach_resume_threads_and_task-runs fuel c w [] h e alive =
      let (w', runs, none_left, same) = mach_resume_task-runs laws fuel c w h e in
      (w', runs, (tt, none_left, (λ u z. same u ∙ z), (λ u _. same u)))
  mach_resume_threads_and_task-runs fuel c w (t ∷ ts) h e alive =
      let ((k, there), rest) = alive in
      let (done, own, others, task) = mach_resume_thread-runs laws w t k there in
      let (w', runs, (all_run, none_left, zeros, same)) =
        mach_resume_threads_and_task-runs fuel c (mach_resume_thread m w t).1 ts h (task ∙ e)
          (Alive-resumed w t k ts there rest) in
      (
        w',
        rw (done, mach_resume_threads_and_task) runs,
        (
          (zeros t own, all_run),
          none_left,
          (λ u z. zeros u (zero_after u z)),
          (λ u absent. same u absent.1 ∙ others u absent.0),
        ),
      )
    where
      zero_after :
          (u : ℕ)
          → suspend_count m w u ≡ some 0
          → suspend_count m (mach_resume_thread m w t).1 u ≡ some 0
      zero_after u z =
          let (n, e', le) = resumed_after w t u alive.0.1 z in e' ∙ ap some (omega arith)

  IsSuspended-but :
      (w w' : m.World) (t : ℕ) (ts : List ℕ)
      → ((u : ℕ) → t ≢ u → suspend_count m w' u ≡ suspend_count m w u)
      → All (IsSuspended m w) ts
      → All (λ u. t ≢ u → IsSuspended m w' u) ts
  IsSuspended-but w w' t [] same all = tt
  IsSuspended-but w w' t (u ∷ us) same all =
      ((λ ne. (all.0.0, same u ne ∙ all.0.1)), IsSuspended-but w w' t us same all.1)

  -- The calls with which a single step begins (`machSuspendAllThreads`, `machResumeThread` on one
  -- thread, `machResumeTask`): that thread and the task run, every other thread of the list is
  -- suspended.
  pub single_thread_runs :
      (fuel c k : ℕ) (w : m.World) (t : ℕ) (ts : List ℕ)
      → c < fuel
      → m.task_info w ≡ some c
      → Alive laws w ts
      → suspend_count m (mach_suspend_all_threads m w ts) t ≡ some k
      → let single = (mach_resume_thread m (mach_suspend_all_threads m w ts) t).1 in
        (w' : m.World) × (mach_resume_task m fuel single ≡ some (true, w'))
        × IsResumed m w' t
        × (m.task_info w' ≡ some 0)
        × All (λ u. t ≢ u → IsSuspended m w' u) ts
  single_thread_runs fuel c k w t ts h e alive there =
      let (stopped, _, task) = mach_suspend_all_threads-stops laws w ts alive in
      let stopped_world = mach_suspend_all_threads m w ts in
      let (_, own, others, task') = mach_resume_thread-runs laws stopped_world t k there in
      let (w', runs, none_left, same) =
        mach_resume_task-runs laws fuel c (mach_resume_thread m stopped_world t).1 h
          (task' ∙ task ∙ e) in
      (
        w',
        runs,
        same t ∙ own,
        none_left,
        IsSuspended-but stopped_world w' t ts (λ u ne. same u ∙ others u ne) stopped,
      )
