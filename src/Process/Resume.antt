-- ===== src/Process/Resume.antt =====
-- Resuming a thread brings its suspend count to zero, and the loop over the task's count ends.
use rustdbg.Prelude.{
  ℕ, zero, suc, ◌<◌, ◌≡◌, refl, sym, ap, ◌∙◌, ◌≢◌, Bool, true, false, some, List, arith, ltb, All,
}
use rustdbg.Mach.{Mach, ThreadInfo}
use rustdbg.Mach.Laws.{suspend_count, suspend_count-info, SuspendLaws}
use rustdbg.Process.{resume_times, abort_if, is_waiting, mach_resume_thread, mach_resume_task}

module _ {m : Mach} (laws : SuspendLaws m) where
  open laws use {
    abort_keeps, suspend_own, suspend_other, resume_own, resume_other, task_resume_own,
    task_resume_keeps, abort_task, suspend_task, resume_task,
  }

  resume_times-own :
      (n : ℕ) (w : m.World) (t : ℕ)
      → suspend_count m w t ≡ some n
      → suspend_count m (resume_times m n w t) t ≡ some 0
  unfolding resume_times
  resume_times-own zero w t e = e
  resume_times-own (suc n) w t e = resume_times-own n _ t (resume_own w t n e)

  resume_times-other :
      (n : ℕ) (w : m.World) (t u : ℕ)
      → t ≢ u
      → suspend_count m (resume_times m n w t) u ≡ suspend_count m w u
  unfolding resume_times
  resume_times-other zero w t u ne = refl
  resume_times-other (suc n) w t u ne = resume_times-other n _ t u ne ∙ resume_other w t u ne

  resume_times-task :
      (n : ℕ) (w : m.World) (t : ℕ) → m.task_info (resume_times m n w t) ≡ m.task_info w
  unfolding resume_times
  resume_times-task zero w t = refl
  resume_times-task (suc n) w t = resume_times-task n _ t ∙ resume_task w t

  abort_if-keeps :
      (b : Bool) (w : m.World) (t u : ℕ)
      → suspend_count m (abort_if m b w t) u ≡ suspend_count m w u
  abort_if-keeps true w t u = abort_keeps w t u
  abort_if-keeps false w t u = refl

  abort_if-task : (b : Bool) (w : m.World) (t : ℕ) → m.task_info (abort_if m b w t) ≡ m.task_info w
  abort_if-task true w t = abort_task w t
  abort_if-task false w t = refl

  mach_resume_thread-some :
      (w : m.World) (t : ℕ) (info : ThreadInfo)
      → m.thread_info w t ≡ some info
      → mach_resume_thread m w t
        ≡ (true, resume_times m info.suspend_count (abort_if m (is_waiting info.run_state) w t) t)
  unfolding mach_resume_thread
  mach_resume_thread-some w t info got = rw (got, mach_resume_thread)

  -- A thread that is there is resumed: its count is zero behind the call, whatever it was, and
  -- neither another thread's count nor the task's has changed.
  pub mach_resume_thread-runs :
      (w : m.World) (t c : ℕ)
      → suspend_count m w t ≡ some c
      → let (done, w') = mach_resume_thread m w t in
        (done ≡ true)
        × (suspend_count m w' t ≡ some 0)
        × ((u : ℕ) → t ≢ u → suspend_count m w' u ≡ suspend_count m w u)
        × (m.task_info w' ≡ m.task_info w)
  unfolding mach_resume_thread
  mach_resume_thread-runs w t c e =
      let (info, got, count) = suspend_count-info m w t c e in
      let b = is_waiting info.run_state in
      rw (mach_resume_thread-some w t info got) (
        refl,
        resume_times-own info.suspend_count _ t (abort_if-keeps b w t t ∙ e ∙ ap some (sym count)),
        (λ u ne. resume_times-other info.suspend_count _ t u ne ∙ abort_if-keeps b w t u),
        resume_times-task info.suspend_count _ t ∙ abort_if-task b w t,
      )

  -- With fuel above the task's count the loop ends: the task's count is zero, and no thread's count
  -- has changed.
  pub mach_resume_task-runs :
      (fuel c : ℕ) (w : m.World)
      → c < fuel
      → m.task_info w ≡ some c
      → (w' : m.World) × (mach_resume_task m fuel w ≡ some (true, w'))
        × (m.task_info w' ≡ some 0)
        × ((u : ℕ) → suspend_count m w' u ≡ suspend_count m w u)
  unfolding mach_resume_task
  mach_resume_task-runs zero c w h e = elim h [ ]
  mach_resume_task-runs (suc fuel) zero w h e = (w, rw (e, mach_resume_task), e, (λ u. refl))
  mach_resume_task-runs (suc fuel) (suc c) w h e =
      let (w', runs, none_left, same) =
        mach_resume_task-runs fuel c (m.task_resume w) (omega arith) (task_resume_own w c e) in
      let more : ltb 0 (suc c) ≡ true = ground arith in
      (w', rw (e, more, mach_resume_task) runs, none_left, (λ u. same u ∙ task_resume_keeps w u))

  -- Every thread of the list has an answer of `thread_info`.
  abbrev pub Alive : m.World → List ℕ → Type 0
  Alive w ts = All (λ t. (c : ℕ) × (suspend_count m w t ≡ some c)) ts
