-- ===== src/Visit/Noncurrent.antt =====
-- Suspending and resuming all threads of the task but the current one.
use rustdbg.Prelude.{
  ℕ, zero, suc, ◌≡◌, refl, sym, ap, ◌∙◌, subst, ◌≢◌, inl, inr, Bool, true, false, some, List, [],
  ◌∷◌, arith, ◌==◌, if◌then◌else◌, if_true, if_false, Bool-cases, Option-cases, All,
}
use rustdbg.Mach.{Mach}
use rustdbg.Mach.Laws.{SuspendLaws, suspend_count, suspend_count-info}
use rustdbg.Debugger.{Debugger}
use rustdbg.Threads.{set_world}
use rustdbg.Process.{mach_suspend_thread, mach_suspend_all_threads}
use rustdbg.Process.Suspend.{IsSuspended, mach_suspend_all_threads-stops}
use rustdbg.Process.Resume.{Alive}
use rustdbg.Visit.{
  forall_threads, resume_while, noncurrent_world, suspend_or_resume_noncurrent_thread,
  suspend_noncurrent_thread_delegate, resume_noncurrent_thread_delegate,
}
use rustdbg.Visit.World.{
  apart, others, others-ne, each_world, deallocated, freed, All-freed, forall_threads-world,
}

module _ (m : Mach) where
  suspends-others :
      (current : ℕ) (ts : List ℕ) (w : m.World)
      → each_world m (λ t. noncurrent_world m true t current) ts w
        ≡ mach_suspend_all_threads m w (others current ts)
  unfolding noncurrent_world mach_suspend_all_threads mach_suspend_thread
  suspends-others current [] w = refl
  suspends-others current (t ∷ ts) w = elim (Bool-cases (current == t)) [
    | inl same ↦ rw (same, noncurrent_world) (suspends-others current ts w)
    | inr other ↦ elim (Option-cases (m.thread_info w t)) [
      | inl e ↦
          rw (other, e, noncurrent_world, mach_suspend_all_threads, mach_suspend_thread)
            (suspends-others current ts w)
      | inr (info, e) ↦
          rw (other, e, noncurrent_world, mach_suspend_all_threads, mach_suspend_thread)
            (suspends-others current ts
              (if info.suspend_count == 0 then (m.thread_suspend w t).1 else w))
    ]
  ]

  -- Visiting all threads of the task with `suspendNoncurrentThreadDelegate`, where each thread but
  -- the current one answers `thread_info`, ends, and answers what `vm_deallocate` does for the list.
  -- In the world that it leaves, behind that call, all of them are suspended, and the count of the
  -- current one is as it was.
  pub forall_threads-suspends :
      (laws : SuspendLaws m) (current : ℕ) (d : Debugger m) (ports : List ℕ)
      → m.task_threads d.world ≡ some ports
      → Alive laws d.world (others current ports)
      → (w w' : m.World) × (done : Bool) × (m.vm_deallocate w ≡ (done, w'))
        × (forall_threads m (suspend_noncurrent_thread_delegate m current) d
            ≡ some (done, set_world d w'))
        × All (IsSuspended m w') (others current ports)
        × (suspend_count m w' current ≡ suspend_count m d.world current)
  unfolding suspend_noncurrent_thread_delegate suspend_or_resume_noncurrent_thread
  forall_threads-suspends laws current d ports e alive =
      let (stopped, same, _) =
        mach_suspend_all_threads-stops laws d.world (others current ports) alive in
      let w = mach_suspend_all_threads m d.world (others current ports) in
      (
        w,
        freed m w,
        (m.vm_deallocate w).0,
        refl,
        forall_threads-world m (λ t. noncurrent_world m true t current)
              (suspend_noncurrent_thread_delegate m current) (λ t k. refl) d ports e
            ∙ ap (deallocated m d) (suspends-others current ports d.world),
        All-freed m laws (λ o. (c : ℕ) × (o ≡ some (suc c))) w (others current ports) stopped,
        laws.deallocate_keeps w current ∙ same current (others-ne current ports),
      )

module _ {m : Mach} (laws : SuspendLaws m)
    (resumes : (w : m.World) (t c : ℕ)
      → suspend_count m w t ≡ some (suc c)
      → (m.thread_resume w t).0 ≡ true) where
  open laws use {resume_own, resume_other}

  resume_while-own :
      (n : ℕ) (w : m.World) (t : ℕ)
      → suspend_count m w t ≡ some n
      → suspend_count m (resume_while m n w t) t ≡ some 0
  unfolding resume_while
  resume_while-own zero w t e = e
  resume_while-own (suc n) w t e =
      rw (resumes w t n e, resume_while) (resume_while-own n _ t (resume_own w t n e))

  resume_while-other :
      (n : ℕ) (w : m.World) (t u : ℕ)
      → t ≢ u
      → suspend_count m (resume_while m n w t) u ≡ suspend_count m w u
  unfolding resume_while
  resume_while-other zero w t u ne = refl
  resume_while-other (suc n) w t u ne = elim (Bool-cases (m.thread_resume w t).0) [
    | inl on ↦ rw (on, resume_while) (resume_while-other n _ t u ne ∙ resume_other w t u ne)
    | inr off ↦ rw (off, resume_while) (resume_other w t u ne)
  ]

  -- One visit: another thread than the current one has the count zero, the other counts stay.
  resumed :
      (current t : ℕ) (w : m.World) {c : ℕ}
      → suspend_count m w t ≡ some c
      → (current == t) ≡ false
      → (suspend_count m (noncurrent_world m false t current w) t ≡ some 0)
        × ((u : ℕ)
            → t ≢ u
            → suspend_count m (noncurrent_world m false t current w) u ≡ suspend_count m w u)
  unfolding noncurrent_world
  resumed current t w {c} e other =
      let (info, got, count) = suspend_count-info m w t c e in
      rw (other, got, noncurrent_world)
        (
          resume_while-own info.suspend_count w t (e ∙ ap some (sym count)),
          (λ u ne. resume_while-other info.suspend_count w t u ne),
        )

  abbrev after : ℕ → ℕ → m.World → m.World
  after current t w = noncurrent_world m false t current w

  resumed-zero :
      (current t u : ℕ) (w : m.World) {c : ℕ}
      → suspend_count m w t ≡ some c
      → (current == t) ≡ false
      → suspend_count m w u ≡ some 0
      → suspend_count m (after current t w) u ≡ some 0
  resumed-zero current t u w there other e =
      let (own, rest) = resumed current t w there other in
      elim (Bool-cases (t == u)) [
        | inl same ↦ subst (λ x. suspend_count m (after current t w) x ≡ some 0) (ground arith) own
        | inr differs ↦ rest u (ground arith) ∙ e
      ]

  resumed-Alive :
      (current t : ℕ) (w : m.World) {c : ℕ} (ts : List ℕ)
      → suspend_count m w t ≡ some c
      → (current == t) ≡ false
      → Alive laws w ts
      → Alive laws (after current t w) ts
  resumed-Alive current t w [] there other alive = tt
  resumed-Alive current t w (u ∷ us) there other ((n, e), alive) =
      let (own, rest) = resumed current t w there other in
      (
        elim (Bool-cases (t == u)) [
          | inl same ↦
              (0, subst (λ x. suspend_count m (after current t w) x ≡ some 0) (ground arith) own)
          | inr differs ↦ (n, rest u (ground arith) ∙ e)
        ],
        resumed-Alive current t w us there other alive,
      )

  abbrev pub IsRunning : m.World → ℕ → Type 0
  IsRunning w t = suspend_count m w t ≡ some 0

  stays-zero :
      (current u : ℕ) (ts : List ℕ) (w : m.World)
      → Alive laws w (others current ts)
      → suspend_count m w u ≡ some 0
      → suspend_count m (each_world m (after current) ts w) u ≡ some 0
  unfolding noncurrent_world
  stays-zero current u [] w alive e = e
  stays-zero current u (t ∷ ts) w alive e = elim (Bool-cases (current == t)) [
    | inl same ↦
        rw (same, noncurrent_world)
          (stays-zero current u ts w (subst (Alive laws w) (if_true _ _ same) alive) e)
    | inr other ↦
        let ((c, there), rest) =
          subst (Alive laws w) (if_false (others current ts) (t ∷ others current ts) other) alive in
        stays-zero current u ts (after current t w)
          (resumed-Alive current t w (others current ts) there other rest)
          (resumed-zero current t u w there other e)
  ]

  passed_over : (current t : ℕ) (w : m.World) → (current == t) ≡ true → after current t w ≡ w
  unfolding noncurrent_world
  passed_over current t w same = if_true _ _ same

  each_world-IsRunning :
      (current : ℕ) (ts : List ℕ) (w : m.World)
      → Alive laws w (others current ts)
      → All (IsRunning (each_world m (after current) ts w)) (others current ts)
        × (suspend_count m (each_world m (after current) ts w) current ≡ suspend_count m w current)
  each_world-IsRunning current [] w alive = (tt, refl)
  each_world-IsRunning current (t ∷ ts) w alive = elim (Bool-cases (current == t)) [
    | inl same ↦
        rw (same, passed_over current t w same)
          (each_world-IsRunning current ts w (subst (Alive laws w) (if_true _ _ same) alive))
    | inr other ↦
        let ((c, there), rest) =
          subst (Alive laws w) (if_false (others current ts) (t ∷ others current ts) other) alive in
        let alive' = resumed-Alive current t w (others current ts) there other rest in
        let (own, unmoved) = resumed current t w there other in
        let (running, same) = each_world-IsRunning current ts (after current t w) alive' in
        rw other (
          (stays-zero current t ts (after current t w) alive' own, running),
          same ∙ unmoved current (apart current t other),
        )
  ]

  -- Visiting all threads of the task with `resumeNoncurrentThreadDelegate`, where each thread but the
  -- current one answers `thread_info` and `thread_resume` does not fail on a suspended thread, ends,
  -- and answers what `vm_deallocate` does for the list. In the world that it leaves, behind that call,
  -- all of them have the count zero, and the count of the current one is as it was.
  pub forall_threads-resumes :
      (current : ℕ) (d : Debugger m) (ports : List ℕ)
      → m.task_threads d.world ≡ some ports
      → Alive laws d.world (others current ports)
      → (w w' : m.World) × (done : Bool) × (m.vm_deallocate w ≡ (done, w'))
        × (forall_threads m (resume_noncurrent_thread_delegate m current) d
            ≡ some (done, set_world d w'))
        × All (IsRunning w') (others current ports)
        × (suspend_count m w' current ≡ suspend_count m d.world current)
  unfolding resume_noncurrent_thread_delegate suspend_or_resume_noncurrent_thread
  forall_threads-resumes current d ports e alive =
      let (running, same) = each_world-IsRunning current ports d.world alive in
      let w = each_world m (after current) ports d.world in
      (
        w,
        freed m w,
        (m.vm_deallocate w).0,
        refl,
        forall_threads-world m (after current) (resume_noncurrent_thread_delegate m current)
            (λ t k. refl) d ports e,
        All-freed m laws (λ o. o ≡ some 0) w (others current ports) running,
        laws.deallocate_keeps w current ∙ same,
      )
