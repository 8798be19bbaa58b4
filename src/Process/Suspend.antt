-- ===== src/Process/Suspend.antt =====
-- Suspending all threads, resuming all of them, and letting only one run.
use rustdbg.Prelude.{
  ℕ, suc, ◌-◌, ◌≡◌, refl, sym, ap, ◌∙◌, subst, ◌≢◌, ◌⊎◌, inl, inr, Bool, true, false, some, List,
  [], ◌∷◌, arith, ◌==◌, if◌then◌else◌, Bool-cases, All,
}
use rustdbg.Mach.{Mach, ThreadInfo}
use rustdbg.Mach.Laws.{suspend_count, suspend_count-info, SuspendLaws}
use rustdbg.Process.{mach_suspend_thread, mach_suspend_all_threads}
use rustdbg.Process.Resume.{Alive}

-- The thread is there and does not run.
abbrev pub IsSuspended : (m : Mach) → m.World → ℕ → Type 0
IsSuspended m w t = (c : ℕ) × (suspend_count m w t ≡ some (suc c))

some-eq : {a b : ℕ} → some a ≡ some b → a ≡ b
some-eq e = cc

module _ {m : Mach} (laws : SuspendLaws m) where
  open laws use {suspend_own, suspend_other, suspend_task}

  mach_suspend_thread-some :
      (w : m.World) (t : ℕ) (info : ThreadInfo)
      → m.thread_info w t ≡ some info
      → mach_suspend_thread m w t
        ≡ (true, if info.suspend_count == 0 then (m.thread_suspend w t).1 else w)
  unfolding mach_suspend_thread
  mach_suspend_thread-some w t info got = rw (got, mach_suspend_thread)

  -- A running thread gets the count one, a suspended one keeps its count.
  pub mach_suspend_thread-stops :
      (w : m.World) (t c : ℕ)
      → suspend_count m w t ≡ some c
      → let (done, w') = mach_suspend_thread m w t in
        (done ≡ true)
        × (suspend_count m w' t ≡ some (if c == 0 then 1 else c))
        × ((u : ℕ) → t ≢ u → suspend_count m w' u ≡ suspend_count m w u)
        × (m.task_info w' ≡ m.task_info w)
  mach_suspend_thread-stops w t c e =
      let (info, got, count) = suspend_count-info m w t c e in
      rw (mach_suspend_thread-some w t info got, count) (split (Bool-cases (c == 0)))
    where
      after : m.World
      after = if c == 0 then (m.thread_suspend w t).1 else w

      split :
          ((c == 0) ≡ true) ⊎ ((c == 0) ≡ false)
          → ◌≡◌ {A = Bool} true true
            × (suspend_count m after t ≡ some (if c == 0 then 1 else c))
            × ((u : ℕ) → t ≢ u → suspend_count m after u ≡ suspend_count m w u)
            × (m.task_info after ≡ m.task_info w)
      split (inl zero_now) =
          let none_yet : c ≡ 0 = ground arith in
          rw zero_now (
            refl,
            suspend_own w t 0 (e ∙ ap some none_yet),
            (λ u ne. suspend_other w t u ne),
            suspend_task w t,
          )
      split (inr more) = rw more (refl, e, (λ u ne. refl), refl)

  suspend_keeps :
      (w : m.World) (t u : ℕ) {c k : ℕ}
      → suspend_count m w t ≡ some k
      → suspend_count m w u ≡ some (suc c)
      → suspend_count m (mach_suspend_thread m w t).1 u ≡ some (suc c)
  suspend_keeps w t u {c} {k} there e =
      let (_, own, others, _) = mach_suspend_thread-stops w t k there in
      elim (Bool-cases (t == u)) [
        | inl same ↦
            let e' : t ≡ u = ground arith in
            let n : k ≡ suc c = some-eq (sym there ∙ ap (suspend_count m w) e' ∙ e) in
            subst (λ x. suspend_count m (mach_suspend_thread m w t).1 x ≡ some (suc c)) e'
              (own ∙ ap some (ground arith))
        | inr other ↦ others u (ground arith) ∙ e
      ]

  alive_after :
      (w : m.World) (t u : ℕ) {c k : ℕ}
      → suspend_count m w t ≡ some k
      → suspend_count m w u ≡ some c
      → (n : ℕ) × (suspend_count m (mach_suspend_thread m w t).1 u ≡ some n)
  alive_after w t u {c} {k} there e =
      let (_, own, others, _) = mach_suspend_thread-stops w t k there in
      elim (Bool-cases (t == u)) [
        | inl same ↦ (
          if k == 0 then 1 else k,
          subst
              (λ x.
                suspend_count m (mach_suspend_thread m w t).1 x ≡ some (if k == 0 then 1 else k))
              (ground arith) own,
        )
        | inr other ↦ (c, others u (ground arith) ∙ e)
      ]

  still-Alive :
      (w : m.World) (t k : ℕ) (ts : List ℕ)
      → suspend_count m w t ≡ some k
      → Alive laws w ts
      → Alive laws (mach_suspend_thread m w t).1 ts
  still-Alive w t k [] there alive = tt
  still-Alive w t k (u ∷ us) there alive =
      (alive_after w t u there alive.0.1, still-Alive w t k us there alive.1)

  suspend_all-keeps :
      (w : m.World) (ts : List ℕ) (u : ℕ) {c : ℕ}
      → Alive laws w ts
      → suspend_count m w u ≡ some (suc c)
      → suspend_count m (mach_suspend_all_threads m w ts) u ≡ some (suc c)
  unfolding mach_suspend_all_threads
  suspend_all-keeps w [] u alive e = e
  suspend_all-keeps w (t ∷ ts) u alive e =
      suspend_all-keeps (mach_suspend_thread m w t).1 ts u
        (still-Alive w t alive.0.0 ts alive.0.1 alive.1) (suspend_keeps w t u alive.0.1 e)

  -- Behind `machSuspendAllThreads` every thread of the list is suspended, the others and the task
  -- keep their counts.
  pub mach_suspend_all_threads-stops :
      (w : m.World) (ts : List ℕ)
      → Alive laws w ts
      → let w' = mach_suspend_all_threads m w ts in
        All (IsSuspended m w') ts
        × ((u : ℕ) → All (λ t. t ≢ u) ts → suspend_count m w' u ≡ suspend_count m w u)
        × (m.task_info w' ≡ m.task_info w)
  unfolding mach_suspend_all_threads
  mach_suspend_all_threads-stops w [] alive = (tt, (λ u _. refl), refl)
  mach_suspend_all_threads-stops w (t ∷ ts) alive =
      let ((k, there), rest) = alive in
      let w' = (mach_suspend_thread m w t).1 in
      let alive' = still-Alive w t k ts there rest in
      let (_, own, others, task) = mach_suspend_thread-stops w t k there in
      let (stopped, same, task') =
        mach_suspend_all_threads-stops (mach_suspend_thread m w t).1 ts alive' in
      (
        ((k - 1, suspend_all-keeps w' ts t alive' (own ∙ ap some (ground arith))), stopped),
        (λ u absent. same u absent.1 ∙ others u absent.0),
        task' ∙ task,
      )
