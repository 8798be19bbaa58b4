-- ===== src/Launch/Origin.antt =====
-- When `createProcess` returns with a process.
use rustdbg.Prelude.{
  ℕ, zero, suc, ◌≡◌, ◌⊎◌, inl, inr, refl, sym, ap, ◌∙◌, subst, Bool, true, false, ◌&&◌, Option,
  none, some, ◌==◌, if◌then◌else◌, arith,
}
use rustdbg.Mach.{Mach}
use rustdbg.Debugger.{Debugger}
use rustdbg.Threads.{gather_threads}
use rustdbg.MachReader.{Layout}
use rustdbg.Attach.{MemoryMap, Region}
use rustdbg.Attach.Hooks.{new_process}
use rustdbg.Launch.{
  Status, Fork, System, Idle, Outcome, no_process, with_process, with_answer, attached, is_answered,
  status_after, wait_for_child, acquire_taskport_right, run_child, start_process, after_wait,
  run_parent, after_fork, create_process,
}
use rustdbg.Launch.Created.{start_process-gathers}
use rustdbg.Launch.Runs.{IsForked}

module _ {m : Mach} (s : System m) (pid : ℕ) where
  abbrev pub Waits : m.World → Option Status → Bool → m.World → Type 0
  Waits w answer interrupted w' =
      s.wait_child w pid ≡ (record { answer = answer; interrupted = interrupted }, w')

  -- The calls of `waitpid` that tell of a stop: each of them but the last answers and is interrupted.
  -- The last one tells it, or it fails, and the one before it has told it.
  pub data Stops : m.World → m.World → Type 0 where
    told : {w w' : m.World} → Waits w (some Status.stopped) false w' → Stops w w'
    told_before :
        {w w1 w' : m.World} (interrupted : Bool)
        → Waits w (some Status.stopped) true w1
        → Waits w1 none interrupted w'
        → Stops w w'
    again :
        {w w1 w' : m.World} (status : Status)
        → Waits w (some status) true w1
        → Stops w1 w'
        → Stops w w'

  -- The same, with the status from before.
  abbrev Ends : Status → m.World → m.World → Type 0
  Ends before w w' =
      Stops w w' ⊎ ((before ≡ Status.stopped) × (interrupted : Bool) × Waits w none interrupted w')

  wait_for_child-Ends :
      (n : ℕ) (w : m.World) (before : Status) {w' : m.World}
      → wait_for_child s n pid w before ≡ some (Status.stopped, w')
      → Ends before w w'
  unfolding wait_for_child
  wait_for_child-Ends zero w before e = cc
  wait_for_child-Ends (suc n) w before {w'} e =
      go (λ k status r. wait_for_child-Ends n k status r) (s.wait_child w pid).0.answer
        (s.wait_child w pid).0.interrupted (s.wait_child w pid).1 refl e
    where
      stops_at :
          {k : m.World} {status : Status}
          → ◌≡◌ {A = Option (Status × m.World)} (some (status, k)) (some (Status.stopped, w'))
          → (status ≡ Status.stopped) × (k ≡ w')
      stops_at r = (cc r, cc r)

      go :
          ((k : m.World) (status : Status)
            → wait_for_child s n pid k status ≡ some (Status.stopped, w')
            → Ends status k w')
          → (answer : Option Status) (interrupted : Bool) (w1 : m.World)
          → Waits w answer interrupted w1
          → (if is_answered answer && interrupted
              then wait_for_child s n pid w1 (status_after answer before)
              else some (status_after answer before, w1))
            ≡ some (Status.stopped, w')
          → Ends before w w'
      go more none interrupted w1 at r =
          let (same, place) = stops_at r in
          inr (same, interrupted, subst (Waits w none interrupted) place at)
      go more (some status) false w1 at r =
          let (same, place) = stops_at r in
          inl (
            told (
              subst (λ st. Waits w (some st) false w') same
                (subst (Waits w (some status) false) place at)))
      go more (some status) true w1 at r = elim (more w1 status r) [
        | inl stops ↦ inl (again status at stops)
        | inr (same, interrupted, failed) ↦
            inl (told_before interrupted (subst (λ st. Waits w (some st) true w1) same at) failed)
      ]

  wait_for_child-Stops :
      (n : ℕ) (w : m.World) {w' : m.World}
      → wait_for_child s n pid w Status.exited ≡ some (Status.stopped, w')
      → Stops w w'
  wait_for_child-Stops n w e = elim (wait_for_child-Ends n w Status.exited e) [
    | inl stops ↦ stops
    | inr (same, _, _) ↦ cc same
  ]

module _ {m : Mach} (s : System m) (k : MemoryMap m) (l : Layout) (fuel : ℕ) (junk : Region)
    (callback : ℕ) where
  -- A process that `gatherThreads` has filled behind `task_for_pid`.
  abbrev pub Taken : Idle → ℕ → m.World → Bool → Debugger m → Type 0
  Taken idle pid w3 answer d =
      (w4 : m.World) × (done : Bool) × (s.task_for_pid w3 pid ≡ (true, w4))
      × (gather_threads m fuel (attached idle w4 (new_process pid)) ≡ some (done, d))
      × (answer ≡ true)

  with_answer-process :
      (o : Option (Bool × Debugger m)) {answer : Bool} {d : Debugger m}
      → with_answer o ≡ some (with_process answer d)
      → (done : Bool) × (o ≡ some (done, d)) × (answer ≡ true)
  with_answer-process none e = cc
  with_answer-process (some (done, d)) e = (done, cc e, cc e)

  start_process-Taken :
      (idle : Idle) (pid : ℕ) (w4 : m.World) {answer : Bool} {d : Debugger m}
      → start_process s k l fuel junk callback idle pid w4 ≡ some (with_process answer d)
      → (done : Bool) × (gather_threads m fuel (attached idle w4 (new_process pid))
          ≡ some (done, d))
        × (answer ≡ true)
  start_process-Taken idle pid w4 e =
      with_answer-process (gather_threads m fuel (attached idle w4 (new_process pid)))
        (sym (start_process-gathers s k l fuel junk callback idle pid w4) ∙ e)

  after_wait-Taken :
      (idle : Idle) (pid : ℕ) (status : Status) (w3 : m.World) {answer : Bool} {d : Debugger m}
      → after_wait s k l fuel junk callback idle pid status w3 ≡ some (with_process answer d)
      → (status ≡ Status.stopped) × Taken idle pid w3 answer d
  unfolding after_wait
  after_wait-Taken idle pid Status.exited w3 e = cc
  after_wait-Taken idle pid Status.signaled w3 e = cc
  after_wait-Taken idle pid Status.unclassified w3 e = cc
  after_wait-Taken idle pid Status.stopped w3 {answer} {d} e =
      (refl, go (s.task_for_pid w3 pid).0 (s.task_for_pid w3 pid).1 refl e)
    where
      go :
          (found : Bool) (w4 : m.World)
          → s.task_for_pid w3 pid ≡ (found, w4)
          → (if found
              then start_process s k l fuel junk callback idle pid w4
              else some (no_process true w4))
            ≡ some (with_process answer d)
          → Taken idle pid w3 answer d
      go false w4 at r = cc r
      go true w4 at r =
          let (done, gathers, says) = start_process-Taken idle pid w4 r in
          (w4, done, at, gathers, says)

  run_parent-Taken :
      (idle : Idle) (pid : ℕ) (w2 : m.World) {answer : Bool} {d : Debugger m}
      → run_parent s k l fuel junk callback idle pid w2 ≡ some (with_process answer d)
      → (w3 : m.World) × Stops s pid w2 w3 × Taken idle pid w3 answer d
  unfolding run_parent
  run_parent-Taken idle pid w2 {answer} {d} e =
      go (wait_for_child s fuel pid w2 Status.exited) refl e
    where
      go :
          (o : Option (Status × m.World))
          → wait_for_child s fuel pid w2 Status.exited ≡ o
          → elim o [
            | none ↦ none
            | some (status, w3) ↦ after_wait s k l fuel junk callback idle pid status w3
          ]
            ≡ some (with_process answer d)
          → (w3 : m.World) × Stops s pid w2 w3 × Taken idle pid w3 answer d
      go none at r = cc r
      go (some (status, w3)) at r =
          let (stops, taken) = after_wait-Taken idle pid status w3 r in
          (w3, wait_for_child-Stops s pid fuel w2 (at ∙ ap (λ st. some (st, w3)) stops), taken)

  -- Where `createProcess` returns with a process, the right has been given, the fork has a child, the
  -- calls of `waitpid` tell of a stop of it, and its task was found; the answer is true, and the
  -- process is a new one with what `gatherThreads` has learned. Since only a call that answers is
  -- tried again, there is no process where the first call is interrupted before the child has
  -- answered.
  pub create_process-origin :
      (idle : Idle) (w : m.World) {answer : Bool} {d : Debugger m}
      → create_process s k l fuel junk callback idle w ≡ some (with_process answer d)
      → (pid : ℕ) × (w2 w3 : m.World) × IsForked s w pid w2
        × Stops s pid w2 w3
        × Taken idle pid w3 answer d
  unfolding create_process run_child
  create_process-origin idle w {answer} {d} e =
      go ((acquire_taskport_right s w).0 == 0) refl (s.fork (acquire_taskport_right s w).1).0
        (s.fork (acquire_taskport_right s w).1).1 refl e
    where
      in_child :
          (traced : Bool) (w' : m.World)
          → ◌≡◌ {A = Option (Outcome m)}
              (some (if traced then no_process false (s.failed_exec w') else no_process true w'))
              (some (with_process answer d))
          → ⊥
      in_child true w' r = cc r
      in_child false w' r = cc r

      go :
          (right : Bool)
          → ((acquire_taskport_right s w).0 == 0) ≡ right
          → (forked : Fork) (w2 : m.World) → s.fork (acquire_taskport_right s w).1 ≡ (forked, w2)
          → (if right
              then after_fork s k l fuel junk callback idle forked w2
              else some (no_process false (acquire_taskport_right s w).1))
            ≡ some (with_process answer d)
          → (pid : ℕ) × (w2 w3 : m.World) × IsForked s w pid w2
            × Stops s pid w2 w3
            × Taken idle pid w3 answer d
      go false given forked w2 at r = cc r
      go true given Fork.child w2 at r = absurd (in_child (s.trace_me w2).0 (s.trace_me w2).1 r)
      go true given Fork.failed w2 at r = cc r
      go true given (Fork.parent pid) w2 at r =
          let (w3, stops, taken) = run_parent-Taken idle pid w2 r in
          (pid, w2, w3, record { right = grind (arith, given); forks = at }, stops, taken)
