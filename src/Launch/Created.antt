-- ===== src/Launch/Created.antt =====
-- What `createProcess` leaves.
use rustdbg.Prelude.{
  ℕ, ◌≡◌, refl, sym, subst, Bool, true, false, Option, none, some, [], ◌==◌, if◌then◌else◌,
}
use rustdbg.Mach.{Mach}
use rustdbg.Debugger.{Debugger}
use rustdbg.Threads.{gather_threads}
use rustdbg.MachReader.{Layout}
use rustdbg.Attach.{MemoryMap, Region}
use rustdbg.Attach.Hooks.{mach_is_64_bit, new_process, initialize_dylinker_hooks}
use rustdbg.Session.{IsSound, Onward}
use rustdbg.Session.Post.{After}
use rustdbg.Session.Keeps.{gather_threads-Keeps}
use rustdbg.Launch.{
  with_answer, Status, Fork, System, Idle, Outcome, no_process, with_process, attached,
  wait_for_child, acquire_taskport_right, run_child, start_process, after_wait, run_parent,
  after_fork, create_process,
}

-- The debugger has no thread and no transient breakpoint of its own, as the constructor leaves it.
abbrev pub IsFresh : Idle → Type 0
IsFresh idle = (idle.threads ≡ []) × (idle.transient_breakpoints ≡ [])

module _ {m : Mach} (s : System m) (k : MemoryMap m) (l : Layout) (fuel : ℕ) (junk : Region)
    (callback : ℕ) where
  -- The hooks of a process that counts as 64 bits change nothing.
  pub start_process-gathers :
      (idle : Idle) (pid : ℕ) (w : m.World)
      → start_process s k l fuel junk callback idle pid w
        ≡ with_answer (gather_threads m fuel (attached idle w (new_process pid)))
  unfolding start_process initialize_dylinker_hooks new_process mach_is_64_bit
  start_process-gathers idle pid w = refl

  -- Of a process that has been created: `createProcess` says true, and the invariant of `Session`
  -- holds.
  abbrev pub Started : Option (Outcome m) → Type 0
  Started none = Unit {0}
  Started (some (no_process answer w)) = Unit {0}
  Started (some (with_process answer d)) = (answer ≡ true) × IsSound d

  gathered-Started :
      (d : Debugger m) (o : Option (Bool × Debugger m))
      → IsSound d
      → After (λ _ d'. Onward d d') o
      → Started (with_answer o)
  gathered-Started d none fresh kept = tt
  gathered-Started d (some (done, d')) fresh kept = (refl, kept.sound fresh)

  start_process-Started :
      (idle : Idle) (pid : ℕ) (w : m.World)
      → IsFresh idle
      → Started (start_process s k l fuel junk callback idle pid w)
  unfolding new_process mach_is_64_bit
  start_process-Started idle pid w fresh =
      let d = attached idle w (new_process pid) in
      subst Started (sym (start_process-gathers idle pid w)) (
        gathered-Started d (gather_threads m fuel d)
          (record { no_transient = fresh.1; no_threads = fresh.0; wide = refl; distinct = tt })
          (gather_threads-Keeps m fuel d))

  after_wait-Started :
      (idle : Idle) (pid : ℕ) (status : Status) (w : m.World)
      → IsFresh idle
      → Started (after_wait s k l fuel junk callback idle pid status w)
  unfolding after_wait
  after_wait-Started idle pid Status.exited w fresh = tt
  after_wait-Started idle pid Status.signaled w fresh = tt
  after_wait-Started idle pid Status.unclassified w fresh = tt
  after_wait-Started idle pid Status.stopped w fresh =
      go (s.task_for_pid w pid).0 (s.task_for_pid w pid).1
    where
      go :
          (found : Bool) (w' : m.World)
          → Started (
              if found
              then start_process s k l fuel junk callback idle pid w'
              else some (no_process true w'))
      go true w' = start_process-Started idle pid w' fresh
      go false w' = tt

  run_parent-Started :
      (idle : Idle) (pid : ℕ) (w : m.World)
      → IsFresh idle
      → Started (run_parent s k l fuel junk callback idle pid w)
  unfolding run_parent
  run_parent-Started idle pid w fresh = go (wait_for_child s fuel pid w Status.exited)
    where
      go :
          (o : Option (Status × m.World))
          → Started (elim o [
            | none ↦ none
            | some (status, w') ↦ after_wait s k l fuel junk callback idle pid status w'
          ])
      go none = tt
      go (some (status, w')) = after_wait-Started idle pid status w' fresh

  -- However `createProcess` returns with a process, on a debugger as its constructor leaves it, it
  -- says true, and the invariant of `Session` holds.
  pub create_process-Started :
      (idle : Idle) (w : m.World)
      → IsFresh idle
      → Started (create_process s k l fuel junk callback idle w)
  unfolding create_process run_child
  create_process-Started idle w fresh =
      go ((acquire_taskport_right s w).0 == 0) (s.fork (acquire_taskport_right s w).1).0
        (acquire_taskport_right s w).1 (s.fork (acquire_taskport_right s w).1).1
    where
      in_child :
          (traced : Bool) (w' : m.World)
          → Started
              (some (if traced then no_process false (s.failed_exec w') else no_process true w'))
      in_child true w' = tt
      in_child false w' = tt

      forks :
          (forked : Fork) (w'' : m.World)
          → Started (after_fork s k l fuel junk callback idle forked w'')
      forks Fork.child w'' = in_child (s.trace_me w'').0 (s.trace_me w'').1
      forks Fork.failed w'' = tt
      forks (Fork.parent pid) w'' = run_parent-Started idle pid w'' fresh

      go :
          (right : Bool) (forked : Fork) (w' w'' : m.World)
          → Started (
              if right
              then after_fork s k l fuel junk callback idle forked w''
              else some (no_process false w'))
      go true forked w' w'' = forks forked w''
      go false forked w' w'' = tt
