-- ===== src/Tests/Launches.antt =====
-- Starting a process at concrete inputs.
use rustdbg.Prelude.{ℕ, ◌≡◌, refl, true, false, none, some, List, [], ◌∷◌, arith, All}
use rustdbg.Debugger.{Debugger, Thread}
use rustdbg.Threads.Gather.{ports_of, learn, has, Distinct}
use rustdbg.Launch.{
  OsStatus, Fork, Status, System, no_process, with_process, new_debugger, attached, create_process,
  acquire_taskport_right,
}
use rustdbg.Launch.Runs.{
  IsForked, create_process-runs, create_process-interrupted, created-Reach-IsSound,
}
use rustdbg.Launch.Origin.{Stops, Taken, create_process-origin}
use rustdbg.Session.{IsSound, here, next, create}
use rustdbg.Breakpoint.{create_breakpoint}
use rustdbg.Tests.Files.{layout}
use rustdbg.Tests.Controls.{calm, calm_patience, all_calls, world}
use rustdbg.Tests.Attaches.{memory_map, junk}

-- A system that grants everything, and whose child stops at once.
abbrev pub granting : System calm
granting = record {
  authorization_create = λ w. (OsStatus.success, w);
  authorization_copy_rights = λ w. (OsStatus.interaction_not_allowed, w);
  fork = λ w. (Fork.parent 42, w);
  trace_me = λ w. (true, w);
  kill = λ w. (true, w);
  failed_exec = λ w. w;
  wait_child = λ w pid. (record { answer = some Status.stopped; interrupted = false }, w);
  task_for_pid = λ w pid. (true, w);
}

granting-IsForked : IsForked granting world 42 world
unfolding acquire_taskport_right
granting-IsForked = record { right = refl; forks = refl }

create_process-runs_example :
    (w' : calm.World) × (ts : List Thread) × (create_process granting memory_map layout 1 junk 9
        new_debugger world
      ≡ some (
          with_process true (
            attached new_debugger w'
              (record { running = true; is_64_bit = true; pid = 42; threads = ts }))))
    × (ports_of ts ≡ learn [] (1 ∷ 2 ∷ []))
    × All (λ p. has p (ports_of ts) ≡ true) (1 ∷ 2 ∷ [])
    × Distinct (ports_of ts)
create_process-runs_example =
    create_process-runs granting memory_map layout 1 junk 9 {n = 0} calm_patience new_debugger
      (1 ∷ 2 ∷ []) (omega arith) refl granting-IsForked refl refl refl

-- The wait is interrupted.
abbrev interrupting : System calm
interrupting = record granting {
  wait_child = λ w pid. (record { answer = none; interrupted = true }, w);
}

interrupting-IsForked : IsForked interrupting world 42 world
unfolding acquire_taskport_right
interrupting-IsForked = record { right = refl; forks = refl }

interrupted_wait :
    create_process interrupting memory_map layout 1 junk 9 new_debugger world
    ≡ some (no_process false world)
interrupted_wait =
    create_process-interrupted interrupting memory_map layout 1 junk 9 {n = 0} new_debugger refl
      interrupting-IsForked refl

-- The task of the child cannot be had.
abbrev refusing : System calm
refusing = record granting { task_for_pid = λ w pid. (false, w) }

refusing-IsForked : IsForked refusing world 42 world
unfolding acquire_taskport_right
refusing-IsForked = record { right = refl; forks = refl }

abbrev granted :
    (w' : calm.World) × (ts : List Thread) × (create_process granting memory_map layout 1 junk 9
        new_debugger world
      ≡ some (
          with_process true (
            attached new_debugger w'
              (record { running = true; is_64_bit = true; pid = 42; threads = ts }))))
granted =
    let (w', ts, e, _, _, _) =
      create_process-runs granting memory_map layout 1 junk 9 {n = 0} calm_patience new_debugger
        (1 ∷ 2 ∷ []) (omega arith) refl granting-IsForked refl refl refl in
    (w', ts, e)

abbrev created : Debugger calm
created =
    attached new_debugger granted.0
      (record { running = true; is_64_bit = true; pid = 42; threads = granted.1 })

created-Reach-IsSound_example : IsSound (create_breakpoint created 20 none).1
created-Reach-IsSound_example =
    created-Reach-IsSound granting memory_map layout 1 junk 9 all_calls world granted.2
      (next here (create 20 none))

create_process-origin_example :
    (pid : ℕ) × (w2 w3 : calm.World) × IsForked granting world pid w2
    × Stops granting pid w2 w3
    × Taken granting memory_map layout 1 junk 9 new_debugger pid w3 true created
create_process-origin_example =
    create_process-origin granting memory_map layout 1 junk 9 new_debugger world granted.2
