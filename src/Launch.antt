-- ===== src/Launch.antt =====
-- lib/src/MDBShared.cpp and lib/src/MDBDebugger.cpp: the right to debug, the constructor of the
-- debugger, `createProcess` and `killProcess`. Loops run on fuel; `none` is a call that has not returned.
pub mod Created
pub mod Runs
pub mod Origin
use rustdbg.Prelude.{
  ℕ, zero, suc, Bool, true, false, ◌&&◌, Option, none, some, List, [], ◌==◌, if◌then◌else◌,
}
use rustdbg.Mach.{Mach}
use rustdbg.Debugger.{Thread, Breakpoint, Process, Debugger, ◌>>◌}
use rustdbg.Threads.{gather_threads}
use rustdbg.MachReader.{Layout}
use rustdbg.Attach.{MemoryMap, Region}
use rustdbg.Attach.Hooks.{new_process, initialize_dylinker_hooks}

-- `OSStatus` of the authorization calls, as far as the code tells its values apart.
pub data OsStatus : Type 0 where
  success interaction_not_allowed denied : OsStatus

-- What `fork` answers.
pub data Fork : Type 0 where
  child failed : Fork
  parent : (pid : ℕ) → Fork

-- A status of `waitpid`, by the macros that test it.
pub data Status : Type 0 where
  exited signaled stopped unclassified : Status

-- A call of `waitpid` for the child: whether it answers the child, then with its status, and whether
-- errno is EINTR behind it.
pub record Waited : Type 0 where
  pub answer : Option Status
  pub interrupted : Bool

-- The calls of the system that start a process.
pub record System (m : Mach) : Type 0 where
  pub authorization_create : m.World → OsStatus × m.World
  pub authorization_copy_rights : m.World → OsStatus × m.World
  pub fork : m.World → Fork × m.World
  -- `ptrace(PT_TRACE_ME, …)` and `ptrace(PT_KILL, …)`: whether they return 0.
  pub trace_me : m.World → Bool × m.World
  pub kill : m.World → Bool × m.World
  -- `execv` where it returns, which is an error.
  pub failed_exec : m.World → m.World
  pub wait_child : m.World → ℕ → Waited × m.World
  pub task_for_pid : m.World → ℕ → Bool × m.World

-- The debugger before it has a process.
pub record Idle : Type 0 where
  pub threads : List Thread
  pub breakpoints : List Breakpoint
  pub transient_breakpoints : List Breakpoint
  pub executed : List ℕ

-- The constructor `MDBDebugger::MDBDebugger`.
unfoldable pub new_debugger : Idle
new_debugger = record { threads = []; breakpoints = []; transient_breakpoints = []; executed = [] }

-- What `createProcess` leaves: its answer, and the debugger with its process if there is one.
pub data Outcome (m : Mach) : Type 0 where
  no_process : (answer : Bool) → m.World → Outcome m
  with_process : (answer : Bool) → Debugger m → Outcome m

abbrev pub is_success : OsStatus → Bool
is_success OsStatus.success = true
is_success _ = false

abbrev pub status_after : Option Status → Status → Status
status_after none old = old
status_after (some s) old = s

abbrev pub is_answered : Option Status → Bool
is_answered none = false
is_answered (some _) = true

abbrev pub with_answer : {m : Mach} → Option (Bool × Debugger m) → Option (Outcome m)
with_answer none = none
with_answer (some (_, d)) = some (with_process true d)

abbrev pub attached : {m : Mach} → Idle → m.World → Process → Debugger m
attached idle w process = record {
  world = w;
  threads = idle.threads;
  breakpoints = idle.breakpoints;
  transient_breakpoints = idle.transient_breakpoints;
  process = process;
  executed = idle.executed;
}

module _ {m : Mach} (s : System m) where
  -- The answer behind `AuthorizationCopyRights`.
  abbrev pub rights_answer : OsStatus → ℕ
  rights_answer OsStatus.success = 0
  rights_answer OsStatus.interaction_not_allowed = 0
  rights_answer OsStatus.denied = 1

  -- `acquireTaskportRight`.
  unfoldable pub acquire_taskport_right : m.World → ℕ × m.World
  acquire_taskport_right w =
      let (created, w') = s.authorization_create w in
      let (copied, w'') = s.authorization_copy_rights w' in
      if is_success created then (rights_answer copied, w'') else (1, w')

  -- `killProcess`. The errors of `pid_for_task` are only reported.
  unfoldable pub kill_process : m.World → Bool × m.World
  kill_process w = s.kill (m.pid_for_task w).1

  -- The loop over `waitpid` in the parent; a call that fails leaves the status as it is.
  unfoldable pub wait_for_child : ℕ → ℕ → m.World → Status → Option (Status × m.World)
  wait_for_child zero pid w status = none
  wait_for_child (suc fuel) pid w status =
      let (waited, w') = s.wait_child w pid in
      let status' = status_after waited.answer status in
      let rest = wait_for_child fuel pid w' status' in
      if is_answered waited.answer && waited.interrupted then rest else some (status', w')

  -- The child up to its `execv`, and where that returns.
  unfoldable pub run_child : m.World → Outcome m
  run_child w =
      let (traced, w') = s.trace_me w in
      if traced then no_process false (s.failed_exec w') else no_process true w'

  module _ (k : MemoryMap m) (l : Layout) (fuel : ℕ) (junk : Region) (on_library_loaded : ℕ) where
    -- The process of a child that has stopped: its hooks and its threads.
    unfoldable pub start_process : Idle → ℕ → m.World → Option (Outcome m)
    start_process idle pid w = with_answer (
        (initialize_dylinker_hooks k l fuel junk on_library_loaded >> gather_threads m fuel)
          (attached idle w (new_process pid)))

    -- Behind the wait. RETURN_ON_MACH_ERROR returns -1, which is true as a bool.
    unfoldable pub after_wait : Idle → ℕ → Status → m.World → Option (Outcome m)
    after_wait idle pid Status.stopped w =
        let (found, w') = s.task_for_pid w pid in
        if found then start_process idle pid w' else some (no_process true w')
    after_wait idle pid _ w = some (no_process false w)

    -- The parent; the status is 0 at first, which is an exit.
    unfoldable pub run_parent : Idle → ℕ → m.World → Option (Outcome m)
    run_parent idle pid w = elim (wait_for_child fuel pid w Status.exited) [
      | none ↦ none
      | some (status, w') ↦ after_wait idle pid status w'
    ]

    abbrev pub after_fork : Idle → Fork → m.World → Option (Outcome m)
    after_fork idle Fork.child w = some (run_child w)
    after_fork idle Fork.failed w = some (no_process false w)
    after_fork idle (Fork.parent pid) w = run_parent idle pid w

    -- `createProcess`.
    unfoldable pub create_process : Idle → m.World → Option (Outcome m)
    create_process idle w =
        let (right, w') = acquire_taskport_right w in
        let (forked, w'') = s.fork w' in
        if right == 0 then after_fork idle forked w'' else some (no_process false w')
