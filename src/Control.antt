-- ===== src/Control.antt =====
-- lib/src/MDBDebugger.cpp: waiting for the debuggee, single steps, stepping over calls, resuming.
-- Every loop runs on fuel; `none` is a call that has not returned, or a pointer that names nothing.
pub mod Frame
pub mod Wait
pub mod Step
pub mod Back
pub mod Resume
pub mod Off
use rustdbg.Prelude.{
  ℕ, zero, suc, ◌+◌, Bool, true, false, Option, none, some, List, [], ◌∷◌, if◌then◌else◌, ◌==◌,
  length, get_elem?, set, sub_u32, ℤ, negsuc,
}
use rustdbg.Mach
use rustdbg.Mach.{Mach}
use rustdbg.Debugger.{Thread, Debugger, BreakpointRef, Run, pure, ◌>>=◌, ◌>>◌}
use rustdbg.Breakpoint.{enable, disable, breakpoint_enabled, find_breakpoint, on_breakpoint_reached}
use rustdbg.Process.{
  mach_resume_thread, mach_resume_task, mach_suspend_all_threads, mach_resume_threads_and_task,
}
use rustdbg.Threads.{
  set_world, set_threads, setting, wrap_mach, mach_commit_thread, gather_threads, set_trap,
  clear_trap, add_i32,
}

-- `MDBProcessRunState`.
pub data ProcessRunState : Type 0 where
  unknown stopped running terminated : ProcessRunState

abbrev pub is_stopped : ProcessRunState → Bool
is_stopped ProcessRunState.stopped = true
is_stopped _ = false

-- The ports over which the loops of `MDBProcess` go.
abbrev pub ports : List Thread → List ℕ
ports [] = []
ports (t ∷ ts) = t.thread ∷ ports ts

module _ (m : Mach) (fuel : ℕ) where
  -- `machSignalTerminated`.
  unfoldable pub mach_signal_terminated : Debugger m → Debugger m
  mach_signal_terminated d = record d { process = record (d.process) { running = false } }

  -- Behind a stop by another signal: the debuggee continues with it, or that fails.
  unfoldable pub continue_with : ℕ → Run m ProcessRunState → Run m ProcessRunState
  continue_with signal again d =
      let (errno, w) = m.pt_continue d.world signal in
      if errno == 0
      then again (set_world d w)
      else (gather_threads m fuel >> pure ProcessRunState.unknown) (set_world d w)

  unfoldable pub after_stop : ℕ → Run m ProcessRunState → ℕ → Run m ProcessRunState
  after_stop wanted again signal =
      if signal == wanted then pure ProcessRunState.stopped else continue_with signal again

  -- The answer to a status of `waitpid`; `again` is the next round of the loop.
  unfoldable pub handle_status : ℕ → Run m ProcessRunState → Mach.Wait → Run m ProcessRunState
  handle_status wanted again Mach.Wait.interrupted d = again d
  handle_status wanted again Mach.Wait.unclassified d = again d
  handle_status wanted again Mach.Wait.failed d =
      (gather_threads m fuel >> pure ProcessRunState.unknown) d
  handle_status wanted again (Mach.Wait.exited code) d =
      some (ProcessRunState.terminated, mach_signal_terminated d)
  handle_status wanted again (Mach.Wait.signaled signal) d =
      (gather_threads m fuel >> pure ProcessRunState.terminated) d
  handle_status wanted again (Mach.Wait.stopped signal) d =
      (gather_threads m fuel >> after_stop wanted again signal) d

  -- The loop of `internalWait`.
  unfoldable pub wait_loop : ℕ → ℕ → Run m ProcessRunState
  wait_loop zero wanted d = none
  wait_loop (suc rounds) wanted d =
      let (status, w) = m.waitpid d.world in
      handle_status wanted (wait_loop rounds wanted) status (set_world d w)

  abbrev pub after_pid : ℕ → Option (Unit {0}) → Run m ProcessRunState
  after_pid wanted none = pure ProcessRunState.unknown
  after_pid wanted (some _) = wait_loop fuel wanted

  unfoldable pub internal_wait : ℕ → Run m ProcessRunState
  internal_wait wanted = do r ← wrap_mach m fuel (setting m.pid_for_task); after_pid wanted r

  -- A write through a thread pointer, and the commit of its registers.
  unfoldable pub change_thread : ℕ → (Thread → Thread) → Run m Bool
  change_thread i f d = elim (get_elem? d.process.threads i) [
    | none ↦ none
    | some t ↦ mach_commit_thread m fuel (f t) (set_threads d (set d.process.threads i (f t)))
  ]

  abbrev pub with_trap : Bool → Thread → Thread
  with_trap on t = record t {
    state32 = record (t.state32) {
      eflags = if on then set_trap t.state32.eflags else clear_trap t.state32.eflags;
    };
  }

  unfoldable pub enable_single_step : ℕ → Bool → Run m Bool
  enable_single_step i on = change_thread i (with_trap on) >> pure true

  abbrev pub with_offset : ℤ → Thread → Thread
  with_offset offset t = record t {
    state32 = record (t.state32) { eip = add_i32 t.state32.eip offset };
  }

  -- `MDBThread::updateInstructionPointerAndCommitState`.
  unfoldable pub update_instruction_pointer_and_commit_state : ℕ → ℤ → Run m Bool
  update_instruction_pointer_and_commit_state i offset = change_thread i (with_offset offset)

  abbrev pub eip_of : Debugger m → ℕ → Option ℕ
  eip_of d i = elim (get_elem? d.process.threads i) [ none ↦ none | some t ↦ some t.state32.eip ]

  abbrev pub port_of : Debugger m → ℕ → ℕ
  port_of d i = elim (get_elem? d.process.threads i) [ none ↦ 0 | some t ↦ t.thread ]

  -- The breakpoint at an address, if it is there and enabled.
  unfoldable pub enabled_at : Debugger m → ℕ → Option BreakpointRef
  enabled_at d address = elim (find_breakpoint d address) [
    | none ↦ none
    | some r ↦ if breakpoint_enabled d r then some r else none
  ]

  abbrev pub disable_found : Debugger m → Option BreakpointRef → Debugger m
  disable_found d none = d
  disable_found d (some r) = disable d r

  abbrev pub enable_found : Debugger m → Option BreakpointRef → Debugger m
  enable_found d none = d
  enable_found d (some r) = enable d r true

  -- `machSuspendAllThreads`, `machResumeThread` and `machResumeTask`, whose answers are not used.
  unfoldable pub run_only : ℕ → Run m (Unit {0})
  run_only i d =
      let ws = mach_suspend_all_threads m d.world (ports d.process.threads) in
      let wr = (mach_resume_thread m ws (port_of d i)).1 in
      elim (mach_resume_task m fuel wr) [ none ↦ none | some (_, w) ↦ some (tt, set_world d w) ]

  -- A single step of one thread, from the trap flag on to the end of the wait.
  unfoldable pub single_step : ℕ → Run m ProcessRunState
  single_step i = do enable_single_step i true; run_only i; internal_wait m.sigtrap

  -- Behind the wait: a stop clears the trap flag, and the breakpoint is set again in any case.
  unfoldable pub finish_step : ℕ → Option BreakpointRef → ProcessRunState → Run m Bool
  finish_step i r state =
      (if is_stopped state then enable_single_step i false else pure true)
      >> (λ d. some (true, enable_found d r))

  unfoldable pub step : ℕ → Run m Bool
  step i d = elim (eip_of d i) [
    | none ↦ none
    | some eip ↦ let r = enabled_at d eip in (single_step i >>= finish_step i r) (disable_found d r)
  ]

  -- Behind the wait: only a stop clears the trap flag and sets the breakpoint again.
  unfoldable pub finish_step_off : ℕ → BreakpointRef → ProcessRunState → Run m (Unit {0})
  finish_step_off i r state =
      if is_stopped state
      then enable_single_step i false >> (λ d. some (tt, enable d r true))
      else pure tt

  -- One round of the loop of `checkForBreakpointsAndStep`.
  unfoldable pub step_off : ℕ → ℕ → Run m (Unit {0})
  step_off i eip d = elim (enabled_at d eip) [
    | none ↦ some (tt, d)
    | some r ↦ (single_step i >>= finish_step_off i r) (disable d r)
  ]

  -- The loop over the threads, whose list may grow while it runs.
  unfoldable pub step_off_from : ℕ → ℕ → Run m (Unit {0})
  step_off_from zero i d = none
  step_off_from (suc rounds) i d = elim (eip_of d i) [
    | none ↦ some (tt, d)
    | some eip ↦ (step_off i eip >> step_off_from rounds (i + 1)) d
  ]

  unfoldable pub check_for_breakpoints_and_step : Run m (Unit {0})
  check_for_breakpoints_and_step = step_off_from fuel 0

  -- One round of the loop of `checkForBreakpointsAndStepBack`.
  unfoldable pub step_back : ℕ → ℕ → Run m (Unit {0})
  step_back i eip d = elim (enabled_at d (sub_u32 eip 1)) [
    | none ↦ some (tt, d)
    | some r ↦
        (update_instruction_pointer_and_commit_state i (negsuc 0) >> pure tt)
          (on_breakpoint_reached d r)
  ]

  unfoldable pub step_back_from : ℕ → ℕ → Run m (Unit {0})
  step_back_from zero i d = some (tt, d)
  step_back_from (suc left) i d = elim (eip_of d i) [
    | none ↦ some (tt, d)
    | some eip ↦ (step_back i eip >> step_back_from left (i + 1)) d
  ]

  unfoldable pub check_for_breakpoints_and_step_back : Run m (Unit {0})
  check_for_breakpoints_and_step_back d = step_back_from (length d.process.threads) 0 d

  unfoldable pub resume_all : Run m Bool
  resume_all d = elim (mach_resume_threads_and_task m fuel d.world (ports d.process.threads)) [
    | none ↦ none
    | some (done, w) ↦ some (done, set_world d w)
  ]

  unfoldable pub resume : Run m Bool
  resume = do
    check_for_breakpoints_and_step
    resume_all
    state ← internal_wait m.sigtrap
    if is_stopped state then check_for_breakpoints_and_step_back >> pure true else pure false
