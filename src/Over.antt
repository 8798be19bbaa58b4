-- ===== src/Over.antt =====
-- lib/src/MDBDebugger.cpp: the calls on its own list of threads, and stepping over a call.
pub mod Same
pub mod Leaves
use rustdbg.Prelude.{
  ℕ, zero, suc, ◌+◌, Bool, true, false, not, Option, none, some, List, [], ◌∷◌, ltb, ◌==◌,
  if◌then◌else◌,
}
use rustdbg.Mach.{Mach}
use rustdbg.Debugger.{BreakpointRef, Run, ◌>>=◌, ◌>>◌}
use rustdbg.Breakpoint.{create_breakpoint, enable, delete_breakpoints}
use rustdbg.Process.{is_waiting, abort_if}
use rustdbg.Threads.{set_world}
use rustdbg.Disassembler.{Disassembler}
use rustdbg.Code.{is_call_instruction, get_instruction_length}
use rustdbg.Control.{
  ProcessRunState, is_stopped, ports, eip_of, enabled_at, disable_found, enable_found, step,
  internal_wait,
}

module _ (m : Mach) where
  -- `for (j = 0; j < (unsigned) info.suspend_count; j++) thread_resume(thread->thread);`
  unfoldable pub resume_loop : ℕ → m.World → ℕ → m.World
  resume_loop zero w t = w
  resume_loop (suc n) w t = resume_loop n (m.thread_resume w t).1 t

  -- `resumeTask`; `warningPrinted` only concerns the log.
  unfoldable pub resume_task : ℕ → m.World → Option (Bool × m.World)
  resume_task zero w = none
  resume_task (suc fuel) w = elim (m.task_info w) [
    | none ↦ some (false, w)
    | some count ↦
        let rest = resume_task fuel (m.task_resume w) in
        if ltb 0 count then rest else some (true, w)
  ]

  -- Behind the loop of `resumeThread`.
  unfoldable pub resume_task_if : Bool → ℕ → m.World → Option (Bool × m.World)
  resume_task_if should_resume_task fuel w =
      if should_resume_task
      then elim (resume_task fuel w) [ none ↦ none | some (_, w') ↦ some (true, w') ]
      else some (true, w)

  unfoldable pub resume_thread : ℕ → m.World → ℕ → Bool → Option (Bool × m.World)
  resume_thread fuel w t should_resume_task = elim (m.thread_info w t) [
    | none ↦ some (false, w)
    | some info ↦
        resume_task_if should_resume_task fuel
          (resume_loop info.suspend_count (abort_if m (is_waiting info.run_state) w t) t)
  ]

  unfoldable pub suspend_thread : m.World → ℕ → Bool × m.World
  suspend_thread w t = elim (m.thread_info w t) [
    | none ↦ (false, w)
    | some info ↦ (true, if info.suspend_count == 0 then (m.thread_suspend w t).1 else w)
  ]

  -- The loops do not look at what the calls on the threads answer.
  unfoldable pub suspend_all_threads : m.World → List ℕ → m.World
  suspend_all_threads w [] = w
  suspend_all_threads w (t ∷ ts) = suspend_all_threads (suspend_thread w t).1 ts

  unfoldable pub resume_all_threads_and_task : ℕ → m.World → List ℕ → Option (Bool × m.World)
  resume_all_threads_and_task fuel w [] = elim (resume_task fuel w) [
    | none ↦ none
    | some (_, w') ↦ some (true, w')
  ]
  resume_all_threads_and_task fuel w (t ∷ ts) = elim (resume_thread fuel w t false) [
    | none ↦ none
    | some (_, w') ↦ resume_all_threads_and_task fuel w' ts
  ]

module _ (m : Mach) (fuel : ℕ) where
  -- Behind the wait of `stepOver`; `none` also where an assertion stops the program.
  unfoldable pub finish_step_over : Option BreakpointRef → ProcessRunState → Run m Bool
  finish_step_over r state d =
      let d' = enable_found m fuel d r in
      if is_stopped state
      then elim (delete_breakpoints d'.transient_breakpoints) [
        | none ↦ none
        | some bs ↦ some (true, record d' { transient_breakpoints = bs })
      ]
      else some (false, d)

  -- `resumeAllThreadsAndTask` on the debugger's own list of threads.
  unfoldable pub run_threads : Run m Bool
  run_threads d = elim (resume_all_threads_and_task m fuel d.world (ports d.threads)) [
    | none ↦ none
    | some (done, w) ↦ some (done, set_world d w)
  ]

  -- From the transient breakpoint on to the end of the wait, for the address of the breakpoint.
  unfoldable pub run_to : ℕ → Run m ProcessRunState
  run_to address d =
      let (b, d') = create_breakpoint d address none in
      (do run_threads; internal_wait m fuel m.sigtrap) (enable d' b true)

  unfoldable pub step_over : Disassembler → ℕ → Run m Bool
  step_over disassemble i d = elim (eip_of m fuel d i) [
    | none ↦ none
    | some eip ↦
        let r = enabled_at m fuel d eip in
        let out = disable_found m fuel d r in
        let next = eip + get_instruction_length disassemble out eip in
        if not (is_call_instruction disassemble d eip)
        then step m fuel i d
        else (run_to next >>= finish_step_over r) out
  ]
