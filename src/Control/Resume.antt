-- ===== src/Control/Resume.antt =====
-- `resume`, from the check for breakpoints on to the step back.
use rustdbg.Prelude.{
  ℕ, zero, suc, ◌+◌, ◌≤◌, ◌<◌, ◌≡◌, refl, ◌∙◌, inl, inr, Bool, true, false, none, some, map, arith,
  if◌then◌else◌, Bool-cases, Option-cases, length, get_elem?, get_elem?-lt,
}
use rustdbg.Mach.{Mach}
use rustdbg.Debugger.{Debugger, pure, ◌>>◌, bind_some}
use rustdbg.Process.Resume.{Alive}
use rustdbg.Process.Together.{Resumed, mach_resume_threads_and_task-runs}
use rustdbg.Threads.{set_world}
use rustdbg.Control.{
  ProcessRunState, is_stopped, ports, eip_of, enabled_at, internal_wait, step_off, step_off_from,
  check_for_breakpoints_and_step, check_for_breakpoints_and_step_back, resume_all, resume,
}
use rustdbg.Control.Frame.{Frame, Frame-world}
use rustdbg.Control.Wait.{internal_wait-Waited}
use rustdbg.Control.Step.{Responds}
use rustdbg.Control.Back.{moved, calls, back, check_for_breakpoints_and_step_back-runs}

module _ {m : Mach} (fuel : ℕ) where
  -- No thread of the list is at an enabled breakpoint that `findBreakpoint` finds.
  abbrev pub IsClear : Debugger m → Type 0
  IsClear d = (i eip : ℕ) → eip_of m fuel d i ≡ some eip → enabled_at m fuel d eip ≡ none

  -- What `resume` answers and leaves, from what the wait answers and leaves.
  abbrev pub behind_wait : ProcessRunState → Debugger m → m.World → Bool × Debugger m
  behind_wait state k w =
      if is_stopped state
      then (
        true,
        moved m fuel k w (calls m fuel k k.process.threads k.executed)
            (map (back m fuel k) k.process.threads),
      )
      else (false, k)

  eip_of-lt :
      (d : Debugger m) (i eip : ℕ) → eip_of m fuel d i ≡ some eip → i < length d.process.threads
  eip_of-lt d i eip e = elim (Option-cases (get_elem? d.process.threads i)) [
    | inl gone ↦
        let none_of : eip_of m fuel d i ≡ none = rw (gone, eip_of) in absurd (cc (none_of, e))
    | inr (t, here) ↦ get_elem?-lt d.process.threads i here
  ]

  step_off_from-clear :
      (d : Debugger m) (rounds i : ℕ)
      → IsClear d
      → i ≤ length d.process.threads
      → length d.process.threads < i + rounds
      → step_off_from m fuel rounds i d ≡ some (tt, d)
  unfolding step_off_from step_off
  step_off_from-clear d zero i clear below room = absurd (omega arith)
  step_off_from-clear d (suc rounds) i clear below room = elim (Option-cases (eip_of m fuel d i)) [
    | inl e ↦ rw (e, step_off_from)
    | inr (eip, e) ↦
        let inside = eip_of-lt d i eip e in
        let off : step_off m fuel i eip d ≡ some (tt, d) = rw (clear i eip e, step_off) in
        rw (e, step_off_from)
          (bind_some (step_off m fuel i eip) _ d off
            ∙ step_off_from-clear d rounds (i + 1) clear (omega arith) (omega arith))
  ]

  module _ (answers : Responds m fuel) where
    open answers use {patience, suspends, task_bound, settles}

    resume_all-runs :
        (d : Debugger m) (c : ℕ)
        → m.task_info d.world ≡ some c
        → Alive suspends d.world (ports d.process.threads)
        → (w : m.World) × (resume_all m fuel d ≡ some (true, set_world d w))
          × Resumed suspends d.world (ports d.process.threads) w
    unfolding resume_all
    resume_all-runs d c e alive =
        let (w, runs, resumed) =
          mach_resume_threads_and_task-runs suspends fuel c d.world (ports d.process.threads)
            (task_bound d.world e) e alive in
        (w, rw (runs, resume_all), resumed)

    back_or_not :
        (state : ProcessRunState) (k : Debugger m)
        → (w : m.World) × ((if is_stopped state
                then check_for_breakpoints_and_step_back m fuel >> pure true
                else pure false)
              k
            ≡ some (behind_wait state k w))
    back_or_not state k = elim (Bool-cases (is_stopped state)) [
      | inl stops ↦
          let (w, runs) =
            check_for_breakpoints_and_step_back-runs m fuel patience (omega arith) k in
          (
            w,
            rw stops
                (bind_some (check_for_breakpoints_and_step_back m fuel) (λ _. pure true) k runs),
          )
      | inr goes ↦ (k.world, rw goes refl)
    ]

    -- `resume`, where no thread of the list is at an enabled breakpoint that `findBreakpoint`
    -- finds, the system answers, the threads are alive and the fuel is above their number,
    -- returns. The threads and the task run when it begins to wait, and the wait leaves the
    -- breakpoints and the places of the threads; it answers true exactly if the wait ends with
    -- a stop. Then each thread for which the first breakpoint that `findBreakpoint` finds one
    -- byte before its instruction is enabled has been put back to that byte and the callback of
    -- that breakpoint has run, and every breakpoint is as it was, none has been disabled;
    -- otherwise the state is that of the wait.
    pub resume-runs :
        (d : Debugger m) (c : ℕ)
        → IsClear d
        → length d.process.threads < fuel
        → m.task_info d.world ≡ some c
        → Alive suspends d.world (ports d.process.threads)
        → (w w' : m.World) × (state : ProcessRunState) × (k : Debugger m) × Resumed suspends d.world
            (ports d.process.threads)
            w
          × (internal_wait m fuel m.sigtrap (set_world d w) ≡ some (state, k))
          × Frame d k
          × (resume m fuel d ≡ some (behind_wait state k w'))
    unfolding resume check_for_breakpoints_and_step
    resume-runs d c clear room e alive =
        let (w, resumes, resumed) = resume_all-runs d c e alive in
        let (state, k, waits, frame, _) =
          internal_wait-Waited m fuel patience (omega arith) m.sigtrap (set_world d w) settles in
        let (w', goes) = back_or_not state k in
        (
          w,
          w',
          state,
          k,
          resumed,
          waits,
          Frame-world d w frame,
          bind_some (check_for_breakpoints_and_step m fuel) _ d
                (step_off_from-clear d fuel 0 clear (omega arith) (omega arith))
              ∙ bind_some (resume_all m fuel) _ d resumes
              ∙ bind_some (internal_wait m fuel m.sigtrap) _ (set_world d w) waits
              ∙ goes,
        )
