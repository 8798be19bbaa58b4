-- ===== src/Session/Resume.antt =====
-- The calls of the debugger on a thread and on the process keep the invariant and what the pointers
-- name.
use rustdbg.Prelude.{
  ℕ, zero, suc, ◌+◌, refl, inl, inr, Bool, true, false, Option, none, some, ◌∷◌, if◌then◌else◌,
  Option-cases, length, negsuc, sub_u32,
}
use rustdbg.Mach.{Mach}
use rustdbg.Debugger.{Breakpoint, Debugger, BreakpointRef, pure, ◌>>=◌, ◌>>◌}
use rustdbg.Breakpoint.{enable, disable, on_breakpoint_reached, find_ref}
use rustdbg.Process.{mach_resume_threads_and_task}
use rustdbg.Threads.{set_world}
use rustdbg.Control.{
  ProcessRunState, is_stopped, ports, internal_wait, enable_single_step, with_offset,
  update_instruction_pointer_and_commit_state, eip_of, enabled_at, single_step, finish_step, step,
  finish_step_off, step_off, step_off_from, check_for_breakpoints_and_step, step_back,
  step_back_from, check_for_breakpoints_and_step_back, resume_all, resume,
}
use rustdbg.Session.{Onward}
use rustdbg.Session.Post.{
  After, After-Onward, Keeps, Keeps-pure, Keeps-bind, Keeps-if, Onward-refl, Onward-world,
}
use rustdbg.Session.Keeps.{enable-Onward}
use rustdbg.Session.Calls.{
  internal_wait-Keeps, change_thread-Keeps, enable_single_step-Keeps, single_step-Keeps,
  disable_found-Onward, enable_found-Onward,
}

module _ (m : Mach) (fuel : ℕ) where
  finish_step-Keeps :
      (i : ℕ) (r : Option BreakpointRef) (state : ProcessRunState)
      → Keeps (finish_step m fuel i r state)
  unfolding finish_step
  finish_step-Keeps i r state =
      Keeps-bind (if is_stopped state then enable_single_step m fuel i false else pure true) _
        (Keeps-if (is_stopped state) (enable_single_step m fuel i false) (pure true)
          (enable_single_step-Keeps m fuel i false) (Keeps-pure true))
        (λ _ d. enable_found-Onward m fuel d r)

  pub step-Keeps : (i : ℕ) → Keeps (step m fuel i)
  unfolding step
  step-Keeps i d = elim (Option-cases (eip_of m fuel d i)) [
    | inl e ↦ rw (e, step) tt
    | inr (eip, e) ↦
        let r = enabled_at m fuel d eip in
        rw (e, step)
          (After-Onward (single_step m fuel i >>= finish_step m fuel i r)
            (disable_found-Onward m fuel d r)
            (Keeps-bind (single_step m fuel i) (finish_step m fuel i r) (single_step-Keeps m fuel i)
              (finish_step-Keeps i r)))
  ]

  finish_step_off-Keeps :
      (i : ℕ) (r : BreakpointRef) (state : ProcessRunState)
      → Keeps (finish_step_off m fuel i r state)
  unfolding finish_step_off
  finish_step_off-Keeps i r state =
      Keeps-if (is_stopped state)
        (enable_single_step m fuel i false >> (λ d. some (tt, enable d r true))) (pure tt)
        (Keeps-bind (enable_single_step m fuel i false) _ (enable_single_step-Keeps m fuel i false)
          (λ _ d. enable-Onward d r true))
        (Keeps-pure tt)

  step_off-Keeps : (i eip : ℕ) → Keeps (step_off m fuel i eip)
  unfolding step_off disable
  step_off-Keeps i eip d = elim (Option-cases (enabled_at m fuel d eip)) [
    | inl e ↦ rw (e, step_off) (Onward-refl d)
    | inr (r, e) ↦
        rw (e, step_off)
          (After-Onward (single_step m fuel i >>= finish_step_off m fuel i r)
            (enable-Onward d r false)
            (Keeps-bind (single_step m fuel i) (finish_step_off m fuel i r)
              (single_step-Keeps m fuel i) (finish_step_off-Keeps i r)))
  ]

  step_off_from-Keeps : (rounds i : ℕ) → Keeps (step_off_from m fuel rounds i)
  unfolding step_off_from
  step_off_from-Keeps zero i d = tt
  step_off_from-Keeps (suc rounds) i d = elim (Option-cases (eip_of m fuel d i)) [
    | inl e ↦ rw (e, step_off_from) (Onward-refl d)
    | inr (eip, e) ↦
        rw (e, step_off_from)
          (Keeps-bind (step_off m fuel i eip) _ (step_off-Keeps i eip)
            (λ _. step_off_from-Keeps rounds (i + 1)) d)
  ]

  on_breakpoint_reached-Onward :
      (d : Debugger m) (r : BreakpointRef) → Onward d (on_breakpoint_reached d r)
  unfolding on_breakpoint_reached
  on_breakpoint_reached-Onward d r = go (find_ref d r)
    where
      called :
          (c : Option ℕ)
          → Onward d (elim c [ none ↦ d | some k ↦ record d { executed = k ∷ d.executed } ])
      called none = Onward-refl d
      called (some k) = record {
        sound = λ s. record {
          no_transient = s.no_transient;
          no_threads = s.no_threads;
          wide = s.wide;
          distinct = s.distinct;
        };
        threads = λ i p at. at;
        breakpoints = λ i b at. (b, at, refl, refl);
      }

      go :
          (o : Option Breakpoint)
          → Onward d (elim o [
            | none ↦ d
            | some b ↦ elim b.callback [
              | none ↦ d
              | some c ↦ record d { executed = c ∷ d.executed }
            ]
          ])
      go none = Onward-refl d
      go (some b) = called b.callback

  step_back-Keeps : (i eip : ℕ) → Keeps (step_back m fuel i eip)
  unfolding step_back update_instruction_pointer_and_commit_state
  step_back-Keeps i eip d = elim (Option-cases (enabled_at m fuel d (sub_u32 eip 1))) [
    | inl e ↦ rw (e, step_back) (Onward-refl d)
    | inr (r, e) ↦
        rw (e, step_back)
          (After-Onward (update_instruction_pointer_and_commit_state m fuel i (negsuc 0) >> pure tt)
            (on_breakpoint_reached-Onward d r)
            (Keeps-bind (update_instruction_pointer_and_commit_state m fuel i (negsuc 0)) _
              (change_thread-Keeps m fuel i (with_offset m fuel (negsuc 0)) (λ t. refl))
              (λ _. Keeps-pure tt)))
  ]

  step_back_from-Keeps : (left i : ℕ) → Keeps (step_back_from m fuel left i)
  unfolding step_back_from
  step_back_from-Keeps zero i d = Onward-refl d
  step_back_from-Keeps (suc left) i d = elim (Option-cases (eip_of m fuel d i)) [
    | inl e ↦ rw (e, step_back_from) (Onward-refl d)
    | inr (eip, e) ↦
        rw (e, step_back_from)
          (Keeps-bind (step_back m fuel i eip) _ (step_back-Keeps i eip)
            (λ _. step_back_from-Keeps left (i + 1)) d)
  ]

  -- An answer of the system calls, and the world behind them.
  pub answered :
      (d : Debugger m) (o : Option (Bool × m.World))
      → After
          (λ (_ : Bool) d'. Onward d d')
          (elim o [ none ↦ none | some (done, w) ↦ some (done, set_world d w) ])
  answered d none = tt
  answered d (some (done, w)) = Onward-world d w

  pub resume-Keeps : Keeps (resume m fuel)
  unfolding resume resume_all check_for_breakpoints_and_step check_for_breakpoints_and_step_back
  resume-Keeps =
      Keeps-bind (check_for_breakpoints_and_step m fuel) _ (step_off_from-Keeps fuel 0) λ _.
        Keeps-bind (resume_all m fuel) _
          (λ d. answered d (mach_resume_threads_and_task m fuel d.world (ports d.process.threads)))
          λ _.
            Keeps-bind (internal_wait m fuel m.sigtrap) _ (internal_wait-Keeps m fuel m.sigtrap)
              λ state.
                Keeps-if (is_stopped state)
                  (check_for_breakpoints_and_step_back m fuel >> pure true) (pure false)
                  (Keeps-bind (check_for_breakpoints_and_step_back m fuel) _
                    (λ d. step_back_from-Keeps (length d.process.threads) 0 d)
                    (λ _. Keeps-pure true))
                  (Keeps-pure false)
