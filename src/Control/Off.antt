-- ===== src/Control/Off.antt =====
-- A round of `checkForBreakpointsAndStep`: what it does to the breakpoint under the thread.
use rustdbg.Prelude.{
  ℕ, ◌≡◌, refl, sym, ap, ◌∙◌, inl, inr, Bool, true, false, some, if◌then◌else◌, get_elem?,
}
use rustdbg.Mach.{Mach}
use rustdbg.Mach.Laws.{MemoryLaws}
use rustdbg.Debugger.{Breakpoint, Process, Debugger, BreakpointRef, pure, ◌>>◌, bind_some}
use rustdbg.Breakpoint.{enable, disable, find_ref}
use rustdbg.Breakpoint.Flags.{enable-own, enable-process, SameMarks}
use rustdbg.Threads.Gather.{ports_of}
use rustdbg.Control.{
  ProcessRunState, is_stopped, enabled_at, enable_single_step, single_step, finish_step_off,
  step_off,
}
use rustdbg.Control.Frame.{Frame, Frame-trans}
use rustdbg.Control.Step.{
  Responds, enabled_at-cases, Frame-found, around-SameMarks, single_step-Keeps,
  enable_single_step-Keeps,
}

module _ {m : Mach} {fuel : ℕ} (answers : Responds m fuel) where
  -- What a round leaves, from whether the wait ends with a stop.
  abbrev pub Stepped : BreakpointRef → Bool → Debugger m → Debugger m → Type 0
  Stepped r true d d' = SameMarks d d'
  Stepped r false d d' = (b : Breakpoint) × (find_ref d' r ≡ some b) × (b.enabled ≡ false)

  finish_step_off-Stepped :
      (laws : MemoryLaws m) (i p : ℕ) (r : BreakpointRef) (b : Breakpoint) (d k : Debugger m)
      (state : ProcessRunState)
      → find_ref d r ≡ some b
      → b.enabled ≡ true
      → Frame (enable d r false) k
      → get_elem? (ports_of k.process.threads) i ≡ some p
      → (d' : Debugger m) × (finish_step_off m fuel i r state k ≡ some (tt, d'))
        × Stepped r (is_stopped state) d d'
  unfolding finish_step_off
  finish_step_off-Stepped laws i p r b d k state at on frame there = go (is_stopped state)
    where
      go :
          (stops : Bool)
          → (d' : Debugger m) × ((if stops
                  then enable_single_step m fuel i false >> (λ d. some (tt, enable d r true))
                  else pure tt)
                k
              ≡ some (tt, d'))
            × Stepped r stops d d'
      go true =
          let (_, k', runs, frame') = enable_single_step-Keeps answers i p false k there in
          (
            enable k' r true,
            bind_some (enable_single_step m fuel i false) _ k runs,
            around-SameMarks answers laws r b d k' at on (Frame-trans frame frame'),
          )
      go false =
          let (b', at', _, off) = enable-own laws d r b false at in
          (k, refl, (b', Frame-found answers frame r ∙ at', off))

  -- A round of `checkForBreakpointsAndStep` on a thread of the list that is at an enabled breakpoint
  -- returns, where the system answers. Where the wait behind its single step ends with a stop, every
  -- breakpoint has the address and the mark it had before; where it ends otherwise, the breakpoint
  -- stays disabled.
  pub step_off-Stepped :
      (laws : MemoryLaws m) (i p eip : ℕ) (r : BreakpointRef) (d : Debugger m)
      → get_elem? (ports_of d.process.threads) i ≡ some p
      → enabled_at m fuel d eip ≡ some r
      → (state : ProcessRunState) × (k d' : Debugger m) × (single_step m fuel i (disable d r)
          ≡ some (state, k))
        × (step_off m fuel i eip d ≡ some (tt, d'))
        × Stepped r (is_stopped state) d d'
  unfolding step_off disable
  step_off-Stepped laws i p eip r d at found = elim (enabled_at-cases answers d eip) [
    | inl off ↦ cc (off, found)
    | inr (q, b, e, at_q, on) ↦
        let same : q ≡ r = cc (e, found) in
        let at_r : find_ref d r ≡ some b = ap (λ x. find_ref d x) (sym same) ∙ at_q in
        let there =
          ap (λ (x : Process). get_elem? (ports_of x.threads) i) (enable-process d r false) ∙ at in
        let (state, k, runs, frame) = single_step-Keeps answers i p (enable d r false) there in
        let (d', runs', stepped) =
          finish_step_off-Stepped laws i p r b d k state at_r on frame (frame.threads i p there) in
        (
          state,
          k,
          d',
          runs,
          rw (found, step_off, disable)
              (bind_some (single_step m fuel i) (finish_step_off m fuel i r) (enable d r false) runs
                ∙ runs'),
          stepped,
        )
  ]
