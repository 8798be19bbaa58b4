-- ===== src/Over/Leaves.antt =====
-- What `stepOver` leaves behind: its own breakpoint.
use rustdbg.Prelude.{
  ℕ, ◌+◌, ◌≡◌, refl, sym, ap, ◌∙◌, subst, ◌≢◌, inl, inr, Bool, true, false, Option, none, some,
  List, [], ◌∷◌, arith, Bool-cases, length, get_elem?, get_elem?-append_length,
}
use rustdbg.Mach.{Mach}
use rustdbg.Mach.Laws.{MemoryLaws}
use rustdbg.Debugger.{Breakpoint, Debugger, BreakpointRef, listed, bind_some}
use rustdbg.Breakpoint.{
  enable, disable, new_breakpoint, find_ref, create_breakpoint, delete_breakpoints,
}
use rustdbg.Breakpoint.Flags.{find_ref-cong, enable-own, enable-other, enable-no_transient}
use rustdbg.Process.{mach_resume_thread}
use rustdbg.Threads.{set_world}
use rustdbg.Disassembler.{Disassembler}
use rustdbg.Code.{is_call_instruction, get_instruction_length}
use rustdbg.Control.{
  ProcessRunState, is_stopped, ports, eip_of, enabled_at, disable_found, enable_found,
  internal_wait,
}
use rustdbg.Control.Frame.{Frame-refl, Frame-world}
use rustdbg.Control.Wait.{internal_wait-Waited}
use rustdbg.Control.Step.{
  Responds, Keeps, Keeps-bind, Frame-found, enabled_at-cases, mach_resume_task-ends,
}
use rustdbg.Over.{resume_all_threads_and_task, finish_step_over, run_threads, run_to, step_over}
use rustdbg.Over.Same.{resume_task-mach, resume_thread-mach}

module _ {m : Mach} {fuel : ℕ} (answers : Responds m fuel) where
  resume_all_threads_and_task-ends :
      (w : m.World) (ts : List ℕ)
      → (w' : m.World) × (resume_all_threads_and_task m fuel w ts ≡ some (true, w'))
  unfolding resume_all_threads_and_task
  resume_all_threads_and_task-ends w [] =
      let (done, w', runs) = mach_resume_task-ends answers w in
      (w', rw (resume_task-mach m fuel w ∙ runs, resume_all_threads_and_task))
  resume_all_threads_and_task-ends w (t ∷ ts) =
      let (w', runs) = resume_all_threads_and_task-ends (mach_resume_thread m w t).1 ts in
      (w', rw (resume_thread-mach m fuel w t, resume_all_threads_and_task) runs)

  run_threads-Keeps : (d : Debugger m) → Keeps answers (run_threads m fuel) d
  unfolding run_threads
  run_threads-Keeps d =
      let (w, runs) = resume_all_threads_and_task-ends d.world (ports d.threads) in
      (true, set_world d w, rw (runs, run_threads), Frame-world d w (Frame-refl (set_world d w)))

  wait-Keeps : (d : Debugger m) → Keeps answers (internal_wait m fuel m.sigtrap) d
  wait-Keeps d =
      let (state, d', runs, frame, _) =
        internal_wait-Waited m fuel answers.patience (omega arith) m.sigtrap d answers.settles in
      (state, d', runs, frame)

  -- The new breakpoint stands behind the others, enabled, whatever happens up to the wait's end.
  run_to-enabled :
      (laws : MemoryLaws m) (address : ℕ) (d : Debugger m)
      → (state : ProcessRunState) × (d' : Debugger m) × (b : Breakpoint) × (run_to m fuel address d
          ≡ some (state, d'))
        × (find_ref d' (listed (length d.breakpoints)) ≡ some b)
        × (b.address ≡ address)
        × (b.enabled ≡ true)
        × (d.transient_breakpoints ≡ [] → d'.transient_breakpoints ≡ [])
  unfolding run_to create_breakpoint
  run_to-enabled laws address d =
      let place = listed (length d.breakpoints) in
      let made = (create_breakpoint d address none).1 in
      let (b, at, address_same, on) =
        enable-own laws made place (new_breakpoint address none) true
          (get_elem?-append_length d.breakpoints (new_breakpoint address none) []) in
      let armed = enable made place true in
      let (state, d', runs, frame) =
        Keeps-bind answers (run_threads m fuel) (λ _. internal_wait m fuel m.sigtrap) armed
          (run_threads-Keeps armed) (λ _ k _. wait-Keeps k) in
      (
        state,
        d',
        b,
        runs,
        Frame-found answers frame place ∙ at,
        address_same,
        on,
        (λ e. frame.transient_breakpoints ∙ enable-no_transient made place true e),
      )

  -- What is enabled again behind the wait is not the new breakpoint.
  finish_step_over-keeps :
      (r : Option BreakpointRef) (state : ProcessRunState) (d : Debugger m) (q : BreakpointRef)
      → ((p : BreakpointRef) → r ≡ some p → p ≢ q)
      → d.transient_breakpoints ≡ []
      → (done : Bool) × (d' : Debugger m) × (finish_step_over m fuel r state d ≡ some (done, d'))
        × (find_ref d' q ≡ find_ref d q)
  unfolding finish_step_over delete_breakpoints
  finish_step_over-keeps r state d q apart empty = elim (Bool-cases (is_stopped state)) [
    | inr other ↦ (false, d, rw (other, finish_step_over), refl)
    | inl stops ↦
        let k = enable_found m fuel d r in
        let (empty', same) = again r apart in
        (
          true,
          record k { transient_breakpoints = [] },
          rw (stops, empty', finish_step_over, delete_breakpoints),
          find_ref-cong k (record k { transient_breakpoints = [] }) q refl (sym empty') ∙ same,
        )
  ]
    where
      again :
          (r : Option BreakpointRef)
          → ((p : BreakpointRef) → r ≡ some p → p ≢ q)
          → ((enable_found m fuel d r).transient_breakpoints ≡ [])
            × (find_ref (enable_found m fuel d r) q ≡ find_ref d q)
      again none apart = (empty, refl)
      again (some p) apart =
          (enable-no_transient d p true empty, enable-other d p q true (apart p refl))

  get_elem?-length : (bs : List Breakpoint) → get_elem? bs (length bs) ≡ none
  get_elem?-length [] = refl
  get_elem?-length (b ∷ bs) = get_elem?-length bs

  -- The place of the new breakpoint, before it is made, is not that of the one that was found.
  place-new :
      (laws : MemoryLaws m) (d : Debugger m) (r : Option BreakpointRef)
      → ((p : BreakpointRef) → r ≡ some p → (b : Breakpoint) × (find_ref d p ≡ some b))
      → d.transient_breakpoints ≡ []
      → let out = disable_found m fuel d r in
        ((p : BreakpointRef) → r ≡ some p → p ≢ listed (length out.breakpoints))
        × (find_ref d (listed (length out.breakpoints)) ≡ none)
        × (out.transient_breakpoints ≡ [])
  unfolding disable
  place-new laws d none there empty = ((λ p e. absurd (cc)), get_elem?-length d.breakpoints, empty)
  place-new laws d (some r) there empty =
      let out = enable d r false in
      let q = listed (length out.breakpoints) in
      let (b, at) = there r refl in
      let (b', at', _, _) = enable-own laws d r b false at in
      let vacant : find_ref out q ≡ none = get_elem?-length out.breakpoints in
      let apart : r ≢ q = λ e. absurd (cc (at', ap (λ k. find_ref out k) e, vacant)) in
      (
        (λ p e. let same : r ≡ p = cc in subst (λ k. k ≢ q) same apart),
        sym (enable-other d r q false apart) ∙ vacant,
        enable-no_transient d r false empty,
      )

  found-there :
      (d : Debugger m) (eip : ℕ) (p : BreakpointRef)
      → enabled_at m fuel d eip ≡ some p
      → (b : Breakpoint) × (find_ref d p ≡ some b)
  found-there d eip p e = elim (enabled_at-cases answers d eip) [
    | inl off ↦ absurd (cc (e, off))
    | inr (r, b, found, at, _) ↦
        let same : r ≡ p = cc (found, e) in (b, subst (λ k. find_ref d k ≡ some b) same at)
  ]

  -- `stepOver` on a call returns, where no transient breakpoint is listed, and leaves a breakpoint
  -- that was not there before, enabled, behind the call: the list that it empties is not the one to
  -- which it has added its breakpoint.
  pub step_over-leaves :
      (laws : MemoryLaws m) (disassemble : Disassembler) (i : ℕ) (d : Debugger m) {eip : ℕ}
      → eip_of m fuel d i ≡ some eip
      → is_call_instruction disassemble d eip ≡ true
      → d.transient_breakpoints ≡ []
      → (done : Bool) × (d' : Debugger m) × (q : BreakpointRef) × (b : Breakpoint) × (step_over m
            fuel disassemble i d
          ≡ some (done, d'))
        × (find_ref d q ≡ none)
        × (find_ref d' q ≡ some b)
        × (b.enabled ≡ true)
        × (b.address
            ≡ eip
              + get_instruction_length disassemble
                  (disable_found m fuel d (enabled_at m fuel d eip))
                  eip)
  unfolding step_over disable
  step_over-leaves laws disassemble i d {eip} here call empty =
      let r = enabled_at m fuel d eip in
      let out = disable_found m fuel d r in
      let next = eip + get_instruction_length disassemble out eip in
      let q = listed (length out.breakpoints) in
      let (apart, vacant, empty') = place-new laws d r (found-there d eip) empty in
      let (state, d1, b, runs, at1, address_same, on, keeps) = run_to-enabled laws next out in
      let (done, d', runs', same) = finish_step_over-keeps r state d1 q apart (keeps empty') in
      (
        done,
        d',
        q,
        b,
        rw (here, call, step_over)
            (bind_some (run_to m fuel next) (finish_step_over m fuel r) out runs ∙ runs'),
        vacant,
        same ∙ at1,
        on,
        address_same,
      )
