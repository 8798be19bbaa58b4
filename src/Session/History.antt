-- ===== src/Session/History.antt =====
-- What holds behind any sequence of calls of the debugger.
use rustdbg.Prelude.{
  ℕ, ◌+◌, ◌≡◌, refl, sym, ◌∙◌, inl, inr, true, Option, none, some, List, [], ◌∷◌, if_true, if_false,
  Bool-cases, Option-cases, get_elem?,
}
use rustdbg.Mach.{Mach}
use rustdbg.Debugger.{Breakpoint, Debugger, BreakpointRef, ◌>>=◌, ◌>>◌, write}
use rustdbg.Breakpoint.{create_breakpoint, delete_breakpoints}
use rustdbg.Disassembler.{Disassembler}
use rustdbg.Code.{is_call_instruction, get_instruction_length}
use rustdbg.Control.{
  ProcessRunState, is_stopped, ports, internal_wait, eip_of, enabled_at, disable_found,
  enable_found,
}
use rustdbg.Over.{finish_step_over, resume_all_threads_and_task, run_threads, run_to, step_over}
use rustdbg.Session.{
  IsSound, Onward, Call, create, enables, writes, gathers, waits, steps, steps_over, single_steps,
  resumes, passes, Reach, here, next,
}
use rustdbg.Session.Post.{
  After-Onward, Keeps, Keeps-bind, Onward-refl, Onward-trans, Onward-world, After-returned,
}
use rustdbg.Session.Keeps.{enable-Onward, create_breakpoint-Onward, gather_threads-Keeps}
use rustdbg.Session.Calls.{
  internal_wait-Keeps, enable_single_step-Keeps, disable_found-Onward, enable_found-Onward,
}
use rustdbg.Threads.Gather.{ports_of}
use rustdbg.Session.Resume.{step-Keeps, resume-Keeps, answered}

delete_breakpoints-empty :
    (bs : List Breakpoint) {left : List Breakpoint} → delete_breakpoints bs ≡ some left → left ≡ []
unfolding delete_breakpoints
delete_breakpoints-empty [] e = cc
delete_breakpoints-empty (b ∷ bs) e = elim (Bool-cases b.enabled) [
  | inl on ↦ absurd (cc (if_true none (delete_breakpoints bs) on, e))
  | inr off ↦ delete_breakpoints-empty bs (sym (if_false none (delete_breakpoints bs) off) ∙ e)
]

module _ (m : Mach) (fuel : ℕ) where
  -- What is left of the transient breakpoints is the empty list.
  emptied-Onward :
      (d : Debugger m) (bs : List Breakpoint)
      → bs ≡ []
      → Onward d (record d { transient_breakpoints = bs })
  emptied-Onward d bs e = record {
    sound = λ s. record {
      no_transient = e;
      no_threads = s.no_threads;
      wide = s.wide;
      distinct = s.distinct;
    };
    threads = λ i p at. at;
    breakpoints = λ i b at. (b, at, refl, refl);
  }

  finish_step_over-Keeps :
      (r : Option BreakpointRef) (state : ProcessRunState) → Keeps (finish_step_over m fuel r state)
  unfolding finish_step_over
  finish_step_over-Keeps r state d = elim (Bool-cases (is_stopped state)) [
    | inr off ↦ rw (off, finish_step_over) (Onward-refl d)
    | inl on ↦
        let d' = enable_found m fuel d r in
        elim (Option-cases (delete_breakpoints d'.transient_breakpoints)) [
          | inl e ↦ rw (on, finish_step_over, e) tt
          | inr (bs, e) ↦
              rw (on, finish_step_over, e)
                (Onward-trans (enable_found-Onward m fuel d r)
                  (emptied-Onward d' bs (delete_breakpoints-empty d'.transient_breakpoints e)))
        ]
  ]

  run_to-Keeps : (address : ℕ) → Keeps (run_to m fuel address)
  unfolding run_to run_threads
  run_to-Keeps address d =
      let b = (create_breakpoint d address none).0 in
      let d' = (create_breakpoint d address none).1 in
      After-Onward (do run_threads m fuel; internal_wait m fuel m.sigtrap)
        (Onward-trans (create_breakpoint-Onward d address none) (enable-Onward d' b true))
        (Keeps-bind (run_threads m fuel) _
          (λ k. answered m fuel k (resume_all_threads_and_task m fuel k.world (ports k.threads)))
          (λ _. internal_wait-Keeps m fuel m.sigtrap))

  step_over-Keeps : (disassemble : Disassembler) (i : ℕ) → Keeps (step_over m fuel disassemble i)
  unfolding step_over
  step_over-Keeps disassemble i d = elim (Option-cases (eip_of m fuel d i)) [
    | inl e ↦ rw (e, step_over) tt
    | inr (eip, e) ↦
        let r = enabled_at m fuel d eip in
        let out = disable_found m fuel d r in
        let following = eip + get_instruction_length disassemble out eip in
        elim (Bool-cases (is_call_instruction disassemble d eip)) [
          | inr other ↦ rw (e, other, step_over) (step-Keeps m fuel i d)
          | inl call ↦
              rw (e, call, step_over)
                (After-Onward (run_to m fuel following >>= finish_step_over m fuel r)
                  (disable_found-Onward m fuel d r)
                  (Keeps-bind (run_to m fuel following) (finish_step_over m fuel r)
                    (run_to-Keeps following) (finish_step_over-Keeps r)))
        ]
  ]

  module _ (disassemble : Disassembler) where
    Call-Onward : {d d' : Debugger m} → Call m fuel disassemble d d' → Onward d d'
    unfolding write
    Call-Onward {d} (create address callback) = create_breakpoint-Onward d address callback
    Call-Onward {d} (enables r on) = enable-Onward d r on
    Call-Onward {d} (writes address bytes) = Onward-world d _
    Call-Onward {d} (gathers e) =
        After-returned (λ _ k. Onward d k) _ e (gather_threads-Keeps m fuel d)
    Call-Onward {d} (waits signal e) =
        After-returned (λ _ k. Onward d k) _ e (internal_wait-Keeps m fuel signal d)
    Call-Onward {d} (steps i e) = After-returned (λ _ k. Onward d k) _ e (step-Keeps m fuel i d)
    Call-Onward {d} (steps_over i e) =
        After-returned (λ _ k. Onward d k) _ e (step_over-Keeps disassemble i d)
    Call-Onward {d} (single_steps i on e) =
        After-returned (λ _ k. Onward d k) _ e (enable_single_step-Keeps m fuel i on d)
    Call-Onward {d} (resumes e) = After-returned (λ _ k. Onward d k) _ e (resume-Keeps m fuel d)
    Call-Onward {d} (passes w) = Onward-world d w

    Reach-Onward : {d d' : Debugger m} → Reach m fuel disassemble d d' → Onward d d'
    Reach-Onward {d} here = Onward-refl d
    Reach-Onward (next reached call) = Onward-trans (Reach-Onward reached) (Call-Onward call)

    -- Along any sequence of calls of MDBDebugger.h that have returned, with whatever the system does
    -- between them, from a state in which the lists of MDBDebugger that nothing fills are empty, the
    -- process is marked as 64 bits and its list has no thread twice: all of that still holds.
    pub Reach-IsSound : {d d' : Debugger m} → Reach m fuel disassemble d d' → IsSound d → IsSound d'
    Reach-IsSound reached = (Reach-Onward reached).sound

    -- Along any sequence of calls that have returned, the pointers that were given out stay good: the
    -- thread at a place of the list keeps its place and its port, and the breakpoint at a place of the
    -- list its place, its address and its callback.
    pub Reach-pointers :
        {d d' : Debugger m}
        → Reach m fuel disassemble d d'
        → ((i p : ℕ)
            → get_elem? (ports_of d.process.threads) i ≡ some p
            → get_elem? (ports_of d'.process.threads) i ≡ some p)
          × ((i : ℕ) (b : Breakpoint)
              → get_elem? d.breakpoints i ≡ some b
              → (b' : Breakpoint) × (get_elem? d'.breakpoints i ≡ some b')
                × (b'.address ≡ b.address)
                × (b'.callback ≡ b.callback))
    Reach-pointers reached = let kept = Reach-Onward reached in (kept.threads, kept.breakpoints)
