-- ===== src/Session.antt =====
-- The calls of MDBDebugger.h that a client makes on a debugged process, as a step relation, and what
-- holds of the state between two of them. A further `createProcess`, which takes another process in
-- place of this one, begins another session.
pub mod Post
pub mod Keeps
pub mod Calls
pub mod Resume
pub mod History
use rustdbg.Prelude.{ℕ, ◌≡◌, Bool, true, Option, some, List, [], get_elem?}
use rustdbg.Mach.{Mach}
use rustdbg.Debugger.{Breakpoint, Debugger, BreakpointRef, write}
use rustdbg.Breakpoint.{create_breakpoint, enable}
use rustdbg.Threads.{gather_threads}
use rustdbg.Threads.Gather.{ports_of, Distinct}
use rustdbg.Disassembler.{Disassembler}
use rustdbg.Control.{ProcessRunState, internal_wait, enable_single_step, step, resume}
use rustdbg.Over.{step_over}

module _ (m : Mach) (fuel : ℕ) (disassemble : Disassembler) where
  -- A call of the debugger that has returned.
  pub data Call (d : Debugger m) : Debugger m → Type 0 where
    create : (address : ℕ) (callback : Option ℕ) → Call d (create_breakpoint d address callback).1
    enables : (r : BreakpointRef) (on : Bool) → Call d (enable d r on)
    writes : (address : ℕ) (bytes : List ℕ) → Call d (write d address bytes).1
    gathers :
        {done : Bool} {d' : Debugger m} → gather_threads m fuel d ≡ some (done, d') → Call d d'
    waits :
        (signal : ℕ) {state : ProcessRunState} {d' : Debugger m}
        → internal_wait m fuel signal d ≡ some (state, d')
        → Call d d'
    steps : (i : ℕ) {done : Bool} {d' : Debugger m} → step m fuel i d ≡ some (done, d') → Call d d'
    steps_over :
        (i : ℕ) {done : Bool} {d' : Debugger m}
        → step_over m fuel disassemble i d ≡ some (done, d')
        → Call d d'
    single_steps :
        (i : ℕ) (on : Bool) {done : Bool} {d' : Debugger m}
        → enable_single_step m fuel i on d ≡ some (done, d')
        → Call d d'
    resumes : {done : Bool} {d' : Debugger m} → resume m fuel d ≡ some (done, d') → Call d d'
    -- Between two calls the system goes on by itself.
    passes : (w : m.World) → Call d (record d { world = w })

  -- Any number of calls.
  pub data Reach (d : Debugger m) : Debugger m → Type 0 where
    here : Reach d d
    next : {k k' : Debugger m} → Reach d k → Call k k' → Reach d k'

-- The state between two calls. The lists of `MDBDebugger` that nothing fills are empty, and the
-- process has each thread once.
pub record IsSound {m : Mach} (d : Debugger m) : Type 0 where
  pub no_transient : d.transient_breakpoints ≡ []
  pub no_threads : d.threads ≡ []
  pub wide : d.process.is_64_bit ≡ true
  pub distinct : Distinct (ports_of d.process.threads)

-- From one state to a later one: the invariant stays, and so does what the pointers that the debugger
-- has given out name, the threads with their ports and the breakpoints with address and callback.
pub record Onward {m : Mach} (d d' : Debugger m) : Type 0 where
  pub sound : IsSound d → IsSound d'
  pub threads :
      (i p : ℕ)
      → get_elem? (ports_of d.process.threads) i ≡ some p
      → get_elem? (ports_of d'.process.threads) i ≡ some p
  pub breakpoints :
      (i : ℕ) (b : Breakpoint)
      → get_elem? d.breakpoints i ≡ some b
      → (b' : Breakpoint) × (get_elem? d'.breakpoints i ≡ some b')
        × (b'.address ≡ b.address)
        × (b'.callback ≡ b.callback)
