-- ===== src/Tests/Sessions.antt =====
-- A sequence of calls of the debugger at concrete inputs.
use rustdbg.Prelude.{ℕ, ◌≡◌, ap, true, some, [], ◌∷◌, get_elem?}
use rustdbg.Debugger.{Breakpoint, Process, Debugger, listed}
use rustdbg.Breakpoint.{create_breakpoint, enable}
use rustdbg.Breakpoint.Flags.{enable-process}
use rustdbg.Threads.Gather.{ports_of}
use rustdbg.Control.{step}
use rustdbg.Control.Step.{step-SameMarks}
use rustdbg.Session.{Reach, here, next, create, enables, steps}
use rustdbg.Session.History.{Reach-pointers}
use rustdbg.Tests.Controls.{calm, calm_memory, calm-Responds, start, all_calls}

-- A new breakpoint, enabled, and a step over the old one.
abbrev created : Debugger calm
created = (create_breakpoint start 20 (some 3)).1

abbrev ready : Debugger calm
ready = enable created (listed 1) true

ready_thread : get_elem? (ports_of ready.process.threads) 0 ≡ some 1
unfolding create_breakpoint
ready_thread =
    ap (λ (k : Process). get_elem? (ports_of k.threads) 0) (enable-process created (listed 1) true)

abbrev stepped : (d' : Debugger calm) × (step calm 1 0 ready ≡ some (true, d'))
stepped =
    let (d', runs, _) = step-SameMarks calm-Responds calm_memory 0 1 ready ready_thread in
    (d', runs)

abbrev history : Reach calm 1 all_calls start stepped.0
history = next (next (next here (create 20 (some 3))) (enables (listed 1) true)) (steps 0 stepped.1)

Reach-pointers_example :
    ((i p : ℕ)
      → get_elem? (1 ∷ []) i ≡ some p
      → get_elem? (ports_of stepped.0.process.threads) i ≡ some p)
    × ((i : ℕ) (b : Breakpoint)
        → get_elem? start.breakpoints i ≡ some b
        → (b' : Breakpoint) × (get_elem? stepped.0.breakpoints i ≡ some b')
          × (b'.address ≡ b.address)
          × (b'.callback ≡ b.callback))
Reach-pointers_example = Reach-pointers calm 1 all_calls history
