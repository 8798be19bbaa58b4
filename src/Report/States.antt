-- ===== src/Report/States.antt =====
-- What the log shows of the breakpoints and of the threads.
use rustdbg.Prelude.{ℕ, ◌≡◌, refl, ◌≢◌, ◌↔◌, none, List, [], ◌∷◌}
use rustdbg.Mach.{Mach}
use rustdbg.Debugger.{Breakpoint, Debugger}
use rustdbg.Report.{log_breakpoint, log_breakpoints, log_state}

module _ {m : Mach} where
  -- `MDBDebugger::logState` prints exactly where there is no breakpoint: the line of a breakpoint
  -- takes an argument that the call does not give.
  pub log_state_iff :
      (d : Debugger m) (name : List ℕ) → log_state d name ≢ none ↔ d.breakpoints ≡ []
  unfolding log_state log_breakpoints log_breakpoint
  log_state_iff d name = go d.breakpoints
    where
      go : (bs : List Breakpoint) → log_state (record d { breakpoints = bs }) name ≢ none ↔ bs ≡ []
      go [] = ((λ _. refl), (λ _ e. cc))
      go (b ∷ bs) = ((λ prints. absurd (prints refl)), (λ e. absurd (cc)))
