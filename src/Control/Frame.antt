-- ===== src/Control/Frame.antt =====
-- What the calls of the debugger leave alone: the breakpoints, and the threads in their places.
use rustdbg.Prelude.{ℕ, zero, suc, ◌≡◌, refl, ◌∙◌, some, List, [], ◌∷◌, get_elem?}
use rustdbg.Mach.{Mach}
use rustdbg.Debugger.{Thread, Debugger}
use rustdbg.Threads.{set_world}
use rustdbg.Threads.Gather.{ports_of}

-- Between two states the breakpoints have not changed, and each thread is still at its place.
pub record Frame {m : Mach} (d d' : Debugger m) : Type 0 where
  pub breakpoints : d'.breakpoints ≡ d.breakpoints
  pub transient_breakpoints : d'.transient_breakpoints ≡ d.transient_breakpoints
  pub executed : d'.executed ≡ d.executed
  pub threads :
      (i p : ℕ)
      → get_elem? (ports_of d.process.threads) i ≡ some p
      → get_elem? (ports_of d'.process.threads) i ≡ some p

module _ {m : Mach} where
  pub Frame-refl : (d : Debugger m) → Frame d d
  Frame-refl d = record {
    breakpoints = refl;
    transient_breakpoints = refl;
    executed = refl;
    threads = λ i p at. at;
  }

  pub Frame-trans : {d d' d'' : Debugger m} → Frame d d' → Frame d' d'' → Frame d d''
  Frame-trans f g = record {
    breakpoints = g.breakpoints ∙ f.breakpoints;
    transient_breakpoints = g.transient_breakpoints ∙ f.transient_breakpoints;
    executed = g.executed ∙ f.executed;
    threads = λ i p at. g.threads i p (f.threads i p at);
  }

  -- The world is not part of it.
  pub Frame-world :
      (d : Debugger m) (w : m.World) {d' : Debugger m} → Frame (set_world d w) d' → Frame d d'
  Frame-world d w f = record {
    breakpoints = f.breakpoints;
    transient_breakpoints = f.transient_breakpoints;
    executed = f.executed;
    threads = λ i p at. f.threads i p at;
  }

pub thread_at :
    (ts : List Thread) (i p : ℕ)
    → get_elem? (ports_of ts) i ≡ some p
    → (t : Thread) × (get_elem? ts i ≡ some t) × (t.thread ≡ p)
thread_at [] i p e = cc
thread_at (t ∷ ts) zero p e = (t, refl, cc)
thread_at (t ∷ ts) (suc i) p e = thread_at ts i p e
