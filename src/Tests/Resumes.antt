-- ===== src/Tests/Resumes.antt =====
-- Resuming at concrete inputs.
use rustdbg.Prelude.{ℕ, zero, suc, ◌<◌, ◌≤◌, ◌≡◌, refl, ap, ◌∙◌, Option, none, some, [], ◌∷◌, arith}
use rustdbg.Mach.{Kern}
use rustdbg.Debugger.{Debugger, listed}
use rustdbg.Breakpoint.{find_breakpoint, find_from, breakpoint_enabled, disable}
use rustdbg.Process.Together.{Resumed}
use rustdbg.Threads.{set_world}
use rustdbg.Threads.Wrap.{IsPatient, PatienceLaws}
use rustdbg.Control.{
  ProcessRunState, internal_wait, enabled_at, resume, is_stopped, single_step, step_off,
}
use rustdbg.Control.Frame.{Frame}
use rustdbg.Control.Wait.{EndsWithin}
use rustdbg.Control.Step.{Responds}
use rustdbg.Control.Off.{Stepped, step_off-Stepped}
use rustdbg.Tests.Controls.{
  start, calm-Responds, calm_memory, calm, calm_patience, calm_suspend, caught, world,
}
use rustdbg.Control.Resume.{IsClear, behind_wait, resume-runs}
use rustdbg.Tests.Toy.{ToyWorld}

-- With more fuel.
IsPatient-more :
    {W A : Type 0} {call : W → Kern × A × W} {n k : ℕ} → IsPatient n call → n ≤ k → IsPatient k call
IsPatient-more p le = record {
  aborts = λ w. p.aborts w;
  below = λ w. omega (arith, p.below w);
  falls = λ w e. p.falls w e;
}

three_patience : PatienceLaws calm 3
three_patience = record {
  get_state = λ t. IsPatient-more (calm_patience.get_state t) (omega arith);
  get_state64 = λ t. IsPatient-more (calm_patience.get_state64 t) (omega arith);
  set_state = λ t s. IsPatient-more (calm_patience.set_state t s) (omega arith);
  find_pid = IsPatient-more calm_patience.find_pid (omega arith);
}

three-EndsWithin : (d : Debugger calm) → EndsWithin calm 3 3 5 d
three-EndsWithin d done d' differs runs = grind (arith, differs)

three-Responds : Responds calm 3
three-Responds = record {
  patience = three_patience;
  suspends = calm_suspend;
  task_bound = λ w e. zero_count e;
  settles = three-EndsWithin;
}
  where
    zero_count : {c : ℕ} → ◌≡◌ {A = Option ℕ} (some 0) (some c) → c < 3
    zero_count e = grind arith

-- The threads are behind the breakpoint and elsewhere.
found_by :
    (x eip : ℕ)
    → ◌≡◌ {A = Option ℕ} (some x) (some eip)
    → enabled_at calm 3 caught x ≡ none
    → enabled_at calm 3 caught eip ≡ none
found_by x eip e off = let same : eip ≡ x = cc e in ap (λ a. enabled_at calm 3 caught a) same ∙ off

caught-IsClear : IsClear 3 caught
unfolding enabled_at find_breakpoint find_from breakpoint_enabled
caught-IsClear zero eip e = found_by 16 eip e refl
caught-IsClear (suc zero) eip e = found_by 0 eip e refl
caught-IsClear (suc (suc i)) eip e = cc e

resume-runs_example :
    (w w' : ToyWorld) × (state : ProcessRunState) × (k : Debugger calm) × Resumed calm_suspend world
      (1 ∷ 2 ∷ [])
      w
    × (internal_wait calm 3 5 (set_world caught w) ≡ some (state, k))
    × Frame caught k
    × (resume calm 3 caught ≡ some (behind_wait 3 state k w'))
resume-runs_example =
    resume-runs 3 three-Responds caught 0 caught-IsClear (omega arith) refl
      ((1, refl), ((1, refl), tt))

-- A thread at the breakpoint, and a wait that ends with a stop.
there : enabled_at calm 1 start 16 ≡ some (listed 0)
unfolding enabled_at find_breakpoint find_from breakpoint_enabled
there = refl

step_off-Stepped_example :
    (state : ProcessRunState) × (k d' : Debugger calm) × (single_step calm 1 0
        (disable start (listed 0))
      ≡ some (state, k))
    × (step_off calm 1 0 16 start ≡ some (tt, d'))
    × Stepped calm-Responds (listed 0) (is_stopped state) start d'
step_off-Stepped_example =
    step_off-Stepped calm-Responds calm_memory 0 1 16 (listed 0) start refl there
