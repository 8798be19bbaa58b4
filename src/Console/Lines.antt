-- ===== src/Console/Lines.antt =====
-- Which lines the loop of the console gets to.
use rustdbg.Prelude.{
  ℕ, ◌<◌, Bool, ◌&&◌, if◌then◌else◌, Option, none, some, List, [], ◌∷◌, ltb, length,
}
use rustdbg.Mach.{Mach}
use rustdbg.Debugger.{Debugger}
use rustdbg.Console.{End, last_command, run_command, run_lines}

-- A line that is not empty, and that the buffer of the last command has room for.
abbrev pub fits : List ℕ → Bool
fits line = ltb 0 (length line) && ltb (length line) 1024

-- The lines in front of the first that does not fit.
abbrev pub fitting : List (List ℕ) → List (List ℕ)
fitting [] = []
fitting (line ∷ lines) = if fits line then line ∷ fitting lines else []

-- The last command, once there is one, is not empty.
abbrev IsKept : Option (List ℕ) → Type 0
IsKept none = Unit {0}
IsKept (some last) = 0 < length last

module _ (m : Mach) (fuel : ℕ) where
  abbrev rest_of : List ℕ → List (List ℕ) → Debugger m → Option (List ℕ) → Option (End × Debugger m)
  rest_of line lines d none = none
  rest_of line lines d (some kept) = run_command m fuel (run_lines m fuel (some kept) lines) line d

  -- A round of the loop, for the line that runs, and the lines behind it.
  abbrev round : Option (List ℕ) → List (List ℕ) → Debugger m → Option (End × Debugger m)
  round none lines d = none
  round (some line) lines d = rest_of line lines d (last_command line)
