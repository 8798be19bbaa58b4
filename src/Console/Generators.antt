-- ===== src/Console/Generators.antt =====
-- lib/src/test/MDBConsole.cpp: the generators of the completions, which readline calls.
use rustdbg.Prelude.{ℕ, Option, none, some, List, [], ◌∷◌, ◌++◌, ◌==◌, if◌then◌else◌}
use rustdbg.Code.{Symbol, MachFile}
use rustdbg.MbString.{starts_with}
use rustdbg.Console.{MdbCommand, Completion, commands, find_command}

-- `pop` on the static list of a generator: the last value, and the others.
unfoldable pub pop_last : {A : Type 0} → List A → Option (A × List A)
pop_last [] = none
pop_last (x ∷ xs) = elim (pop_last xs) [ none ↦ some (x, []) | some (y, ys) ↦ some (y, x ∷ ys) ]

-- The names of the commands, and of the symbols of all files, that start with the text.
unfoldable pub matching : List (List ℕ) → List ℕ → List (List ℕ)
matching [] text = []
matching (name ∷ names) text =
    if starts_with name text then name ∷ matching names text else matching names text

unfoldable pub command_names : List MdbCommand → List (List ℕ)
command_names [] = []
command_names (c ∷ cs) = c.name ∷ command_names cs

unfoldable pub symbol_names : List Symbol → List (List ℕ)
symbol_names [] = []
symbol_names (s ∷ ss) = s.name ∷ symbol_names ss

unfoldable pub file_symbol_names : List MachFile → List (List ℕ)
file_symbol_names [] = []
file_symbol_names (f ∷ fs) = symbol_names f.symbols ++ file_symbol_names fs

abbrev pub hand_over :
    List (List ℕ) → Option (List ℕ × List (List ℕ)) → Option (List ℕ) × List (List ℕ)
hand_over filled none = (none, filled)
hand_over filled (some (name, rest)) = (some name, rest)

-- A call of a generator, with its static list before and behind it: a call with the state 0 fills
-- the list; each call answers a name, or NULL once the list is empty.
unfoldable pub generate :
    List (List ℕ) → List ℕ → ℕ → List (List ℕ) → Option (List ℕ) × List (List ℕ)
generate names text state static =
    let filled = if state == 0 then matching names text else static in
    hand_over filled (pop_last filled)

unfoldable pub readline_command_generator :
    List ℕ → ℕ → List (List ℕ) → Option (List ℕ) × List (List ℕ)
readline_command_generator text state static = generate (command_names commands) text state static

unfoldable pub readline_symbol_generator :
    List MachFile → List ℕ → ℕ → List (List ℕ) → Option (List ℕ) × List (List ℕ)
readline_symbol_generator files text state static =
    generate (file_symbol_names files) text state static

-- `readlineCommandCompletion`: the generator for the first token of the line.
unfoldable pub completion_of : List (List ℕ) → Completion
completion_of [] = Completion.command
completion_of (token ∷ tokens) = elim (find_command commands token) [
  | none ↦ Completion.command
  | some c ↦ c.completion
]
