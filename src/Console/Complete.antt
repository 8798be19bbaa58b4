-- ===== src/Console/Complete.antt =====
-- What readline gets from the completion generators.
use rustdbg.Prelude.{
  ℕ, zero, suc, ◌+◌, ◌<◌, ◌≡◌, refl, sym, ap, ◌∙◌, false, Option, none, some, List, [], ◌∷◌, ◌++◌,
  arith, ◌==◌, if_false, length, length-append,
}
use mathlib.Core.Option
use rustdbg.MbString.{reverse}
use rustdbg.MbString.Trim.{reverse-append}
use rustdbg.Code.{MachFile}
use rustdbg.Console.{commands}
use rustdbg.Console.Generators.{
  pop_last, matching, generate, hand_over, command_names, file_symbol_names,
  readline_command_generator, readline_symbol_generator,
}

-- A generator, as `rl_completion_matches` calls it.
abbrev pub Generator : Type 0
Generator = List ℕ → ℕ → List (List ℕ) → Option (List ℕ) × List (List ℕ)

-- The calls of `rl_completion_matches` from a state on: the names up to NULL, on fuel.
abbrev pub collect : Generator → List ℕ → (calls state : ℕ) → List (List ℕ) → Option (List (List ℕ))
collect generator text zero state static = none
collect generator text (suc calls) state static =
    let (answer, rest) = generator text state static in
    elim answer [
      | none ↦ some []
      | some name ↦
          Option.map (λ names. name ∷ names) (collect generator text calls (state + 1) rest)
    ]

data Popped (xs : List (List ℕ)) : Type 0 where
  empty : xs ≡ [] → pop_last xs ≡ none → Popped xs
  popped :
      (x : List ℕ) (init : List (List ℕ))
      → xs ≡ init ++ x ∷ []
      → pop_last xs ≡ some (x, init)
      → Popped xs

pop_last-Popped : (xs : List (List ℕ)) → Popped xs
unfolding pop_last
pop_last-Popped [] = empty refl refl
pop_last-Popped (x ∷ xs) = elim (pop_last-Popped xs) [
  | empty e p ↦ popped x [] (ap (λ ys. x ∷ ys) e) (rw (p, pop_last) refl)
  | popped y init e p ↦ popped y (x ∷ init) (ap (λ ys. x ∷ ys) e) (rw (p, pop_last) refl)
]

module _ (names : List (List ℕ)) where
  abbrev answered :
      List ℕ → (calls state : ℕ) → Option (List ℕ) × List (List ℕ) → Option (List (List ℕ))
  answered text calls state (none, rest) = some []
  answered text calls state (some name, rest) =
      Option.map (λ found. name ∷ found) (collect (generate names) text calls (state + 1) rest)

  collect-answered :
      (text : List ℕ) (calls state : ℕ) (static : List (List ℕ))
      → collect (generate names) text (suc calls) state static
        ≡ answered text calls state (generate names text state static)
  collect-answered text calls state static = go (generate names text state static)
    where
      go :
          (p : Option (List ℕ) × List (List ℕ))
          → elim p.0 [
            | none ↦ some []
            | some name ↦
                Option.map
                  (λ found. name ∷ found)
                  (collect (generate names) text calls (state + 1) p.1)
          ]
            ≡ answered text calls state p
      go (none, rest) = refl
      go (some name, rest) = refl

  -- The calls drain a list from its end, whatever it has been filled with.
  drain :
      (text : List ℕ) (calls state : ℕ) (static filled : List (List ℕ))
      → generate names text state static ≡ hand_over filled (pop_last filled)
      → length filled < calls
      → collect (generate names) text calls state static ≡ some (reverse filled)
  unfolding generate
  drain text zero state static filled first enough = absurd (omega arith)
  drain text (suc calls) state static filled first enough = elim (pop_last-Popped filled) [
    | empty e p ↦
        collect-answered text calls state static
        ∙ ap (answered text calls state) (first ∙ ap (hand_over filled) p)
        ∙ ap (λ xs. some (reverse xs)) (sym e)
    | popped x init e p ↦
        let shorter : length init < calls =
          omega (arith, enough, ap length e, length-append init (x ∷ [])) in
        let later : (state + 1 == 0) ≡ false = ground arith in
        collect-answered text calls state static
        ∙ ap (answered text calls state) (first ∙ ap (hand_over filled) p)
        ∙ ap (Option.map (λ found. x ∷ found)) (
            drain text calls (state + 1) init init
              (ap (λ xs. hand_over xs (pop_last xs)) (if_false _ _ later)) shorter)
        ∙ ap some (sym (ap reverse e ∙ reverse-append init (x ∷ [])))
  ]

  -- From the state 0 on, whatever the static list holds.
  generate-collect :
      (text : List ℕ) (calls : ℕ) (static : List (List ℕ))
      → length (matching names text) < calls
      → collect (generate names) text calls 0 static ≡ some (reverse (matching names text))
  unfolding generate
  generate-collect text calls static enough =
      drain text calls 0 static (matching names text) refl enough

-- readline gets from the generator of the commands every command that starts with the text, once for
-- each place in the table, in the order from the last to the first, and then NULL; whatever the static
-- list holds from an earlier completion.
pub readline_command_generator-collect :
    (text : List ℕ) (calls : ℕ) (static : List (List ℕ))
    → length (matching (command_names commands) text) < calls
    → collect readline_command_generator text calls 0 static
      ≡ some (reverse (matching (command_names commands) text))
unfolding readline_command_generator
readline_command_generator-collect text calls static enough =
    generate-collect (command_names commands) text calls static enough

-- The same for the generator of the symbols, over the symbols of all files.
pub readline_symbol_generator-collect :
    (files : List MachFile) (text : List ℕ) (calls : ℕ) (static : List (List ℕ))
    → length (matching (file_symbol_names files) text) < calls
    → collect (readline_symbol_generator files) text calls 0 static
      ≡ some (reverse (matching (file_symbol_names files) text))
unfolding readline_symbol_generator
readline_symbol_generator-collect files text calls static enough =
    generate-collect (file_symbol_names files) text calls static enough
