-- ===== src/Tests/Consoles.antt =====
-- The console at concrete inputs.
use rustdbg.Prelude.{ℕ, ◌≡◌, refl, none, some, List, [], ◌∷◌, arith, length}
use rustdbg.Code.{Binaries, strcmp_equal}
use rustdbg.Console.{
  Callback, exits, commands, matches, find_callback, check_running, run_callback, run_command,
  run_lines, run,
}
use rustdbg.Console.Generators.{matching, command_names, readline_command_generator}
use rustdbg.Console.Complete.{collect, readline_command_generator-collect}
use rustdbg.Console.Sound.{LeftSound, run-LeftSound}
use rustdbg.MbString.{reverse, starts_with, strstr, is_prefix}
use rustdbg.Tests.Files.{layout}
use rustdbg.Tests.Controls.{calm, start, world}
use rustdbg.Tests.Attaches.{memory_map, junk}
use rustdbg.Tests.Launches.{granting}

-- `i`, `q`, and an empty line.
abbrev lines : List (List ℕ)
lines = (105 ∷ []) ∷ (113 ∷ []) ∷ [] ∷ []

-- An empty line behind a command.
overruns : run_lines calm 1 none ((105 ∷ []) ∷ [] ∷ (113 ∷ []) ∷ []) start ≡ none
unfolding run_lines run_command find_callback matches strcmp_equal commands run_callback
    check_running
overruns = refl

quits : run_lines calm 1 none lines start ≡ some (exits, start)
unfolding run_lines run_command find_callback matches strcmp_equal commands run_callback
    check_running
quits = refl

-- No file can be parsed.
abbrev no_binaries : Binaries
no_binaries name = none

run-LeftSound_example :
    LeftSound calm 2
      (run calm 2 granting memory_map layout junk 9 no_binaries 1 (97 ∷ []) lines world)
run-LeftSound_example =
    run-LeftSound calm 2 granting memory_map layout junk 9 no_binaries 1 (97 ∷ []) lines world

two_names : length (matching (command_names commands) (105 ∷ 110 ∷ [])) ≡ 2
unfolding matching command_names commands starts_with strstr is_prefix
two_names = refl

-- `in`, with names left over from an earlier completion.
readline_command_generator-collect_example :
    collect readline_command_generator (105 ∷ 110 ∷ []) 9 0 ((113 ∷ []) ∷ [])
    ≡ some (reverse (matching (command_names commands) (105 ∷ 110 ∷ [])))
readline_command_generator-collect_example =
    readline_command_generator-collect (105 ∷ 110 ∷ []) 9 ((113 ∷ []) ∷ [])
      (omega (arith, two_names))

-- The short name of `print-back-trace` is taken by `info-symbols`, and `break` steps.
shadowed : find_callback commands (105 ∷ 115 ∷ []) ≡ some Callback.info
unfolding find_callback matches strcmp_equal commands
shadowed = refl

break_steps : find_callback commands (98 ∷ 114 ∷ 101 ∷ 97 ∷ 107 ∷ []) ≡ some Callback.step
unfolding find_callback matches strcmp_equal commands
break_steps = refl
