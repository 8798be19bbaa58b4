-- ===== src/Console.antt =====
-- lib/src/test/MDBConsole.cpp: the console of the debugger. A line is the list of its characters, without
-- the closing zero; the lines that readline gives are the input, and its end is where readline answers
-- NULL. `none` is a run that has not returned, or one that leaves what C++ defines.
pub mod Generators
pub mod Lines
pub mod Complete
pub mod Sound
use rustdbg.Prelude.{
  ℕ, Bool, ◌||◌, Option, none, some, List, [], ◌∷◌, ltb, ◌==◌, if◌then◌else◌, length,
}
use rustdbg.Mach.{Mach}
use rustdbg.Debugger.{Debugger, Run, pure, ◌>>◌}
use rustdbg.MachReader.{Layout}
use rustdbg.Attach.{MemoryMap, Region}
use rustdbg.Code.{MachFile, Binaries, strcmp_equal, load_symbols}
use rustdbg.Control
use rustdbg.Launch.{System, Outcome, no_process, with_process, new_debugger, create_process}

-- The methods that the commands call, and the generators of their completions.
pub data Callback : Type 0 where
  quit info print_back_trace resume step profile : Callback

pub data Completion : Type 0 where
  command symbol : Completion

-- `MDBCommand`.
pub record MdbCommand : Type 0 where
  pub name : List ℕ
  pub short_name : List ℕ
  pub callback : Callback
  pub completion : Completion

-- The commands of the constructor, in order.
unfoldable pub commands : List MdbCommand
commands =
    record {
      name = 113 ∷ 117 ∷ 105 ∷ 116 ∷ [];
      short_name = 113 ∷ [];
      callback = Callback.quit;
      completion = Completion.command;
    }
    ∷ record {
      name = 105 ∷ 110 ∷ 102 ∷ 111 ∷ [];
      short_name = 105 ∷ [];
      callback = Callback.info;
      completion = Completion.command;
    }
    ∷ record {
      name = 105 ∷ 110 ∷ 102 ∷ 111 ∷ 45 ∷ 115 ∷ 121 ∷ 109 ∷ 98 ∷ 111 ∷ 108 ∷ 115 ∷ [];
      short_name = 105 ∷ 115 ∷ [];
      callback = Callback.info;
      completion = Completion.command;
    }
    ∷ record {
      name =
          112 ∷ 114 ∷ 105 ∷ 110 ∷ 116 ∷ 45 ∷ 98 ∷ 97 ∷ 99 ∷ 107 ∷ 45 ∷ 116 ∷ 114 ∷ 97 ∷ 99 ∷ 101
          ∷ [];
      short_name = 105 ∷ 115 ∷ [];
      callback = Callback.print_back_trace;
      completion = Completion.command;
    }
    ∷ record {
      name = 114 ∷ 101 ∷ 115 ∷ 117 ∷ 109 ∷ 101 ∷ [];
      short_name = 114 ∷ [];
      callback = Callback.resume;
      completion = Completion.command;
    }
    ∷ record {
      name = 115 ∷ 116 ∷ 101 ∷ 112 ∷ [];
      short_name = 115 ∷ 105 ∷ [];
      callback = Callback.step;
      completion = Completion.command;
    }
    ∷ record {
      name = 98 ∷ 114 ∷ 101 ∷ 97 ∷ 107 ∷ [];
      short_name = 98 ∷ [];
      callback = Callback.step;
      completion = Completion.symbol;
    }
    ∷ record {
      name = 112 ∷ 114 ∷ 111 ∷ 102 ∷ 105 ∷ 108 ∷ 101 ∷ [];
      short_name = 112 ∷ [];
      callback = Callback.profile;
      completion = Completion.command;
    }
    ∷ []

unfoldable pub matches : MdbCommand → List ℕ → Bool
matches c line = strcmp_equal line c.short_name || strcmp_equal line c.name

-- The loop of `runCommand`: the callback of the first command that matches.
unfoldable pub find_callback : List MdbCommand → List ℕ → Option Callback
find_callback [] line = none
find_callback (c ∷ cs) line = if matches c line then some c.callback else find_callback cs line

-- `findCommand`.
unfoldable pub find_command : List MdbCommand → List ℕ → Option MdbCommand
find_command [] name = none
find_command (c ∷ cs) name = if strcmp_equal c.name name then some c else find_command cs name

-- How the program ends: by `exit(0)`, or by a return from `run`.
pub data End : Type 0 where
  exits returns : End

-- `strcpy(line, lastCommand)`, into the buffer that readline has allocated for an empty line, which has
-- room for the closing zero only. The last command is not initialised at first.
abbrev pub copy_last : Option (List ℕ) → Option (List ℕ)
copy_last none = none
copy_last (some last) = if ltb (length last) 1 then some last else none

-- The line that runs: the last command is put in the place of an empty one.
abbrev pub line_or_last : Option (List ℕ) → List ℕ → Option (List ℕ)
line_or_last last line = if length line == 0 then copy_last last else some line

-- `strcpy(lastCommand, line)`, whose room is 1024 bytes.
abbrev pub last_command : List ℕ → Option (List ℕ)
last_command line = if ltb (length line) 1024 then some line else none

module _ (m : Mach) (fuel : ℕ) where
  -- Behind a command: the loop goes on while the process is running.
  unfoldable pub check_running : Run m End → Run m End
  check_running again d = if d.process.running then again d else some (returns, d)

  -- The command methods; what they print and a sample of the task leave the state alone.
  unfoldable pub run_callback : Run m End → Callback → Run m End
  run_callback again Callback.quit = pure exits
  run_callback again Callback.info = check_running again
  run_callback again Callback.print_back_trace = check_running again
  run_callback again Callback.resume = Control.resume m fuel >> check_running again
  run_callback again Callback.step = Control.step m fuel 0 >> check_running again
  run_callback again Callback.profile = check_running again

  -- `runCommand`, with the message where no command matches.
  unfoldable pub run_command : Run m End → List ℕ → Run m End
  run_command again line = elim (find_callback commands line) [
    | none ↦ check_running again
    | some c ↦ run_callback again c
  ]

  -- The loop of `run`.
  unfoldable pub run_lines : Option (List ℕ) → List (List ℕ) → Run m End
  run_lines last [] d = none
  run_lines last (line ∷ lines) d = elim (line_or_last last line) [
    | none ↦ none
    | some command_line ↦ elim (last_command command_line) [
      | none ↦ none
      | some kept ↦ run_command (run_lines (some kept) lines) command_line d
    ]
  ]

  -- Where there is no process, each command but `quit` leads to a null pointer.
  unfoldable pub run_unattached : List (List ℕ) → Option End
  run_unattached [] = none
  run_unattached (line ∷ lines) = elim (line_or_last none line) [
    | none ↦ none
    | some command_line ↦ elim (last_command command_line) [
      | none ↦ none
      | some kept ↦ elim (find_callback commands command_line) [
        | none ↦ none
        | some Callback.quit ↦ some exits
        | some _ ↦ none
      ]
    ]
  ]

  -- What `run` leaves: how it ends, the debugger if it has a process, and the files of its symbols.
  pub record Left : Type 0 where
    pub end : End
    pub debugger : Option (Debugger m)
    pub files : List MachFile

  abbrev pub unattached_left : List MachFile → Option End → Option Left
  unattached_left files none = none
  unattached_left files (some end) = some (record { end = end; debugger = none; files = files })

  abbrev pub attached_left : List MachFile → Option (End × Debugger m) → Option Left
  attached_left files none = none
  attached_left files (some (end, d)) =
      some (record { end = end; debugger = some d; files = files })

  -- Behind `createProcess` and `loadSymbols`, whose answers are not used.
  abbrev pub run_outcome : List (List ℕ) → List MachFile → Outcome m → Option Left
  run_outcome lines files (no_process answer w) = unattached_left files (run_unattached lines)
  run_outcome lines files (with_process answer d) = attached_left files (run_lines none lines d)

  module _ (s : System m) (k : MemoryMap m) (l : Layout) (junk : Region) (on_library_loaded : ℕ)
      (parse : Binaries) where
    unfoldable pub run : (depth : ℕ) → List ℕ → List (List ℕ) → m.World → Option Left
    run depth file_name lines w =
        elim (create_process s k l fuel junk on_library_loaded new_debugger w) [
          | none ↦ none
          | some outcome ↦ elim (load_symbols parse depth [] file_name) [
            | none ↦ none
            | some (_, files) ↦ run_outcome lines files outcome
          ]
        ]
