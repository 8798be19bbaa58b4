-- ===== src/Report.antt =====
-- What the `logState` calls print of a breakpoint, a thread, the debugger, the process and the symbols:
-- lib/src/MDBBreakpoint.cpp, MDBThread.cpp, MDBDebugger.cpp, MDBProcess.cpp and MDBCode.cpp.
pub mod States
use Prim.Native.Nat.{bit_and}
use rustdbg.Prelude.{
  ℕ, Bool, true, false, not, Option, none, some, List, [], ◌∷◌, ◌++◌, ◌==◌, leb, if◌then◌else◌,
  length,
}
use rustdbg.Mach.{Mach, ThreadRunState}
use rustdbg.Debugger.{Breakpoint, Thread, Debugger}
use rustdbg.Code.{Symbol, MachFile}
use rustdbg.MdbLog.{divider_line, is_tracing, sym_bits}

-- An argument of a format.
pub data Argument : Type 0 where
  number : ℕ → Argument
  text : List ℕ → Argument

-- A line of the log, by the call that prints it.
pub data Line : Type 0 where
  divider : List ℕ → Line
  separator : Line
  breakpoint_line thread_line task_line file_line symbol_line : List Argument → Line

-- The arguments of a format with so many conversions; none where it takes one that is not there.
abbrev pub formatted : ℕ → List Argument → Option (List Argument)
formatted conversions arguments =
    if leb conversions (length arguments) then some arguments else none

abbrev pub yes_or_no : Bool → Argument
yes_or_no true = text (121 ∷ 101 ∷ 115 ∷ [])
yes_or_no false = text (110 ∷ 111 ∷ [])

-- `MDBBreakpoint::logState`, whose format has four conversions.
unfoldable pub log_breakpoint : Breakpoint → Option Line
log_breakpoint b =
    elim (formatted 4 (number b.address ∷ number b.patch ∷ yes_or_no b.enabled ∷ [])) [
      | none ↦ none
      | some arguments ↦ some (breakpoint_line arguments)
    ]

-- `MDBThread::runStateName`.
unfoldable pub run_state_name : Thread → List ℕ
run_state_name t = elim t.info.run_state [
  | ThreadRunState.running ↦ 82 ∷ 85 ∷ 78 ∷ 78 ∷ 73 ∷ 78 ∷ 71 ∷ []
  | ThreadRunState.stopped ↦ 83 ∷ 84 ∷ 79 ∷ 80 ∷ 80 ∷ 69 ∷ 68 ∷ []
  | ThreadRunState.waiting ↦ 87 ∷ 65 ∷ 73 ∷ 84 ∷ 73 ∷ 78 ∷ 71 ∷ []
  | ThreadRunState.uninterruptible ↦
      85 ∷ 78 ∷ 73 ∷ 78 ∷ 84 ∷ 69 ∷ 82 ∷ 82 ∷ 85 ∷ 80 ∷ 84 ∷ 73 ∷ 66 ∷ 76 ∷ 69 ∷ []
  | ThreadRunState.halted ↦ 72 ∷ 65 ∷ 76 ∷ 84 ∷ 69 ∷ 68 ∷ []
  | ThreadRunState.other ↦ 78 ∷ 85 ∷ 76 ∷ 76 ∷ []
]

-- `MDBThread::logState`.
unfoldable pub log_thread : Thread → Line
log_thread t = thread_line (
    number t.thread
    ∷ number t.info.suspend_count
    ∷ number t.state32.esp
    ∷ number t.state32.ebp
    ∷ number t.state32.eip
    ∷ yes_or_no (not (bit_and t.state32.eflags 0x100 == 0))
    ∷ [])

unfoldable pub log_breakpoints : List Breakpoint → Option (List Line)
log_breakpoints [] = some []
log_breakpoints (b ∷ bs) = elim (log_breakpoint b) [
  | none ↦ none
  | some line ↦ elim (log_breakpoints bs) [ none ↦ none | some lines ↦ some (line ∷ lines) ]
]

unfoldable pub log_threads : List Thread → List Line
log_threads [] = []
log_threads (t ∷ ts) = log_thread t ∷ log_threads ts

-- The lines between two dividers.
abbrev pub framed : List ℕ → Option (List Line) → Option (List Line)
framed title none = none
framed title (some lines) =
    some (divider (divider_line (some title)) ∷ (lines ++ divider (divider_line none) ∷ []))

module _ {m : Mach} where
  -- `MDBDebugger::logState`; none where a format has too few arguments.
  unfoldable pub log_state : Debugger m → List ℕ → Option (List Line)
  log_state d name =
      framed
        ((100 ∷ 101 ∷ 98 ∷ 117 ∷ 103 ∷ 103 ∷ 101 ∷ 114 ∷ 32 ∷ 115 ∷ 116 ∷ 97 ∷ 116 ∷ 101 ∷ 58 ∷ 32
            ∷ [])
          ++ name)
        (log_breakpoints d.breakpoints)

  -- `MDBProcess::logExecutionState`; where `task_info` fails, the count is what the stack holds.
  unfoldable pub log_execution_state : Debugger m → (task junk : ℕ) → List ℕ → List Line
  log_execution_state d task junk name =
      let count : ℕ = elim (m.task_info d.world) [ none ↦ junk | some c ↦ c ] in
      divider (
        divider_line (
          some (
            (101 ∷ 120 ∷ 101 ∷ 99 ∷ 117 ∷ 116 ∷ 105 ∷ 111 ∷ 110 ∷ 32 ∷ 115 ∷ 116 ∷ 97 ∷ 116 ∷ 101
              ∷ 58 ∷ 32 ∷ [])
            ++ name)))
      ∷ task_line (number task ∷ number count ∷ [])
      ∷ (log_threads d.process.threads ++ divider (divider_line none) ∷ [])

-- `MDBCode::logState`: a line of `=`, the file and its symbols.
unfoldable pub log_symbols : List Symbol → List Line
log_symbols [] = []
log_symbols (s ∷ ss) = symbol_line (number s.address ∷ text s.name ∷ []) ∷ log_symbols ss

unfoldable pub log_files : List MachFile → List Line
log_files [] = []
log_files (f ∷ fs) =
    separator
    ∷ file_line (text f.file_name ∷ number (length f.symbols) ∷ [])
    ∷ (log_symbols f.symbols ++ log_files fs)

unfoldable pub log_code : (mask : ℕ) → List MachFile → List Line
log_code mask files = if is_tracing mask sym_bits then log_files files else []
