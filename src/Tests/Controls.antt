-- ===== src/Tests/Controls.antt =====
-- The control of the debuggee at concrete inputs.
use rustdbg.Prelude.{
  ℕ, suc, ◌+◌, ◌<◌, ◌≡◌, refl, Bool, true, Option, none, some, List, [], ◌∷◌, map, arith, ltb, ◌==◌,
  if◌then◌else◌, All, pos,
}
use rustdbg.Mach.{Mach, Wait}
use rustdbg.Mach.Laws.{MemoryLaws, SuspendLaws}
use rustdbg.Debugger.{Thread, Debugger, BreakpointRef, Breakpoint}
use rustdbg.Threads.{gather_threads, mach_update_thread, new_thread, set_world}
use rustdbg.Threads.Wrap.{PatienceLaws, mach_update_thread-ends}
use rustdbg.Threads.Gather.{ports_of, learn, has, Distinct, with_threads, gather_threads-learn}
use rustdbg.Breakpoint.Flags.{SameMarks}
use rustdbg.Control.{
  internal_wait, step, disable_found, enabled_at, check_for_breakpoints_and_step_back,
}
use rustdbg.Control.Wait.{EndsWithin, Waited, internal_wait-Waited}
use rustdbg.Control.Step.{Responds, step-SameMarks}
use rustdbg.Breakpoint.{find_ref, find_breakpoint, find_from, breakpoint_enabled}
use rustdbg.Disassembler.{Disassembler, Mnemonic, OperandType}
use rustdbg.Code.{is_call_instruction, instruction_at, get_instruction_length}
use rustdbg.Over.{step_over}
use rustdbg.Over.Leaves.{step_over-leaves}
use rustdbg.Control.Back.{moved, calls, back, check_for_breakpoints_and_step_back-runs}
use rustdbg.Tests.Toy.{ToyWorld, toy, toy_memory, toy_suspend, toy_patience}

-- A system whose task is never suspended, and whose debuggee always stops by the trap.
abbrev pub calm : Mach
calm = record toy {
  task_info = λ w. some 0;
  task_resume = λ w. w;
  waitpid = λ w. (Wait.stopped 5, w);
}

abbrev pub calm_memory : MemoryLaws calm
calm_memory = record {
  byte = λ w. w.memory;
  read_length = λ w a n e. toy_memory.read_length w a n e;
  read_bytes = λ w a n i e h. toy_memory.read_bytes w a n i e h;
  read_mapped = λ w a e. toy_memory.read_mapped w a e;
  write_at = λ w a b e. toy_memory.write_at w a b e;
  write_other = λ w a b x ne. toy_memory.write_other w a b x ne;
  write_failed = λ w a b x e. toy_memory.write_failed w a b x e;
  protect_keeps = λ w a n x. refl;
  protect_opens = λ w a b e. toy_memory.protect_opens w a b e;
}

pub calm_suspend : SuspendLaws calm
calm_suspend = record {
  abort_keeps = λ w t u. refl;
  suspend_own = λ w t c e. toy_suspend.suspend_own w t c e;
  suspend_other = λ w t u ne. toy_suspend.suspend_other w t u ne;
  resume_own = λ w t c e. toy_suspend.resume_own w t c e;
  resume_other = λ w t u ne. toy_suspend.resume_other w t u ne;
  task_resume_own = λ w c e. absurd (none_left c e);
  task_resume_keeps = λ w u. refl;
  deallocate_keeps = λ w u. refl;
  abort_task = λ w t. refl;
  suspend_task = λ w t. refl;
  resume_task = λ w t. refl;
}
  where
    none_left : (c : ℕ) → ◌≡◌ {A = Option ℕ} (some 0) (some (suc c)) → ⊥
    none_left c e = cc

pub calm_patience : PatienceLaws calm 1
calm_patience = record {
  get_state = λ t. toy_patience.get_state t;
  get_state64 = λ t. toy_patience.get_state64 t;
  set_state = λ t s. toy_patience.set_state t s;
  find_pid = toy_patience.find_pid;
}

calm-EndsWithin : (d : Debugger calm) → EndsWithin calm 1 1 5 d
calm-EndsWithin d done d' differs runs = grind (arith, differs)

pub calm-Responds : Responds calm 1
calm-Responds = record {
  patience = calm_patience;
  suspends = calm_suspend;
  task_bound = λ w e. zero_count e;
  settles = calm-EndsWithin;
}
  where
    zero_count : {c : ℕ} → ◌≡◌ {A = Option ℕ} (some 0) (some c) → c < 1
    zero_count e = grind arith

-- A thread at an enabled breakpoint, and one that the list does not have yet.
abbrev pub world : ToyWorld
world = record {
  memory = λ x. if x == 16 then some 0xcc else if ltb x 64 then some 0x90 else none;
  sealed = true;
  counts = λ t. if ltb t 3 then some 1 else none;
  ports = 1 ∷ 2 ∷ [];
  task_count = 0;
  registers = λ t. record { esp = 0; ebp = 0; eip = 16; eflags = 0; others = [] };
  waits = [];
}

abbrev thread : Thread
thread = record (new_thread 1) {
  state32 = record { esp = 0; ebp = 0; eip = 16; eflags = 0; others = [] };
}

abbrev pub start : Debugger calm
start = record {
  world = world;
  threads = [];
  breakpoints = record { address = 16; patch = 0x90; enabled = true; callback = none } ∷ [];
  transient_breakpoints = [];
  process = record { running = true; is_64_bit = true; pid = 1; threads = thread ∷ [] };
  executed = [];
}

internal_wait-Waited_example : Waited calm 1 (internal_wait calm 1 5) start
internal_wait-Waited_example =
    internal_wait-Waited calm 1 calm_patience (omega arith) 5 start calm-EndsWithin

step-SameMarks_example :
    (d' : Debugger calm) × (step calm 1 0 start ≡ some (true, d')) × SameMarks start d'
step-SameMarks_example = step-SameMarks calm-Responds calm_memory 0 1 start refl

gather_threads-learn_example :
    (done : Bool) × (w : ToyWorld) × (ts : List Thread) × (gather_threads calm 1 start
      ≡ some (done, with_threads start w ts))
    × (ports_of ts ≡ learn (1 ∷ []) (1 ∷ 2 ∷ []))
    × All (λ p. has p (ports_of ts) ≡ true) (1 ∷ 2 ∷ [])
    × Distinct (ports_of ts)
gather_threads-learn_example =
    gather_threads-learn calm calm_patience 1 (omega arith) start (1 ∷ 2 ∷ []) refl (refl, tt)

mach_update_thread-ends_example :
    (t' : Thread) × (w' : ToyWorld) × (mach_update_thread calm 1 thread start
      ≡ some (t', set_world start w'))
    × (t'.thread ≡ 1)
    × (true ≡ true → t'.state32 ≡ thread.state32)
mach_update_thread-ends_example =
    mach_update_thread-ends calm calm_patience 1 thread start (omega arith)

-- Every instruction is a call of five bytes.
abbrev pub all_calls : Disassembler
all_calls buffer pc = record {
  size = 5;
  mnemonic = Mnemonic.call;
  operand_type = OperandType.jimm;
  operand_size = 32;
  sdword = pos 0;
}

step_over-leaves_example :
    (done : Bool) × (d' : Debugger calm) × (q : BreakpointRef) × (b : Breakpoint) × (step_over calm
        1 all_calls 0 start
      ≡ some (done, d'))
    × (find_ref start q ≡ none)
    × (find_ref d' q ≡ some b)
    × (b.enabled ≡ true)
    × (b.address
        ≡ 16
          + get_instruction_length all_calls
              (disable_found calm 1 start (enabled_at calm 1 start 16))
              16)
unfolding is_call_instruction instruction_at
step_over-leaves_example =
    step_over-leaves calm-Responds calm_memory all_calls 0 start refl refl refl

-- A thread one byte behind a breakpoint with a callback, and one that is elsewhere.
abbrev pub caught : Debugger calm
caught = record start {
  breakpoints = record { address = 15; patch = 0x90; enabled = true; callback = some 7 } ∷ [];
  process = record {
    running = true;
    is_64_bit = true;
    pid = 1;
    threads = thread ∷ new_thread 2 ∷ [];
  };
}

check_for_breakpoints_and_step_back-runs_example :
    (w : ToyWorld) × (check_for_breakpoints_and_step_back calm 1 caught
      ≡ some (
        tt,
        moved calm 1 caught w
            (calls calm 1 caught (thread ∷ new_thread 2 ∷ []) [])
            (map (back calm 1 caught) (thread ∷ new_thread 2 ∷ [])),
      ))
check_for_breakpoints_and_step_back-runs_example =
    check_for_breakpoints_and_step_back-runs calm 1 calm_patience (omega arith) caught

caught_once : calls calm 1 caught (thread ∷ new_thread 2 ∷ []) [] ≡ 7 ∷ []
unfolding enabled_at find_breakpoint find_from breakpoint_enabled
caught_once = refl
