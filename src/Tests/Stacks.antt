-- ===== src/Tests/Stacks.antt =====
-- The walk over a stack at concrete inputs.
use rustdbg.Prelude.{
  ◌≤◌, ◌≡◌, refl, true, none, some, [], ◌∷◌, arith, ltb, ◌==◌, if◌then◌else◌, length,
}
use rustdbg.Debugger.{Thread, Debugger, read, unpatch_all}
use rustdbg.Threads.{new_thread}
use rustdbg.Code.{Code}
use rustdbg.Stack.{
  walk, link, previous_code, is_interior_pointer, read_word, previous_frame, update_state,
}
use rustdbg.Stack.Walk.{Innermost, Chain, previous_frame-twelve, update_state-Chain}
use rustdbg.Tests.Toy.{ToyWorld, toy}

-- Two frames at 100 and 200: the saved frame is at offset 12, the return address behind it.
abbrev world : ToyWorld
world = record {
  memory = λ x.
      if x == 112
      then some 200
      else if x == 116
      then some 0x20
      else if ltb x 256
      then some 0
      else none;
  sealed = true;
  counts = λ t. none;
  ports = [];
  task_count = 0;
  registers = λ t. record { esp = 0; ebp = 0; eip = 0; eflags = 0; others = [] };
  waits = [];
}

abbrev thread : Thread
thread = record (new_thread 1) {
  state32 = record { esp = 90; ebp = 100; eip = 0x10; eflags = 0; others = [] };
}

abbrev start : Debugger toy
start = record {
  world = world;
  threads = [];
  breakpoints = [];
  transient_breakpoints = [];
  process = record { running = true; is_64_bit = true; pid = 1; threads = thread ∷ [] };
  executed = [];
}

abbrev code : Code
code = record { files = []; regions = record { address = 0x20; symbol = none; size = 4 } ∷ [] }

previous_frame-twelve_example :
    previous_frame start thread 100 ≡ (read_word start (read_word start 0 100) 112, 12)
previous_frame-twelve_example = previous_frame-twelve start thread 100 (omega arith)

update_state-Chain_example :
    let s = update_state start code thread in
    (length s.frames ≤ 65)
    × Innermost start code thread s.frame s.frames
    × Chain start code thread 0 s.frames
update_state-Chain_example = update_state-Chain start code thread

two_frames : length (update_state start code thread).frames ≡ 2
unfolding update_state walk link previous_frame previous_code is_interior_pointer read_word read
    unpatch_all
two_frames = refl
