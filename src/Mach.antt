-- ===== src/Mach.antt =====
-- The operating system below the debugger: the Mach calls on the one debugged task and its threads,
-- `waitpid` and `ptrace`. None of it is code of the repository, so it is a parameter of every
-- definition that calls it. `Mach.Laws` states what the code relies on.
pub mod Laws
use rustdbg.Prelude.{ℕ, Bool, Option, List}

-- `kern_return_t`, as far as the code tells its values apart.
pub data Kern : Type 0 where
  success aborted failure : Kern

-- `TH_STATE_…`; `other` is any value that the headers do not name.
pub data ThreadRunState : Type 0 where
  running stopped waiting uninterruptible halted other : ThreadRunState

-- `thread_basic_info`, the fields that the code reads.
pub record ThreadInfo : Type 0 where
  pub run_state : ThreadRunState
  pub suspend_count : ℕ

-- `x86_thread_state32_t`: the registers that the code names, and the others, which it only carries.
pub record ThreadState32 : Type 0 where
  pub esp : ℕ
  pub ebp : ℕ
  pub eip : ℕ
  pub eflags : ℕ
  pub others : List ℕ

-- `x86_thread_state64_t`, which the code only fetches.
pub record ThreadState64 : Type 0 where
  pub registers : List ℕ

-- What `waitpid` answers: a status of the debuggee, EINTR, or another failure.
pub data Wait : Type 0 where
  exited : (code : ℕ) → Wait
  signaled : (signal : ℕ) → Wait
  stopped : (signal : ℕ) → Wait
  unclassified : Wait
  interrupted : Wait
  failed : Wait

pub record Mach : Type 1 where
  pub World : Type 0
  -- `mach_vm_read_overwrite` at an address and a size: the bytes, or none on an error.
  pub vm_read_overwrite : World → ℕ → ℕ → Option (List ℕ)
  -- The calls that answer a Boolean say whether they returned KERN_SUCCESS.
  pub vm_write : World → ℕ → List ℕ → Bool × World
  pub vm_protect : World → ℕ → ℕ → Bool × World
  pub task_threads : World → Option (List ℕ)
  pub vm_deallocate : World → Bool × World
  pub thread_info : World → ℕ → Option ThreadInfo
  pub thread_abort : World → ℕ → World
  pub thread_suspend : World → ℕ → Bool × World
  pub thread_resume : World → ℕ → Bool × World
  pub thread_get_state : World → ℕ → Kern × ThreadState32 × World
  pub thread_get_state64 : World → ℕ → Kern × ThreadState64 × World
  pub thread_set_state : World → ℕ → ThreadState32 → Kern × World
  -- `task_info`, of which the code reads the suspend count.
  pub task_info : World → Option ℕ
  pub task_resume : World → World
  pub pid_for_task : World → Kern × World
  pub waitpid : World → Wait × World
  -- `ptrace(PT_CONTINUE, …, signal)` and the errno behind it.
  pub pt_continue : World → ℕ → ℕ × World
  pub sigtrap : ℕ
