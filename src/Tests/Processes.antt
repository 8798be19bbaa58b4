-- ===== src/Tests/Processes.antt =====
-- Suspending and resuming at concrete inputs.
use rustdbg.Prelude.{
  ℕ, ◌≡◌, refl, ◌≢◌, true, none, some, List, [], ◌∷◌, arith, ◌==◌, if◌then◌else◌, All,
}
use rustdbg.Process.{
  mach_resume_thread, mach_suspend_thread, mach_suspend_all_threads, mach_resume_task,
}
use rustdbg.Process.Resume.{Alive}
use rustdbg.Process.Suspend.{IsSuspended}
use rustdbg.Process.Together.{IsResumed, single_thread_runs}
use rustdbg.Tests.Toy.{ToyWorld, toy, toy_suspend}

-- Threads 1 and 2, of which the second is suspended three times; the task is suspended twice.
abbrev world : ToyWorld
world = record {
  memory = λ x. none;
  sealed = true;
  counts = λ t. if t == 1 then some 0 else if t == 2 then some 3 else none;
  ports = 1 ∷ 2 ∷ [];
  task_count = 2;
  registers = λ t. record { esp = 0; ebp = 0; eip = 0; eflags = 0; others = [] };
  waits = [];
}

abbrev ports : List ℕ
ports = 1 ∷ 2 ∷ []

alive : Alive toy_suspend world ports
alive = ((0, refl), ((3, refl), tt))

single_thread_runs_example :
    let single = (mach_resume_thread toy (mach_suspend_all_threads toy world ports) 1).1 in
    (w' : ToyWorld) × (mach_resume_task toy 3 single ≡ some (true, w'))
    × IsResumed toy w' 1
    × (toy.task_info w' ≡ some 0)
    × All (λ u. 1 ≢ u → IsSuspended toy w' u) ports
unfolding mach_suspend_all_threads mach_suspend_thread
single_thread_runs_example =
    single_thread_runs toy_suspend 3 2 1 world 1 ports (omega arith) refl alive refl
