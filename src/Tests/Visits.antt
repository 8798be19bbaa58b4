-- ===== src/Tests/Visits.antt =====
-- Visiting the threads of the task at concrete inputs.
use rustdbg.Prelude.{◌≡◌, Bool, refl, some, [], ◌∷◌, All}
use rustdbg.Mach.Laws.{suspend_count}
use rustdbg.Threads.{set_world}
use rustdbg.Process.Suspend.{IsSuspended}
use rustdbg.Visit.{
  forall_threads, suspend_noncurrent_thread_delegate, resume_noncurrent_thread_delegate,
}
use rustdbg.Visit.Noncurrent.{forall_threads-suspends, forall_threads-resumes}
use rustdbg.Tests.Toy.{ToyWorld}
use rustdbg.Tests.Controls.{calm, calm_suspend, start}

-- The thread 1 is the current one.
forall_threads-suspends_example :
    (w w' : ToyWorld) × (done : Bool) × (calm.vm_deallocate w ≡ (done, w'))
    × (forall_threads calm (suspend_noncurrent_thread_delegate calm 1) start
        ≡ some (done, set_world start w'))
    × All (IsSuspended calm w') (2 ∷ [])
    × (suspend_count calm w' 1 ≡ some 1)
forall_threads-suspends_example =
    forall_threads-suspends calm calm_suspend 1 start (1 ∷ 2 ∷ []) refl ((1, refl), tt)

forall_threads-resumes_example :
    (w w' : ToyWorld) × (done : Bool) × (calm.vm_deallocate w ≡ (done, w'))
    × (forall_threads calm (resume_noncurrent_thread_delegate calm 1) start
        ≡ some (done, set_world start w'))
    × All (λ t. suspend_count calm w' t ≡ some 0) (2 ∷ [])
    × (suspend_count calm w' 1 ≡ some 1)
forall_threads-resumes_example =
    forall_threads-resumes calm_suspend (λ w t c e. refl) 1 start (1 ∷ 2 ∷ []) refl ((1, refl), tt)
