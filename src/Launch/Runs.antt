-- ===== src/Launch/Runs.antt =====
-- `createProcess` where the system answers, and behind failures.
use rustdbg.Prelude.{
  ℕ, suc, ◌≤◌, ◌≡◌, refl, ap, ◌∙◌, subst, Bool, true, false, ◌&&◌, Option, none, some, List, [],
  ◌==◌, if◌then◌else◌, if_true, if_false, All,
}
use rustdbg.Mach.{Mach}
use rustdbg.Debugger.{Debugger, Thread}
use rustdbg.Disassembler.{Disassembler}
use rustdbg.Threads.Wrap.{PatienceLaws}
use rustdbg.Threads.Gather.{ports_of, learn, has, Distinct, gather_threads-learn}
use rustdbg.MachReader.{Layout}
use rustdbg.Attach.{MemoryMap, Region}
use rustdbg.Attach.Hooks.{new_process, mach_is_64_bit}
use rustdbg.Session.{Reach, IsSound}
use rustdbg.Session.History.{Reach-IsSound}
use rustdbg.Launch.{
  is_answered, status_after, start_process, Status, Fork, Waited, System, Idle, Outcome, no_process,
  with_process, attached, wait_for_child, acquire_taskport_right, after_wait, run_parent,
  after_fork, create_process, with_answer, new_debugger,
}
use rustdbg.Launch.Created.{Started, start_process-gathers, create_process-Started}

module _ {m : Mach} (s : System m) where
  -- Up to the wait: the right is given, and the fork has a child.
  pub record IsForked (w : m.World) (pid : ℕ) (w' : m.World) : Type 0 where
    pub right : (acquire_taskport_right s w).0 ≡ 0
    pub forks : s.fork (acquire_taskport_right s w).1 ≡ (Fork.parent pid, w')

module _ {m : Mach} (s : System m) (k : MemoryMap m) (l : Layout) (fuel : ℕ) (junk : Region)
    (callback : ℕ) where
  create_process-parent :
      (idle : Idle) {w : m.World} {pid : ℕ} {w' : m.World}
      → IsForked s w pid w'
      → create_process s k l fuel junk callback idle w
        ≡ run_parent s k l fuel junk callback idle pid w'
  unfolding create_process
  create_process-parent idle f =
      if_true _ _ (ap (λ right. right == 0) f.right)
      ∙ ap (λ p. after_fork s k l fuel junk callback idle p.0 p.1) f.forks

  wait_for_child-once :
      (n pid : ℕ) (w : m.World) (status : Status) {waited : Waited} {w' : m.World}
      → s.wait_child w pid ≡ (waited, w')
      → (is_answered waited.answer && waited.interrupted) ≡ false
      → wait_for_child s (suc n) pid w status ≡ some (status_after waited.answer status, w')
  unfolding wait_for_child
  wait_for_child-once n pid w status e ends =
      ap
        (λ (p : Waited × m.World).
          if is_answered p.0.answer && p.0.interrupted
          then wait_for_child s n pid p.1 (status_after p.0.answer status)
          else some (status_after p.0.answer status, p.1))
        e
      ∙ if_false _ _ ends

  run_parent-once :
      (n : ℕ) (idle : Idle) (pid : ℕ) (w : m.World) {waited : Waited} {w' : m.World}
      → fuel ≡ suc n
      → s.wait_child w pid ≡ (waited, w')
      → (is_answered waited.answer && waited.interrupted) ≡ false
      → run_parent s k l fuel junk callback idle pid w
        ≡ after_wait s k l fuel junk callback idle pid (status_after waited.answer Status.exited) w'
  unfolding run_parent
  run_parent-once n idle pid w {waited} {w'} e waits ends =
      ap
        (λ o. elim o [
          | none ↦ none
          | some (status, w'') ↦ after_wait s k l fuel junk callback idle pid status w''
        ])
        (ap (λ rounds. wait_for_child s rounds pid w Status.exited) e
          ∙ wait_for_child-once n pid w Status.exited waits ends)

  -- Where the right is given, the first wait answers that the child has stopped and is not interrupted,
  -- its task is found and the task tells its threads,
  -- `createProcess` returns true with the process: running, marked as 64 bits, with the pid of the
  -- child, each thread of the task once and no other, in order, and the breakpoints from before.
  pub create_process-runs :
      {patience n : ℕ} (laws : PatienceLaws m patience) (idle : Idle) {w : m.World} {pid : ℕ}
      {w2 w3 w4 : m.World} (ports : List ℕ)
      → patience ≤ fuel
      → fuel ≡ suc n
      → IsForked s w pid w2
      → s.wait_child w2 pid ≡ (record { answer = some Status.stopped; interrupted = false }, w3)
      → s.task_for_pid w3 pid ≡ (true, w4)
      → m.task_threads w4 ≡ some ports
      → (w' : m.World) × (ts : List Thread) × (create_process s k l fuel junk callback idle w
          ≡ some (
              with_process true (
                attached idle w'
                  (record { running = true; is_64_bit = true; pid = pid; threads = ts }))))
        × (ports_of ts ≡ learn [] ports)
        × All (λ p. has p (ports_of ts) ≡ true) ports
        × Distinct (ports_of ts)
  unfolding after_wait new_process mach_is_64_bit
  create_process-runs {n = n} laws idle {pid = pid} {w2} {w3} {w4} ports enough e forked waits task
        threads =
      let d = attached idle w4 (new_process pid) in
      let (done, w', ts, runs, learnt, all_there, once) =
        gather_threads-learn m laws fuel enough d ports threads tt in
      (
        w',
        ts,
        create_process-parent idle forked
            ∙ run_parent-once n idle pid w2 e waits refl
            ∙ ap
                (λ (p : Bool × m.World).
                  if p.0
                  then start_process s k l fuel junk callback idle pid p.1
                  else some (no_process true p.1))
                task
            ∙ start_process-gathers s k l fuel junk callback idle pid w4
            ∙ ap with_answer runs,
        learnt,
        all_there,
        once,
      )

  -- A wait that is interrupted before the child has answered is not tried again: `createProcess`
  -- returns false, and leaves the child that it has forked.
  pub create_process-interrupted :
      {n : ℕ} (idle : Idle) {w : m.World} {pid : ℕ} {w2 w3 : m.World}
      → fuel ≡ suc n
      → IsForked s w pid w2
      → s.wait_child w2 pid ≡ (record { answer = none; interrupted = true }, w3)
      → create_process s k l fuel junk callback idle w ≡ some (no_process false w3)
  unfolding after_wait
  create_process-interrupted {n} idle {pid = pid} {w2} e forked waits =
      create_process-parent idle forked ∙ run_parent-once n idle pid w2 e waits refl

  -- Where the child stops and its task cannot be had, `createProcess` answers true with no process.
  pub create_process-untaken :
      {n : ℕ} (idle : Idle) {w : m.World} {pid : ℕ} {w2 w3 w4 : m.World}
      → fuel ≡ suc n
      → IsForked s w pid w2
      → s.wait_child w2 pid ≡ (record { answer = some Status.stopped; interrupted = false }, w3)
      → s.task_for_pid w3 pid ≡ (false, w4)
      → create_process s k l fuel junk callback idle w ≡ some (no_process true w4)
  unfolding after_wait
  create_process-untaken {n} idle {pid = pid} {w2} e forked waits task =
      create_process-parent idle forked
      ∙ run_parent-once n idle pid w2 e waits refl
      ∙ ap
          (λ (p : Bool × m.World).
            if p.0
            then start_process s k l fuel junk callback idle pid p.1
            else some (no_process true p.1))
          task

  created-IsSound :
      (o : Option (Outcome m)) {answer : Bool} {d : Debugger m}
      → Started s k l fuel junk callback o
      → o ≡ some (with_process answer d)
      → IsSound d
  created-IsSound o started e = (subst (Started s k l fuel junk callback) e started).1

  -- From the constructor of the debugger on: whatever the system answers, if `createProcess` returns
  -- with a process, then behind any calls of the debugger that have returned the lists of MDBDebugger
  -- that nothing fills are empty, the process is marked as 64 bits, and its list has no thread twice.
  pub created-Reach-IsSound :
      (disassemble : Disassembler) (w : m.World) {answer : Bool} {d d' : Debugger m}
      → create_process s k l fuel junk callback new_debugger w ≡ some (with_process answer d)
      → Reach m fuel disassemble d d'
      → IsSound d'
  unfolding new_debugger
  created-Reach-IsSound disassemble w e reached = Reach-IsSound m fuel disassemble reached (
      created-IsSound (create_process s k l fuel junk callback new_debugger w)
        (create_process-Started s k l fuel junk callback new_debugger w (refl, refl)) e)
