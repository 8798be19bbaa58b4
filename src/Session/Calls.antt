-- ===== src/Session/Calls.antt =====
-- Waits, single steps and resuming keep the invariant and what the pointers name.
use rustdbg.Prelude.{
  ℕ, zero, suc, ◌≡◌, refl, inl, inr, Bool, true, false, Option, none, some, ◌==◌, if◌then◌else◌,
  Option-cases, get_elem?,
}
use rustdbg.Mach
use rustdbg.Mach.{Mach}
use rustdbg.Debugger.{Thread, Debugger, BreakpointRef, Run, pure, ◌>>◌}
use rustdbg.Breakpoint.{disable}
use rustdbg.Process.{mach_resume_thread, mach_resume_task, mach_suspend_all_threads}
use rustdbg.Threads.{set_world, setting, wrap_mach, mach_commit_thread, gather_threads}
use rustdbg.Control.{
  ProcessRunState, ports, mach_signal_terminated, continue_with, after_stop, handle_status,
  wait_loop, after_pid, internal_wait, change_thread, with_trap, enable_single_step, port_of,
  disable_found, enable_found, run_only, single_step,
}
use rustdbg.Session.{Onward}
use rustdbg.Session.Post.{
  After, After-Onward, Keeps, Keeps-pure, Keeps-bind, Keeps-if, Onward-refl, Onward-world,
}
use rustdbg.Session.Keeps.{
  Onward-set, enable-Onward, wrap_mach-Keeps, mach_commit_thread-Keeps, gather_threads-Keeps,
}

module _ (m : Mach) (fuel : ℕ) where
  mach_signal_terminated-Onward : (d : Debugger m) → Onward d (mach_signal_terminated m fuel d)
  unfolding mach_signal_terminated
  mach_signal_terminated-Onward d = record {
    sound = λ s. record {
      no_transient = s.no_transient;
      no_threads = s.no_threads;
      wide = s.wide;
      distinct = s.distinct;
    };
    threads = λ i p at. at;
    breakpoints = λ i b at. (b, at, refl, refl);
  }

  gather_then-Keeps : {A : Type 0} (r : Run m A) → Keeps r → Keeps (gather_threads m fuel >> r)
  gather_then-Keeps r p =
      Keeps-bind (gather_threads m fuel) (λ _. r) (gather_threads-Keeps m fuel) (λ _. p)

  continue_with-Keeps :
      (signal : ℕ) (again : Run m ProcessRunState)
      → Keeps again
      → Keeps (continue_with m fuel signal again)
  unfolding continue_with
  continue_with-Keeps signal again p d =
      let (errno, w) = m.pt_continue d.world signal in go (errno == 0) w
    where
      go :
          (fine : Bool) (w : m.World)
          → After
              (λ _ d'. Onward d d')
              (if fine
                then again (set_world d w)
                else (gather_threads m fuel >> pure ProcessRunState.unknown) (set_world d w))
      go true w = After-Onward again (Onward-world d w) p
      go false w =
          After-Onward (gather_threads m fuel >> pure ProcessRunState.unknown) (Onward-world d w)
            (gather_then-Keeps (pure ProcessRunState.unknown) (Keeps-pure ProcessRunState.unknown))

  handle_status-Keeps :
      (wanted : ℕ) (again : Run m ProcessRunState) (status : Mach.Wait)
      → Keeps again
      → Keeps (handle_status m fuel wanted again status)
  unfolding handle_status after_stop
  handle_status-Keeps wanted again Mach.Wait.interrupted p d = p d
  handle_status-Keeps wanted again Mach.Wait.unclassified p d = p d
  handle_status-Keeps wanted again Mach.Wait.failed p d =
      gather_then-Keeps (pure ProcessRunState.unknown) (Keeps-pure ProcessRunState.unknown) d
  handle_status-Keeps wanted again (Mach.Wait.exited code) p d = mach_signal_terminated-Onward d
  handle_status-Keeps wanted again (Mach.Wait.signaled signal) p d =
      gather_then-Keeps (pure ProcessRunState.terminated) (Keeps-pure ProcessRunState.terminated) d
  handle_status-Keeps wanted again (Mach.Wait.stopped signal) p d =
      gather_then-Keeps (after_stop m fuel wanted again signal)
        (Keeps-if (signal == wanted) (pure ProcessRunState.stopped)
          (continue_with m fuel signal again) (Keeps-pure ProcessRunState.stopped)
          (continue_with-Keeps signal again p))
        d

  wait_loop-Keeps : (rounds wanted : ℕ) → Keeps (wait_loop m fuel rounds wanted)
  unfolding wait_loop
  wait_loop-Keeps zero wanted d = tt
  wait_loop-Keeps (suc rounds) wanted d =
      let (status, w) = m.waitpid d.world in
      After-Onward (handle_status m fuel wanted (wait_loop m fuel rounds wanted) status)
        (Onward-world d w)
        (handle_status-Keeps wanted (wait_loop m fuel rounds wanted) status
          (wait_loop-Keeps rounds wanted))

  pub internal_wait-Keeps : (wanted : ℕ) → Keeps (internal_wait m fuel wanted)
  unfolding internal_wait
  internal_wait-Keeps wanted =
      Keeps-bind (wrap_mach m fuel (setting m.pid_for_task)) (after_pid m fuel wanted)
        (wrap_mach-Keeps m fuel (setting m.pid_for_task)) after
    where
      after : (r : Option (Unit {0})) → Keeps (after_pid m fuel wanted r)
      after none = Keeps-pure ProcessRunState.unknown
      after (some _) = wait_loop-Keeps fuel wanted

  pub change_thread-Keeps :
      (i : ℕ) (f : Thread → Thread)
      → ((t : Thread) → (f t).thread ≡ t.thread)
      → Keeps (change_thread m fuel i f)
  unfolding change_thread
  change_thread-Keeps i f same d = elim (Option-cases (get_elem? d.process.threads i)) [
    | inl e ↦ rw (e, change_thread) tt
    | inr (t, e) ↦
        rw (e, change_thread)
          (After-Onward (mach_commit_thread m fuel (f t))
            (Onward-set d d.world i t (f t) e (same t)) (mach_commit_thread-Keeps m fuel (f t)))
  ]

  pub enable_single_step-Keeps : (i : ℕ) (on : Bool) → Keeps (enable_single_step m fuel i on)
  unfolding enable_single_step
  enable_single_step-Keeps i on =
      Keeps-bind (change_thread m fuel i (with_trap m fuel on)) (λ _. pure true)
        (change_thread-Keeps i (with_trap m fuel on) (λ t. refl)) (λ _. Keeps-pure true)

  run_only-Keeps : (i : ℕ) → Keeps (run_only m fuel i)
  unfolding run_only
  run_only-Keeps i d =
      let ws = mach_suspend_all_threads m d.world (ports d.process.threads) in
      let wr = (mach_resume_thread m ws (port_of m fuel d i)).1 in go (mach_resume_task m fuel wr)
    where
      go :
          (o : Option (Bool × m.World))
          → After
              (λ (_ : Unit {0}) d'. Onward d d')
              (elim o [ none ↦ none | some (_, w) ↦ some (tt, set_world d w) ])
      go none = tt
      go (some (b, w)) = Onward-world d w

  pub single_step-Keeps : (i : ℕ) → Keeps (single_step m fuel i)
  unfolding single_step
  single_step-Keeps i =
      Keeps-bind (enable_single_step m fuel i true) _ (enable_single_step-Keeps i true)
        λ _. Keeps-bind (run_only m fuel i) _ (run_only-Keeps i) λ _. internal_wait-Keeps m.sigtrap

  pub disable_found-Onward :
      (d : Debugger m) (r : Option BreakpointRef) → Onward d (disable_found m fuel d r)
  unfolding disable
  disable_found-Onward d none = Onward-refl d
  disable_found-Onward d (some r) = enable-Onward d r false

  pub enable_found-Onward :
      (d : Debugger m) (r : Option BreakpointRef) → Onward d (enable_found m fuel d r)
  enable_found-Onward d none = Onward-refl d
  enable_found-Onward d (some r) = enable-Onward d r true
