-- ===== src/Control/Wait.antt =====
-- `internalWait` ends once the debuggee does, or stops by the signal, or cannot be waited for.
use rustdbg.Prelude.{
  ℕ, zero, suc, ◌≤◌, ◌≡◌, refl, sym, ◌∙◌, ◌≢◌, inl, inr, Bool, true, false, Option, none, some,
  arith, ◌==◌, if_true, if_false, Bool-cases,
}
use rustdbg.Mach
use rustdbg.Mach.{Mach}
use rustdbg.Debugger.{Debugger, Run, pure, ◌>>◌, bind_some}
use rustdbg.Threads.{setting, set_world, wrap_mach, gather_threads}
use rustdbg.Threads.Wrap.{PatienceLaws, wrap_mach-IsLast}
use rustdbg.Threads.Gather.{with_threads, gather_threads-ends}
use rustdbg.Control.{
  ProcessRunState, mach_signal_terminated, continue_with, after_stop, handle_status, wait_loop,
  after_pid, internal_wait,
}
use rustdbg.Control.Frame.{Frame, Frame-refl, Frame-trans, Frame-world}

pub true-ne-false : true ≢ false
true-ne-false = grind arith

module _ (m : Mach) (fuel : ℕ) where
  -- What the next status must be for the wait to end within so many more rounds. Behind a stop by
  -- another signal the debuggee goes on from whatever `gatherThreads` leaves.
  abbrev pub Turn : (Debugger m → Type 0) → ℕ → Mach.Wait → Debugger m → Type 0
  Turn rest wanted Mach.Wait.interrupted d = rest d
  Turn rest wanted Mach.Wait.unclassified d = rest d
  Turn rest wanted (Mach.Wait.stopped signal) d =
      (done : Bool) (d' : Debugger m)
      → (signal == wanted) ≡ false
      → gather_threads m fuel d ≡ some (done, d')
      → rest (set_world d' (m.pt_continue d'.world signal).1)
  Turn rest wanted _ d = Unit {0}

  -- Within so many statuses of `waitpid` there is one that ends the wait.
  abbrev pub EndsWithin : ℕ → ℕ → Debugger m → Type 0
  EndsWithin zero wanted d = ⊥
  EndsWithin (suc n) wanted d =
      Turn (EndsWithin n wanted) wanted (m.waitpid d.world).0 (set_world d (m.waitpid d.world).1)

  -- What a wait leaves: an answer, and a state with the same breakpoints and threads. Only an exit
  -- marks the process as not running.
  abbrev pub Waited : Run m ProcessRunState → Debugger m → Type 0
  Waited r d =
      (state : ProcessRunState) × (d' : Debugger m) × (r d ≡ some (state, d'))
      × Frame d d'
      × (d'.process.running ≡ false → d.process.running ≡ true → state ≡ ProcessRunState.terminated)

  module _ {patience : ℕ} (laws : PatienceLaws m patience) (enough : patience ≤ fuel) where
    gathered-Frame :
        (d : Debugger m)
        → (done : Bool) × (d' : Debugger m) × (gather_threads m fuel d ≡ some (done, d'))
          × Frame d d'
          × (d'.process.running ≡ d.process.running)
    gathered-Frame d =
        let (done, w, ts, runs, kept) = gather_threads-ends m laws fuel enough d in
        (
          done,
          with_threads d w ts,
          runs,
          record {
            breakpoints = refl;
            transient_breakpoints = refl;
            executed = refl;
            threads = kept;
          },
          refl,
        )

    gather_then :
        (d : Debugger m) (r : Run m ProcessRunState)
        → ((done : Bool) (d' : Debugger m)
            → gather_threads m fuel d ≡ some (done, d')
            → Waited r d')
        → Waited (gather_threads m fuel >> r) d
    gather_then d r next =
        let (done, d', runs, frame, run) = gathered-Frame d in
        let (state, d'', runs', frame', ended) = next done d' runs in
        (
          state,
          d'',
          bind_some (gather_threads m fuel) (λ _. r) d runs ∙ runs',
          Frame-trans frame frame',
          (λ off on. ended off (run ∙ on)),
        )

    pure-Waited : (state : ProcessRunState) (d : Debugger m) → Waited (pure state) d
    pure-Waited state d =
        (state, d, refl, Frame-refl d, (λ off on. absurd (true-ne-false (sym on ∙ off))))

    continue_with-Waited :
        (signal : ℕ) (again : Run m ProcessRunState) (d : Debugger m)
        → Waited again (set_world d (m.pt_continue d.world signal).1)
        → Waited (continue_with m fuel signal again) d
    unfolding continue_with
    continue_with-Waited signal again d (state, d', runs, frame, ended) =
        let moved = set_world d (m.pt_continue d.world signal).1 in
        elim (Bool-cases ((m.pt_continue d.world signal).0 == 0)) [
          | inl fine ↦ (
            state,
            d',
            if_true _ _ fine ∙ runs,
            Frame-world d (m.pt_continue d.world signal).1 frame,
            ended,
          )
          | inr broken ↦
              let (state', d'', runs', frame', ended') =
                gather_then moved (pure ProcessRunState.unknown)
                  (λ done k _. pure-Waited ProcessRunState.unknown k) in
              (
                state',
                d'',
                if_false _ _ broken ∙ runs',
                Frame-world d (m.pt_continue d.world signal).1 frame',
                ended',
              )
        ]

    handle_status-Waited :
        (rest : Debugger m → Type 0) (wanted : ℕ) (again : Run m ProcessRunState)
        → ((d : Debugger m) → rest d → Waited again d)
        → (status : Mach.Wait) (d : Debugger m) → Turn rest wanted status d
        → Waited (handle_status m fuel wanted again status) d
    unfolding handle_status after_stop mach_signal_terminated
    handle_status-Waited rest wanted again next Mach.Wait.interrupted d h = next d h
    handle_status-Waited rest wanted again next Mach.Wait.unclassified d h = next d h
    handle_status-Waited rest wanted again next Mach.Wait.failed d h =
        gather_then d (pure ProcessRunState.unknown)
          (λ done k _. pure-Waited ProcessRunState.unknown k)
    handle_status-Waited rest wanted again next (Mach.Wait.exited code) d h = (
      ProcessRunState.terminated,
      mach_signal_terminated m fuel d,
      refl,
      record {
        breakpoints = refl;
        transient_breakpoints = refl;
        executed = refl;
        threads = λ i p at. at;
      },
      (λ off on. refl),
    )
    handle_status-Waited rest wanted again next (Mach.Wait.signaled signal) d h =
        gather_then d (pure ProcessRunState.terminated)
          (λ done k _. pure-Waited ProcessRunState.terminated k)
    handle_status-Waited rest wanted again next (Mach.Wait.stopped signal) d h =
        gather_then d (after_stop m fuel wanted again signal) λ done d' runs.
          elim (Bool-cases (signal == wanted)) [
            | inl same ↦ rw same (pure-Waited ProcessRunState.stopped d')
            | inr differs ↦
                rw differs (continue_with-Waited signal again d' (next _ (h done d' differs runs)))
          ]

    wait_loop-Waited :
        (rounds wanted : ℕ) (d : Debugger m)
        → EndsWithin rounds wanted d
        → Waited (wait_loop m fuel rounds wanted) d
    unfolding wait_loop
    wait_loop-Waited zero wanted d h = absurd h
    wait_loop-Waited (suc rounds) wanted d h =
        let (status, w) = m.waitpid d.world in
        let (state, d', runs, frame, ended) =
          handle_status-Waited (EndsWithin rounds wanted) wanted (wait_loop m fuel rounds wanted)
            (λ k e. wait_loop-Waited rounds wanted k e) (m.waitpid d.world).0
            (set_world d (m.waitpid d.world).1) h in
        (state, d', runs, Frame-world d (m.waitpid d.world).1 frame, ended)

    -- `internalWait` ends, if from every state one of the next `fuel` statuses ends the wait and the
    -- fuel covers the aborted calls. The breakpoints and the places of the threads do not change,
    -- and the process is marked as not running only with the answer PRS_TERMINATED.
    pub internal_wait-Waited :
        (wanted : ℕ) (d : Debugger m)
        → ((k : Debugger m) → EndsWithin fuel wanted k)
        → Waited (internal_wait m fuel wanted) d
    unfolding internal_wait
    internal_wait-Waited wanted d settles =
        let (r, w, runs, _) =
          wrap_mach-IsLast m (setting m.pid_for_task) laws.find_pid fuel d enough in
        let (state, d', runs', frame, ended) = after r (set_world d w) in
        (
          state,
          d',
          bind_some (wrap_mach m fuel (setting m.pid_for_task)) (after_pid m fuel wanted) d runs
              ∙ runs',
          Frame-world d w frame,
          ended,
        )
      where
        after : (r : Option (Unit {0})) (k : Debugger m) → Waited (after_pid m fuel wanted r) k
        after none k = pure-Waited ProcessRunState.unknown k
        after (some _) k = wait_loop-Waited fuel wanted k (settles k)
