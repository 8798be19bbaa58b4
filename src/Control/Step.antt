-- ===== src/Control/Step.antt =====
-- `step` and the calls it is made of: they end, and every breakpoint is marked afterwards as it was
-- before.
use rustdbg.Prelude.{
  ℕ, zero, suc, ◌<◌, ◌≡◌, refl, sym, ap, ◌∙◌, ◌⊎◌, inl, inr, Bool, true, false, Option, none, some,
  arith, if◌then◌else◌, Bool-cases, Option-cases, get_elem?, set,
}
use rustdbg.Mach.{Mach}
use rustdbg.Mach.Laws.{MemoryLaws, SuspendLaws}
use rustdbg.Debugger.{
  Breakpoint, Thread, Process, Debugger, BreakpointRef, Run, pure, ◌>>=◌, bind_some,
}
use rustdbg.Breakpoint.{enable, disable, breakpoint_enabled, find_breakpoint, find_ref}
use rustdbg.Breakpoint.Flags.{
  BreakpointRef-discrete, find_ref-cong, enable-own, enable-other, enable-process, SameMarks,
}
use rustdbg.Process.{mach_resume_thread, mach_resume_task, mach_suspend_all_threads}
use rustdbg.Process.Resume.{mach_resume_task-runs}
use rustdbg.Threads.{set_world, set_threads}
use rustdbg.Threads.Wrap.{PatienceLaws, mach_commit_thread-ends}
use rustdbg.Threads.Gather.{ports_of, ports_of-set}
use rustdbg.Control.{
  ProcessRunState, is_stopped, change_thread, with_trap, enable_single_step, port_of, ports,
  enabled_at, enable_found, run_only, single_step, finish_step, step,
}
use rustdbg.Control.Frame.{Frame, Frame-refl, Frame-trans, Frame-world, thread_at}
use rustdbg.Control.Wait.{EndsWithin, internal_wait-Waited}

-- A system that answers: aborted calls come in bounded runs, suspend counts are bounded, and a wait
-- for a signal meets a status that ends it.
pub record Responds (m : Mach) (fuel : ℕ) : Type 0 where
  pub patience : PatienceLaws m fuel
  pub suspends : SuspendLaws m
  pub task_bound : (w : m.World) {c : ℕ} → m.task_info w ≡ some c → c < fuel
  pub settles : (d : Debugger m) → EndsWithin m fuel fuel m.sigtrap d

abbrev is_marked : Option Breakpoint → Bool
is_marked none = false
is_marked (some b) = b.enabled

module _ {m : Mach} {fuel : ℕ} (answers : Responds m fuel) where
  open answers use {patience, suspends, task_bound, settles}

  -- The call returns, and keeps the breakpoints and the places of the threads.
  abbrev pub Keeps : {A : Type 0} → Run m A → Debugger m → Type 0
  Keeps {A} r d = (a : A) × (d' : Debugger m) × (r d ≡ some (a, d')) × Frame d d'

  pub Keeps-bind :
      {A B : Type 0} (r : Run m A) (k : A → Run m B) (d : Debugger m)
      → Keeps r d
      → ((a : A) (d' : Debugger m) → Frame d d' → Keeps (k a) d')
      → Keeps (r >>= k) d
  Keeps-bind r k d (a, d', runs, frame) next =
      let (b, d'', runs', frame') = next a d' frame in
      (b, d'', bind_some r k d runs ∙ runs', Frame-trans frame frame')

  change_thread-Keeps :
      (i p : ℕ) (f : Thread → Thread) (d : Debugger m)
      → ((t : Thread) → (f t).thread ≡ t.thread)
      → get_elem? (ports_of d.process.threads) i ≡ some p
      → Keeps (change_thread m fuel i f) d
  unfolding change_thread
  change_thread-Keeps i p f d same at =
      let (t, here, _) = thread_at d.process.threads i p at in
      let d' = set_threads d (set d.process.threads i (f t)) in
      let (done, w, runs) = mach_commit_thread-ends m patience fuel (f t) d' (omega arith) in
      (
        done,
        set_world d' w,
        rw (here, change_thread) runs,
        record {
          breakpoints = refl;
          transient_breakpoints = refl;
          executed = refl;
          threads = λ j q e.
              ap (λ ps. get_elem? ps j) (ports_of-set d.process.threads i t (f t) here (same t))
              ∙ e;
        },
      )

  pub enable_single_step-Keeps :
      (i p : ℕ) (on : Bool) (d : Debugger m)
      → get_elem? (ports_of d.process.threads) i ≡ some p
      → Keeps (enable_single_step m fuel i on) d
  unfolding enable_single_step
  enable_single_step-Keeps i p on d at =
      Keeps-bind (change_thread m fuel i (with_trap m fuel on)) (λ _. pure true) d
        (change_thread-Keeps i p (with_trap m fuel on) d (λ t. refl) at)
        (λ a d' _. (true, d', refl, Frame-refl d'))

  resume_gone :
      (w : m.World) (n : ℕ)
      → m.task_info w ≡ none
      → 0 < n
      → mach_resume_task m n w ≡ some (false, w)
  unfolding mach_resume_task
  resume_gone w zero gone h = elim h [ ]
  resume_gone w (suc n) gone h = rw (gone, mach_resume_task)

  pub mach_resume_task-ends :
      (w : m.World) → (done : Bool) × (w' : m.World) × (mach_resume_task m fuel w ≡ some (done, w'))
  mach_resume_task-ends w = elim (Option-cases (m.task_info w)) [
    | inl gone ↦ (false, w, resume_gone w fuel gone (omega (arith, patience.find_pid.below w)))
    | inr (c, e) ↦
        let (w', runs, _, _) = mach_resume_task-runs suspends fuel c w (task_bound w e) e in
        (true, w', runs)
  ]

  run_only-Keeps : (i : ℕ) (d : Debugger m) → Keeps (run_only m fuel i) d
  unfolding run_only
  run_only-Keeps i d =
      let ws = mach_suspend_all_threads m d.world (ports d.process.threads) in
      let wr = (mach_resume_thread m ws (port_of m fuel d i)).1 in
      let (done, w, runs) = mach_resume_task-ends wr in
      (tt, set_world d w, rw (runs, run_only), Frame-world d w (Frame-refl (set_world d w)))

  pub single_step-Keeps :
      (i p : ℕ) (d : Debugger m)
      → get_elem? (ports_of d.process.threads) i ≡ some p
      → Keeps (single_step m fuel i) d
  unfolding single_step
  single_step-Keeps i p d at =
      Keeps-bind (enable_single_step m fuel i true) _ d (enable_single_step-Keeps i p true d at)
        λ _ d' _. Keeps-bind (run_only m fuel i) _ d' (run_only-Keeps i d') λ _ d'' _.
          let (state, d3, runs, frame, _) =
            internal_wait-Waited m fuel patience (omega arith) m.sigtrap d'' settles in
          (state, d3, runs, frame)

  -- Behind the wait the breakpoint found before is enabled again, whatever the wait answered.
  finish_step-Keeps :
      (i p : ℕ) (found : Option BreakpointRef) (state : ProcessRunState) (d : Debugger m)
      → get_elem? (ports_of d.process.threads) i ≡ some p
      → (d' : Debugger m) × (finish_step m fuel i found state d
          ≡ some (true, enable_found m fuel d' found))
        × Frame d d'
  unfolding finish_step
  finish_step-Keeps i p found state d at =
      let (_, d', runs, frame) = cleared (is_stopped state) in
      (
        d',
        bind_some (if is_stopped state then enable_single_step m fuel i false else pure true) _ d
            runs,
        frame,
      )
    where
      cleared :
          (stops : Bool) → Keeps (if stops then enable_single_step m fuel i false else pure true) d
      cleared true = enable_single_step-Keeps i p false d at
      cleared false = (true, d, refl, Frame-refl d)

  pub Frame-found :
      {d d' : Debugger m} → Frame d d' → (q : BreakpointRef) → find_ref d' q ≡ find_ref d q
  Frame-found {d} {d'} f q = find_ref-cong d d' q f.breakpoints f.transient_breakpoints

  -- Disabling an enabled breakpoint and enabling it behind a `Frame` restores the marks.
  pub around-SameMarks :
      (laws : MemoryLaws m) (r : BreakpointRef) (b : Breakpoint) (d d' : Debugger m)
      → find_ref d r ≡ some b
      → b.enabled ≡ true
      → Frame (enable d r false) d'
      → SameMarks d (enable d' r true)
  around-SameMarks laws r b d d' at on frame q c e = elim (BreakpointRef-discrete r q) [
    | yes same ↦
        let (b1, at1, address1, _) = enable-own laws d r b false at in
        let (b2, at2, address2, on2) = enable-own laws d' r b1 true (Frame-found frame r ∙ at1) in
        let found : find_ref d r ≡ some c = ap (λ k. find_ref d k) same ∙ e in
        let bc : b ≡ c = cc (at, found) in
        (
          b2,
          ap (λ k. find_ref (enable d' r true) k) (sym same) ∙ at2,
          address2 ∙ address1 ∙ ap (λ (x : Breakpoint). x.address) bc,
          on2 ∙ sym on ∙ ap (λ (x : Breakpoint). x.enabled) bc,
        )
    | no differs ↦ (
      c,
      enable-other d' r q true differs ∙ Frame-found frame q ∙ enable-other d r q false differs ∙ e,
      refl,
      refl,
    )
  ]

  breakpoint_enabled-some :
      (d : Debugger m) (r : BreakpointRef)
      → breakpoint_enabled d r ≡ true
      → (b : Breakpoint) × (find_ref d r ≡ some b) × (b.enabled ≡ true)
  unfolding breakpoint_enabled
  breakpoint_enabled-some d r on = elim (Option-cases (find_ref d r)) [
    | inl gone ↦ absurd (cc (ap is_marked gone, on))
    | inr (b, e) ↦ (b, e, cc (ap is_marked e, on))
  ]

  -- The test for a breakpoint answers an enabled one, or none.
  pub enabled_at-cases :
      (d : Debugger m) (eip : ℕ)
      → (enabled_at m fuel d eip ≡ none)
        ⊎ ((r : BreakpointRef) × (b : Breakpoint) × (enabled_at m fuel d eip ≡ some r)
            × (find_ref d r ≡ some b)
            × (b.enabled ≡ true))
  unfolding enabled_at
  enabled_at-cases d eip = elim (Option-cases (find_breakpoint d eip)) [
    | inl e ↦ inl (rw (e, enabled_at))
    | inr (r, e) ↦ elim (Bool-cases (breakpoint_enabled d r)) [
      | inl on ↦
          let (b, at, marked) = breakpoint_enabled-some d r on in
          inr (r, b, rw (e, on, enabled_at), at, marked)
      | inr off ↦ inl (rw (e, off, enabled_at))
    ]
  ]

  -- `step` on a thread of the list returns true where the system answers, and afterwards every
  -- breakpoint has the address and the mark it had before, whether the wait ended with a stop or
  -- not, also the breakpoint that the step takes out of the way.
  pub step-SameMarks :
      (laws : MemoryLaws m) (i p : ℕ) (d : Debugger m)
      → get_elem? (ports_of d.process.threads) i ≡ some p
      → (d' : Debugger m) × (step m fuel i d ≡ some (true, d')) × SameMarks d d'
  unfolding step disable
  step-SameMarks laws i p d at =
      let (t, here, _) = thread_at d.process.threads i p at in
      elim (enabled_at-cases d t.state32.eip) [
        | inl off ↦
            let (state, d1, runs, frame) = single_step-Keeps i p d at in
            let (d2, runs', frame') = finish_step-Keeps i p none state d1 (frame.threads i p at) in
            (
              d2,
              rw (here, off, step)
                  (bind_some (single_step m fuel i) (finish_step m fuel i none) d runs ∙ runs'),
              (λ q b e. (b, Frame-found (Frame-trans frame frame') q ∙ e, refl, refl)),
            )
        | inr (r, b, found, at_r, on) ↦
            let out = enable d r false in
            let there =
              ap (λ (k : Process). get_elem? (ports_of k.threads) i) (enable-process d r false)
              ∙ at in
            let (state, d1, runs, frame) = single_step-Keeps i p out there in
            let (d2, runs', frame') =
              finish_step-Keeps i p (some r) state d1 (frame.threads i p there) in
            (
              enable d2 r true,
              rw (here, found, step, disable)
                  (bind_some (single_step m fuel i) (finish_step m fuel i (some r)) out runs
                    ∙ runs'),
              around-SameMarks laws r b d d2 at_r on (Frame-trans frame frame'),
            )
      ]
