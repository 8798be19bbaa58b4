-- ===== src/Control/Back.antt =====
-- `checkForBreakpointsAndStepBack`: which callbacks run, and which threads step back.
use rustdbg.Prelude.{
  ℕ, ◌+◌, ◌≤◌, ◌≡◌, refl, sym, ap, ◌∙◌, inl, inr, Bool, Option, none, some, List, [], ◌∷◌, ◌++◌,
  map, arith, Option-cases, length, get_elem?, set, length-append, get_elem?-append_length, negsuc,
  sub_u32,
}
use mathlib.Core.List.{append_assoc}
use rustdbg.Mach.{Mach}
use rustdbg.Debugger.{
  listed, transient, Breakpoint, Thread, Debugger, BreakpointRef, pure, bind_some,
}
use rustdbg.Breakpoint.{find_breakpoint, breakpoint_enabled, find_ref, on_breakpoint_reached}
use rustdbg.Threads.Wrap.{PatienceLaws, mach_commit_thread-ends}
use rustdbg.Control.{
  change_thread, with_offset, update_instruction_pointer_and_commit_state, enabled_at, eip_of,
  step_back, step_back_from, check_for_breakpoints_and_step_back,
}

module _ (m : Mach) (fuel : ℕ) where
  -- The breakpoint that a thread has hit: the first one at the byte before its instruction, if that is
  -- enabled.
  abbrev pub hit : Debugger m → Thread → Option BreakpointRef
  hit d t = enabled_at m fuel d (sub_u32 t.state32.eip 1)

  -- The thread at the breakpoint that it has hit.
  abbrev pub back_if : Option BreakpointRef → Thread → Thread
  back_if none t = t
  back_if (some _) t = with_offset m fuel (negsuc 0) t

  abbrev pub back : Debugger m → Thread → Thread
  back d t = back_if (hit d t) t

  abbrev pub run_callback : Option Breakpoint → List ℕ → List ℕ
  run_callback none executed = executed
  run_callback (some b) executed = elim b.callback [ none ↦ executed | some c ↦ c ∷ executed ]

  abbrev pub call_hit : Debugger m → Option BreakpointRef → List ℕ → List ℕ
  call_hit d none executed = executed
  call_hit d (some r) executed = run_callback (find_ref d r) executed

  -- The callbacks of the breakpoints that the threads have hit, the last thread's first.
  abbrev pub calls : Debugger m → List Thread → List ℕ → List ℕ
  calls d [] executed = executed
  calls d (t ∷ ts) executed = calls d ts (call_hit d (hit d t) executed)

  -- What a round changes: the world, the callbacks that have run, and the threads.
  abbrev pub moved : Debugger m → m.World → List ℕ → List Thread → Debugger m
  moved d w executed ts = record d {
    world = w;
    executed = executed;
    process = record (d.process) { threads = ts };
  }

  find_ref-moved :
      (d : Debugger m) (w : m.World) (executed : List ℕ) (ts : List Thread) (r : BreakpointRef)
      → find_ref (moved d w executed ts) r ≡ find_ref d r
  find_ref-moved d w executed ts (listed i) = refl
  find_ref-moved d w executed ts (transient i) = refl

  breakpoint_enabled-moved :
      (d : Debugger m) (w : m.World) (executed : List ℕ) (ts : List Thread) (r : BreakpointRef)
      → breakpoint_enabled (moved d w executed ts) r ≡ breakpoint_enabled d r
  unfolding breakpoint_enabled
  breakpoint_enabled-moved d w executed ts (listed i) = refl
  breakpoint_enabled-moved d w executed ts (transient i) = refl

  find_breakpoint-moved :
      (d : Debugger m) (w : m.World) (executed : List ℕ) (ts : List Thread) (a : ℕ)
      → find_breakpoint (moved d w executed ts) a ≡ find_breakpoint d a
  unfolding find_breakpoint
  find_breakpoint-moved d w executed ts a = refl

  enabled_at-moved :
      (d : Debugger m) (w : m.World) (executed : List ℕ) (ts : List Thread) (a : ℕ)
      → enabled_at m fuel (moved d w executed ts) a ≡ enabled_at m fuel d a
  unfolding enabled_at
  enabled_at-moved d w executed ts a = elim (Option-cases (find_breakpoint d a)) [
    | inl e ↦ rw (find_breakpoint-moved d w executed ts a ∙ e, e, enabled_at)
    | inr (r, e) ↦
        rw (find_breakpoint-moved d w executed ts a ∙ e, e, breakpoint_enabled-moved, enabled_at)
  ]

  on_breakpoint_reached-moved :
      (d : Debugger m) (r : BreakpointRef) (w : m.World) (executed : List ℕ) (ts : List Thread)
      → on_breakpoint_reached (moved d w executed ts) r
        ≡ moved d w (run_callback (find_ref d r) executed) ts
  unfolding on_breakpoint_reached
  on_breakpoint_reached-moved d r w executed ts = elim (Option-cases (find_ref d r)) [
    | inl e ↦ rw (find_ref-moved d w executed ts r ∙ e, on_breakpoint_reached)
    | inr (b, e) ↦ elim (Option-cases b.callback) [
      | inl f ↦ rw (find_ref-moved d w executed ts r ∙ e, f, on_breakpoint_reached)
      | inr (c, f) ↦ rw (find_ref-moved d w executed ts r ∙ e, f, on_breakpoint_reached)
    ]
  ]

  module _ {patience : ℕ} (laws : PatienceLaws m patience) (enough : patience ≤ fuel) where
    update-moved :
        (i : ℕ) (t : Thread) (d : Debugger m) (w : m.World) (executed : List ℕ) (ts : List Thread)
        → get_elem? ts i ≡ some t
        → (w' : m.World) × (done : Bool) × (update_instruction_pointer_and_commit_state m fuel i
              (negsuc 0)
              (moved d w executed ts)
            ≡ some (done, moved d w' executed (set ts i (with_offset m fuel (negsuc 0) t))))
    unfolding update_instruction_pointer_and_commit_state change_thread
    update-moved i t d w executed ts at =
        let t' = with_offset m fuel (negsuc 0) t in
        let (done, w', runs) =
          mach_commit_thread-ends m laws fuel t' (moved d w executed (set ts i t')) enough in
        (w', done, rw (at, update_instruction_pointer_and_commit_state, change_thread) runs)

    get_elem?-middle :
        (pre : List Thread) (t : Thread) (post : List Thread)
        → get_elem? (pre ++ t ∷ post) (length pre) ≡ some t
    get_elem?-middle pre t post = get_elem?-append_length pre t post

    set-middle :
        (pre : List Thread) (t t' : Thread) (post : List Thread)
        → set (pre ++ t ∷ post) (length pre) t' ≡ pre ++ t' ∷ post
    set-middle [] t t' post = refl
    set-middle (u ∷ pre) t t' post = ap (λ ts. u ∷ ts) (set-middle pre t t' post)

    -- A round of the loop, on the thread between those of before and the rest.
    step_back-runs :
        (d : Debugger m) (w : m.World) (executed : List ℕ) (pre : List Thread) (t : Thread)
        (post : List Thread)
        → (w' : m.World) × (step_back m fuel
              (length pre)
              t.state32.eip
              (moved d w executed (pre ++ t ∷ post))
            ≡ some (tt, moved d w' (call_hit d (hit d t) executed) (pre ++ back d t ∷ post)))
    unfolding step_back
    step_back-runs d w executed pre t post = elim (Option-cases (hit d t)) [
      | inl e ↦ (
        w,
        rw (
          enabled_at-moved d w executed (pre ++ t ∷ post) (sub_u32 t.state32.eip 1) ∙ e,
          e,
          step_back,
        ),
      )
      | inr (r, e) ↦
          let (w', done, runs) =
            update-moved (length pre) t d w (run_callback (find_ref d r) executed) (pre ++ t ∷ post)
              (get_elem?-middle pre t post) in
          (
            w',
            rw
                (
                  enabled_at-moved d w executed (pre ++ t ∷ post) (sub_u32 t.state32.eip 1) ∙ e,
                  e,
                  on_breakpoint_reached-moved d r w executed (pre ++ t ∷ post),
                  step_back,
                )
                (bind_some
                    (update_instruction_pointer_and_commit_state m fuel (length pre) (negsuc 0))
                    (λ _. pure tt) _ runs
                  ∙ ap (λ ts. some (tt, moved d w' (run_callback (find_ref d r) executed) ts))
                      (set-middle pre t (with_offset m fuel (negsuc 0) t) post)),
          )
    ]

    step_back_from-runs :
        (d : Debugger m) (w : m.World) (executed : List ℕ) (pre post : List Thread)
        → (w' : m.World) × (step_back_from m fuel
              (length post)
              (length pre)
              (moved d w executed (pre ++ post))
            ≡ some (tt, moved d w' (calls d post executed) (pre ++ map (back d) post)))
    unfolding step_back_from
    step_back_from-runs d w executed pre [] = (w, refl)
    step_back_from-runs d w executed pre (t ∷ post) =
        let (w1, runs) = step_back-runs d w executed pre t post in
        let (w2, runs') =
          step_back_from-runs d w1 (call_hit d (hit d t) executed) (pre ++ back d t ∷ []) post in
        let t' = back d t in
        let executed' = call_hit d (hit d t) executed in
        let here : eip_of m fuel (moved d w executed (pre ++ t ∷ post)) (length pre)
            ≡ some t.state32.eip =
          rw (get_elem?-middle pre t post, eip_of) in
        let place : length pre + 1 ≡ length (pre ++ t' ∷ []) =
          omega (arith, length-append pre (t' ∷ [])) in
        let list : pre ++ t' ∷ post ≡ (pre ++ t' ∷ []) ++ post =
          sym (append_assoc pre (t' ∷ []) post) in
        (
          w2,
          rw (here, step_back_from)
              (bind_some (step_back m fuel (length pre) t.state32.eip) _ _ runs
                ∙ ap
                    (λ i.
                      step_back_from m fuel (length post) i
                        (moved d w1 executed' (pre ++ t' ∷ post)))
                    place
                ∙ ap
                    (λ ts.
                      step_back_from m fuel (length post) (length (pre ++ t' ∷ []))
                        (moved d w1 executed' ts))
                    list
                ∙ runs'
                ∙ ap (λ ts. some (tt, moved d w2 (calls d post executed') ts))
                    (append_assoc pre (t' ∷ []) (map (back d) post))),
        )

    -- `checkForBreakpointsAndStepBack` ends where the fuel covers the aborted calls. A thread
    -- has hit a breakpoint where the first breakpoint that `findBreakpoint` finds one byte
    -- before its instruction is enabled. Each such thread is at that byte then, and the others
    -- have not moved; the callbacks of the breakpoints that were hit have run, once for each
    -- such thread and in the order of the threads. Beside these and the world nothing has
    -- changed: every breakpoint is as it was, none has been disabled.
    pub check_for_breakpoints_and_step_back-runs :
        (d : Debugger m)
        → (w : m.World) × (check_for_breakpoints_and_step_back m fuel d
            ≡ some (
              tt,
              moved d w (calls d d.process.threads d.executed) (map (back d) d.process.threads),
            ))
    unfolding check_for_breakpoints_and_step_back
    check_for_breakpoints_and_step_back-runs d =
        step_back_from-runs d d.world d.executed [] d.process.threads
