-- ===== src/Session/Keeps.antt =====
-- The pieces of the calls keep the invariant and what the pointers name.
use rustdbg.Prelude.{
  ℕ, zero, suc, ◌≡◌, refl, sym, ap, ◌∙◌, subst, inl, inr, Bool, true, false, Option, none, some,
  List, [], ◌∷◌, ◌++◌, if◌then◌else◌, Option-cases, get_elem?, set, get_elem?-append_left,
  get_elem?-lt,
}
use native.Mathlib.Nat.{zero-add}
use rustdbg.Mach.{Mach, Kern, success, aborted, failure, ThreadInfo, ThreadState32, ThreadState64}
use rustdbg.Debugger.{Thread, Debugger, BreakpointRef, listed, pure, ◌>>=◌}
use rustdbg.Breakpoint.{enable, create_breakpoint, new_breakpoint}
use rustdbg.Breakpoint.Flags.{enable-process, enable-threads, enable-no_transient, enable-names}
use rustdbg.Threads.{
  set_world, set_threads, setting, wrap_mach, mach_commit_thread, mach_update_thread, gather_thread,
  gather_each, gather_threads, new_thread, put_info, put_state64, put_state32, find_thread,
  succeeded,
}
use rustdbg.Threads.Gather.{
  ports_of, ports_of-set, ports_of-append, Distinct, learn, learn-Distinct, learn-get, FindCases,
  found, absent, find_thread-FindCases, with_threads,
}
use rustdbg.Session.{Onward}
use rustdbg.Session.Post.{
  After, After-bind, After-map, Keeps, Keeps-pure, Keeps-bind, Onward-refl, Onward-world,
}

module _ {m : Mach} where
  -- A change of the thread list that keeps the threads in their places and each of them once.
  pub Onward-threads :
      (d : Debugger m) (w : m.World) (ts : List Thread)
      → (Distinct (ports_of d.process.threads) → Distinct (ports_of ts))
      → ((i p : ℕ)
          → get_elem? (ports_of d.process.threads) i ≡ some p
          → get_elem? (ports_of ts) i ≡ some p)
      → Onward d (with_threads d w ts)
  Onward-threads d w ts once kept = record {
    sound = λ s. record {
      no_transient = s.no_transient;
      no_threads = s.no_threads;
      wide = s.wide;
      distinct = once s.distinct;
    };
    threads = kept;
    breakpoints = λ i b at. (b, at, refl, refl);
  }

  pub Onward-learn :
      (d : Debugger m) (w : m.World) (ts : List Thread) (ports : List ℕ)
      → ports_of ts ≡ learn (ports_of d.process.threads) ports
      → Onward d (with_threads d w ts)
  Onward-learn d w ts ports e =
      Onward-threads d w ts
        (λ once. subst Distinct (sym e) (learn-Distinct (ports_of d.process.threads) ports once))
        (λ i p at. ap (λ ks. get_elem? ks i) e ∙ learn-get (ports_of d.process.threads) ports i at)

  pub Onward-set :
      (d : Debugger m) (w : m.World) (i : ℕ) (t t' : Thread)
      → get_elem? d.process.threads i ≡ some t
      → t'.thread ≡ t.thread
      → Onward d (with_threads d w (set d.process.threads i t'))
  Onward-set d w i t t' at same =
      let e = ports_of-set d.process.threads i t t' at same in
      Onward-threads d w (set d.process.threads i t') (λ once. subst Distinct (sym e) once)
        (λ j p there. ap (λ ks. get_elem? ks j) e ∙ there)

  pub enable-Onward : (d : Debugger m) (r : BreakpointRef) (on : Bool) → Onward d (enable d r on)
  enable-Onward d r on = record {
    sound = λ s. record {
      no_transient = enable-no_transient d r on s.no_transient;
      no_threads = enable-threads d r on ∙ s.no_threads;
      wide = ap (λ k. k.is_64_bit) (enable-process d r on) ∙ s.wide;
      distinct =
          subst (λ k. Distinct (ports_of k.threads)) (sym (enable-process d r on)) s.distinct;
    };
    threads = λ i p at. ap (λ k. get_elem? (ports_of k.threads) i) (enable-process d r on) ∙ at;
    breakpoints = λ i b at. enable-names d r (listed i) b on at;
  }

  pub create_breakpoint-Onward :
      (d : Debugger m) (address : ℕ) (callback : Option ℕ)
      → Onward d (create_breakpoint d address callback).1
  unfolding create_breakpoint
  create_breakpoint-Onward d address callback = record {
    sound = λ s. record {
      no_transient = s.no_transient;
      no_threads = s.no_threads;
      wide = s.wide;
      distinct = s.distinct;
    };
    threads = λ i p at. at;
    breakpoints = λ i b at. (
      b,
      get_elem?-append_left d.breakpoints (new_breakpoint address callback ∷ []) i
            (get_elem?-lt d.breakpoints i at)
          ∙ at,
      refl,
      refl,
    );
  }

module _ (m : Mach) (fuel : ℕ) where
  -- Of a call that changes nothing but the world.
  abbrev pub OnlyWorld : {A : Type 0} → Debugger m → A → Debugger m → Type 0
  OnlyWorld d a d' = (w : m.World) × (d' ≡ set_world d w)

  pub wrap_mach-OnlyWorld :
      {A : Type 0} (n : ℕ) (call : m.World → Kern × A × m.World) (d : Debugger m)
      → After (OnlyWorld d) (wrap_mach m n call d)
  unfolding wrap_mach
  wrap_mach-OnlyWorld zero call d = tt
  wrap_mach-OnlyWorld (suc n) call d =
      go (call d.world).0 (wrap_mach-OnlyWorld n call (set_world d (call d.world).2))
    where
      go :
          (kr : Kern)
          → After (OnlyWorld d) (wrap_mach m n call (set_world d (call d.world).2))
          → After (OnlyWorld d) (elim kr [
            | success ↦ some (some (call d.world).1, set_world d (call d.world).2)
            | failure ↦ some (none, set_world d (call d.world).2)
            | aborted ↦ wrap_mach m n call (set_world d (call d.world).2)
          ])
      go success h = ((call d.world).2, refl)
      go failure h = ((call d.world).2, refl)
      go aborted h =
          After-map _ _ (wrap_mach m n call (set_world d (call d.world).2)) (λ _ d' h. (h.0, h.1)) h

  OnlyWorld-Onward :
      {A : Type 0} (d : Debugger m) (a : A) (d' : Debugger m) → OnlyWorld d a d' → Onward d d'
  OnlyWorld-Onward d a d' (w, e) = subst (Onward d) (sym e) (Onward-world d w)

  pub wrap_mach-Keeps :
      {A : Type 0} (call : m.World → Kern × A × m.World) → Keeps (wrap_mach m fuel call)
  wrap_mach-Keeps call d =
      After-map _ _ (wrap_mach m fuel call d) (OnlyWorld-Onward d) (wrap_mach-OnlyWorld fuel call d)

  pub mach_commit_thread-Keeps : (t : Thread) → Keeps (mach_commit_thread m fuel t)
  unfolding mach_commit_thread
  mach_commit_thread-Keeps t =
      Keeps-bind (wrap_mach m fuel (setting (λ w. m.thread_set_state w t.thread t.state32))) _
        (wrap_mach-Keeps (setting (λ w. m.thread_set_state w t.thread t.state32)))
        (λ r. Keeps-pure (succeeded r))

  -- An update keeps the port of the thread.
  mach_update_thread-port :
      (t : Thread) (d : Debugger m)
      → After (λ t' d'. (t'.thread ≡ t.thread) × OnlyWorld d t' d') (mach_update_thread m fuel t d)
  unfolding mach_update_thread
  mach_update_thread-port t d = go d.process.is_64_bit
    where
      t1 : Thread
      t1 = put_info t (m.thread_info d.world t.thread)

      info_port : (i : Option ThreadInfo) → (put_info t i).thread ≡ t.thread
      info_port none = refl
      info_port (some i) = refl

      port64 : (s : Option ThreadState64) → (put_state64 t1 s).thread ≡ t.thread
      port64 none = info_port (m.thread_info d.world t.thread)
      port64 (some s) = info_port (m.thread_info d.world t.thread)

      port32 : (s : Option ThreadState32) → (put_state32 t1 s).thread ≡ t.thread
      port32 none = info_port (m.thread_info d.world t.thread)
      port32 (some s) = info_port (m.thread_info d.world t.thread)

      go :
          (b : Bool)
          → After
              (λ (t' : Thread) d'. (t'.thread ≡ t.thread) × OnlyWorld d t' d')
              (if b
                then (wrap_mach m fuel (λ w. m.thread_get_state64 w t.thread) >>= λ s.
                      pure (put_state64 t1 s))
                    d
                else (wrap_mach m fuel (λ w. m.thread_get_state w t.thread) >>= λ s.
                      pure (put_state32 t1 s))
                    d)
      go true =
          After-bind _ _ (wrap_mach m fuel (λ w. m.thread_get_state64 w t.thread)) _ d
            (wrap_mach-OnlyWorld fuel (λ w. m.thread_get_state64 w t.thread) d)
            (λ s d' h. (port64 s, (h.0, h.1)))
      go false =
          After-bind _ _ (wrap_mach m fuel (λ w. m.thread_get_state w t.thread)) _ d
            (wrap_mach-OnlyWorld fuel (λ w. m.thread_get_state w t.thread) d)
            (λ s d' h. (port32 s, (h.0, h.1)))

  gather_thread-Keeps : (port : ℕ) → Keeps (gather_thread m fuel port)
  unfolding gather_thread
  gather_thread-Keeps port d =
      go (find_thread d.process.threads port 0) refl
        (find_thread-FindCases d.process.threads port 0)
    where
      old : List Thread
      old = d.process.threads

      go :
          (o : Option ℕ)
          → find_thread old port 0 ≡ o
          → FindCases old port 0 (find_thread old port 0)
          → After (λ _ d'. Onward d d') (gather_thread m fuel port d)
      go o e (found k t f at known) =
          rw (f ∙ ap some (zero-add k), at, gather_thread)
            (After-bind _ _ (mach_update_thread m fuel t) _ d (mach_update_thread-port t d)
              λ t' d' (same, (w, moved)).
                subst (λ (k' : Debugger m). Onward d (set_threads k' (set k'.process.threads k t')))
                  (sym moved) (Onward-set d w k t t' at same))
      go o e (absent f unknown) =
          rw (f, gather_thread)
            (After-bind _ _ (mach_update_thread m fuel (new_thread port)) _ d
              (mach_update_thread-port (new_thread port) d)
              λ t' d' (same, (w, moved)).
                subst
                  (λ (k' : Debugger m). Onward d (set_threads k' (k'.process.threads ++ t' ∷ [])))
                  (sym moved)
                  (Onward-learn d w (old ++ t' ∷ []) (port ∷ [])
                    (rw unknown (ports_of-append old t' ∙ ap (λ p. ports_of old ++ p ∷ []) same))))

  gather_each-Keeps : (ports : List ℕ) → Keeps (gather_each m fuel ports)
  unfolding gather_each
  gather_each-Keeps [] d = Onward-refl d
  gather_each-Keeps (port ∷ ports) d =
      Keeps-bind (gather_thread m fuel port) _ (gather_thread-Keeps port)
        (λ _. gather_each-Keeps ports) d

  pub gather_threads-Keeps : Keeps (gather_threads m fuel)
  unfolding gather_threads
  gather_threads-Keeps d = elim (Option-cases (m.task_threads d.world)) [
    | inl e ↦ rw (e, gather_threads) (Onward-refl d)
    | inr (ports, e) ↦
        rw (e, gather_threads)
          (Keeps-bind (gather_each m fuel ports) _ (gather_each-Keeps ports)
            (λ _ d'. Onward-world d' (m.vm_deallocate d'.world).1) d)
  ]
