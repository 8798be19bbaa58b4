-- ===== src/Threads/Gather.antt =====
-- `gatherThreads`: every thread of the task is in the list once it returns.
use rustdbg.Prelude.{
  get_elem?-append_left, get_elem?-lt, ℕ, zero, suc, ◌+◌, ◌≤◌, ◌≡◌, refl, sym, ap, ◌∙◌, subst, inl,
  inr, Bool, true, false, ◌||◌, Option, none, some, List, [], ◌∷◌, ◌++◌, arith, ◌==◌, if◌then◌else◌,
  Bool-cases, Option-cases, get_elem?, set, All,
}
use native.Mathlib.Nat.{zero-add}
use rustdbg.Mach.{Mach}
use rustdbg.Debugger.{Thread, Debugger, bind_some}
use rustdbg.Threads.{
  new_thread, find_thread, mach_update_thread, gather_thread, gather_each, gather_threads,
}
use rustdbg.Threads.Wrap.{PatienceLaws, mach_update_thread-ends}

abbrev pub ports_of : List Thread → List ℕ
ports_of [] = []
ports_of (t ∷ ts) = t.thread ∷ ports_of ts

abbrev pub has : ℕ → List ℕ → Bool
has p [] = false
has p (q ∷ qs) = (q == p) || has p qs

-- The ports known once a task with these ports has been looked at: the old ones in their places,
-- and each new one once, in the order of the task.
abbrev pub learn : List ℕ → List ℕ → List ℕ
learn known [] = known
learn known (p ∷ ps) = learn (if has p known then known else known ++ p ∷ []) ps

has-append : (p q : ℕ) (ks : List ℕ) → has p (ks ++ q ∷ []) ≡ (has p ks || (q == p))
has-append p q [] = ground arith
has-append p q (k ∷ ks) = ground (arith, has-append p q ks)

learn-keeps : (p : ℕ) (known ps : List ℕ) → has p known ≡ true → has p (learn known ps) ≡ true
learn-keeps p known [] h = h
learn-keeps p known (q ∷ ps) h =
    learn-keeps p (if has q known then known else known ++ q ∷ []) ps
      (ground (arith, has-append p q known))

learn-All : (known ps : List ℕ) → All (λ p. has p (learn known ps) ≡ true) ps
learn-All known [] = tt
learn-All known (q ∷ ps) = (
  learn-keeps q (if has q known then known else known ++ q ∷ []) ps
      (ground (arith, has-append q q known)),
  learn-All (if has q known then known else known ++ q ∷ []) ps,
)

-- No port stands twice.
abbrev pub Distinct : List ℕ → Type 0
Distinct [] = Unit
Distinct (k ∷ ks) = (has k ks ≡ false) × Distinct ks

Distinct-append : (q : ℕ) (ks : List ℕ) → Distinct ks → has q ks ≡ false → Distinct (ks ++ q ∷ [])
Distinct-append q [] h new = (refl, tt)
Distinct-append q (k ∷ ks) h new =
    (ground (arith, has-append k q ks), Distinct-append q ks h.1 (ground arith))

pub learn-Distinct : (known ps : List ℕ) → Distinct known → Distinct (learn known ps)
learn-Distinct known [] h = h
learn-Distinct known (q ∷ ps) h = elim (Bool-cases (has q known)) [
  | inl old ↦ rw old (learn-Distinct known ps h)
  | inr new ↦ rw new (learn-Distinct (known ++ q ∷ []) ps (Distinct-append q known h new))
]

pub learn-get :
    (known ps : List ℕ) (i : ℕ) {p : ℕ}
    → get_elem? known i ≡ some p
    → get_elem? (learn known ps) i ≡ some p
learn-get known [] i e = e
learn-get known (q ∷ ps) i e = elim (Bool-cases (has q known)) [
  | inl old ↦ rw old (learn-get known ps i e)
  | inr new ↦ rw new (
      learn-get (known ++ q ∷ []) ps i
        (get_elem?-append_left known (q ∷ []) i (get_elem?-lt known i e) ∙ e))
]

pub data FindCases (ts : List Thread) (port i : ℕ) : Option ℕ → Type 0 where
  found :
      (k : ℕ) (t : Thread) {o : Option ℕ}
      → o ≡ some (i + k)
      → get_elem? ts k ≡ some t
      → has port (ports_of ts) ≡ true
      → FindCases ts port i o
  absent : {o : Option ℕ} → o ≡ none → has port (ports_of ts) ≡ false → FindCases ts port i o

pub find_thread-FindCases :
    (ts : List Thread) (port i : ℕ) → FindCases ts port i (find_thread ts port i)
unfolding find_thread
find_thread-FindCases [] port i = absent refl refl
find_thread-FindCases (t ∷ ts) port i = elim (Bool-cases (t.thread == port)) [
  | inl here ↦ rw (here, find_thread) (found 0 t (ap some (omega arith)) refl (rw here))
  | inr there ↦ rw (there, find_thread) (later there (find_thread-FindCases ts port (i + 1)))
]
  where
    later :
        {o : Option ℕ}
        → (t.thread == port) ≡ false
        → FindCases ts port (i + 1) o
        → FindCases (t ∷ ts) port i o
    later there (found k u e at known) =
        found (suc k) u (e ∙ ap some (omega arith)) at (rw there known)
    later there (absent e unknown) = absent e (rw there unknown)

pub ports_of-append :
    (ts : List Thread) (t : Thread) → ports_of (ts ++ t ∷ []) ≡ ports_of ts ++ t.thread ∷ []
ports_of-append [] t = refl
ports_of-append (u ∷ ts) t = ap (λ ps. u.thread ∷ ps) (ports_of-append ts t)

pub ports_of-set :
    (ts : List Thread) (i : ℕ) (t t' : Thread)
    → get_elem? ts i ≡ some t
    → t'.thread ≡ t.thread
    → ports_of (set ts i t') ≡ ports_of ts
ports_of-set [] i t t' at same = refl
ports_of-set (u ∷ ts) zero t t' at same =
    let e : u ≡ t = cc in ap (λ p. p ∷ ports_of ts) (same ∙ sym (ap (λ (x : Thread). x.thread) e))
ports_of-set (u ∷ ts) (suc i) t t' at same =
    ap (λ ps. u.thread ∷ ps) (ports_of-set ts i t t' at same)

-- What changes: the world and the thread list.
abbrev pub with_threads : {m : Mach} → Debugger m → m.World → List Thread → Debugger m
with_threads d w ts = record d { world = w; process = record (d.process) { threads = ts } }

module _ (m : Mach) {patience : ℕ} (laws : PatienceLaws m patience) (fuel : ℕ)
    (enough : patience ≤ fuel) where
  gather_thread-ends :
      (port : ℕ) (d : Debugger m)
      → (w : m.World) × (ts : List Thread) × (gather_thread m fuel port d
          ≡ some (tt, with_threads d w ts))
        × (ports_of ts ≡ learn (ports_of d.process.threads) (port ∷ []))
  unfolding gather_thread
  gather_thread-ends port d =
      go (find_thread d.process.threads port 0) refl
        (find_thread-FindCases d.process.threads port 0)
    where
      old : List Thread
      old = d.process.threads

      go :
          (o : Option ℕ)
          → find_thread old port 0 ≡ o
          → FindCases old port 0 (find_thread old port 0)
          → (w : m.World) × (ts : List Thread) × (gather_thread m fuel port d
              ≡ some (tt, with_threads d w ts))
            × (ports_of ts ≡ learn (ports_of old) (port ∷ []))
      go o e (found k t f at known) =
          let (t', w, runs, same, _) = mach_update_thread-ends m laws fuel t d enough in
          (
            w,
            set old k t',
            rw (f ∙ ap some (zero-add k), at, gather_thread)
                (bind_some (mach_update_thread m fuel t) _ d runs),
            rw known (ports_of-set old k t t' at same),
          )
      go o e (absent f unknown) =
          let (t', w, runs, same, _) =
            mach_update_thread-ends m laws fuel (new_thread port) d enough in
          (
            w,
            old ++ t' ∷ [],
            rw (f, gather_thread)
                (bind_some (mach_update_thread m fuel (new_thread port)) _ d runs),
            rw unknown (ports_of-append old t' ∙ ap (λ p. ports_of old ++ p ∷ []) same),
          )

  gather_each-ends :
      (ports : List ℕ) (d : Debugger m)
      → (w : m.World) × (ts : List Thread) × (gather_each m fuel ports d
          ≡ some (tt, with_threads d w ts))
        × (ports_of ts ≡ learn (ports_of d.process.threads) ports)
  unfolding gather_each
  gather_each-ends [] d = (d.world, d.process.threads, refl, refl)
  gather_each-ends (port ∷ ports) d =
      let (w, ts, runs, ps) = gather_thread-ends port d in
      let (w', ts', runs', ps') = gather_each-ends ports (with_threads d w ts) in
      (
        w',
        ts',
        bind_some (gather_thread m fuel port) _ d runs ∙ runs',
        ps' ∙ ap (λ known. learn known ports) ps,
      )

  -- Where `task_threads` answers and the list has no thread twice, `gatherThreads` ends with fuel for
  -- the aborted calls: the list then has the old threads in their places and behind them each port of
  -- the task that was not there, once; it has every port of the task, and none twice; beside the list
  -- only the world has changed.
  pub gather_threads-learn :
      (d : Debugger m) (ports : List ℕ)
      → m.task_threads d.world ≡ some ports
      → Distinct (ports_of d.process.threads)
      → (done : Bool) × (w : m.World) × (ts : List Thread) × (gather_threads m fuel d
          ≡ some (done, with_threads d w ts))
        × (ports_of ts ≡ learn (ports_of d.process.threads) ports)
        × All (λ p. has p (ports_of ts) ≡ true) ports
        × Distinct (ports_of ts)
  unfolding gather_threads
  gather_threads-learn d ports e distinct =
      let (w, ts, runs, ps) = gather_each-ends ports d in
      let old = ports_of d.process.threads in
      (
        (m.vm_deallocate w).0,
        (m.vm_deallocate w).1,
        ts,
        rw (e, gather_threads) (bind_some (gather_each m fuel ports) _ d runs),
        ps,
        subst (λ ks. All (λ p. has p ks ≡ true) ports) (sym ps) (learn-All old ports),
        subst Distinct (sym ps) (learn-Distinct old ports distinct),
      )

  -- With no answer it changes nothing and says so.
  gather_threads-none :
      (d : Debugger m) → m.task_threads d.world ≡ none → gather_threads m fuel d ≡ some (false, d)
  unfolding gather_threads
  gather_threads-none d e = rw (e, gather_threads)

  -- On every branch it ends, changes at most the world and the thread list, and keeps the ports of
  -- the threads that were there in their places.
  pub gather_threads-ends :
      (d : Debugger m)
      → (done : Bool) × (w : m.World) × (ts : List Thread) × (gather_threads m fuel d
          ≡ some (done, with_threads d w ts))
        × ((i p : ℕ)
            → get_elem? (ports_of d.process.threads) i ≡ some p
            → get_elem? (ports_of ts) i ≡ some p)
  unfolding gather_threads
  gather_threads-ends d = elim (Option-cases (m.task_threads d.world)) [
    | inl e ↦ (false, d.world, d.process.threads, gather_threads-none d e, (λ i p at. at))
    | inr (ports, e) ↦
        let (w, ts, runs, ps) = gather_each-ends ports d in
        (
          (m.vm_deallocate w).0,
          (m.vm_deallocate w).1,
          ts,
          rw (e, gather_threads) (bind_some (gather_each m fuel ports) _ d runs),
          (λ i p at.
              ap (λ ks. get_elem? ks i) ps ∙ learn-get (ports_of d.process.threads) ports i at),
        )
  ]
