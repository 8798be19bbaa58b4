-- ===== src/Visit/World.antt =====
-- Visits of all threads of the task whose visitor always answers true, and which threads they are.
use rustdbg.Prelude.{
  ℕ, ◌≡◌, refl, sym, ◌∙◌, subst, ◌≢◌, inl, inr, Bool, true, false, Option, some, List, [], ◌∷◌,
  arith, ◌==◌, if◌then◌else◌, Bool-cases, All,
}
use rustdbg.Mach.{Mach}
use rustdbg.Mach.Laws.{SuspendLaws, suspend_count}
use rustdbg.Debugger.{Debugger, Run, bind_some, pure}
use rustdbg.Threads.{set_world}
use rustdbg.Visit.{visit_each, forall_threads}

pub apart : (current t : ℕ) → (current == t) ≡ false → t ≢ current
apart current t other e = grind (arith, other, e)

-- The threads that are not the current one, in order.
abbrev pub others : ℕ → List ℕ → List ℕ
others current [] = []
others current (t ∷ ts) = if current == t then others current ts else t ∷ others current ts

pub others-ne : (current : ℕ) (ts : List ℕ) → All (λ t. t ≢ current) (others current ts)
others-ne current [] = tt
others-ne current (t ∷ ts) = elim (Bool-cases (current == t)) [
  | inl same ↦ rw same (others-ne current ts)
  | inr other ↦ rw other ((apart current t other), others-ne current ts)
]

module _ (m : Mach) where
  -- The world behind a loop whose visitor always answers true.
  abbrev pub each_world : (ℕ → m.World → m.World) → List ℕ → m.World → m.World
  each_world f [] w = w
  each_world f (t ∷ ts) w = each_world f ts (f t w)

  visit_each-world :
      (f : ℕ → m.World → m.World) (visitor : ℕ → Run m Bool)
      → ((t : ℕ) (d : Debugger m) → visitor t d ≡ some (true, set_world d (f t d.world)))
      → (ts : List ℕ) (d : Debugger m)
      → visit_each m visitor ts d ≡ some (tt, set_world d (each_world f ts d.world))
  unfolding visit_each
  visit_each-world f visitor answers [] d = refl
  visit_each-world f visitor answers (t ∷ ts) d =
      bind_some (visitor t) (λ go_on. if go_on then visit_each m visitor ts else pure tt) d
        (answers t d)
      ∙ visit_each-world f visitor answers ts (set_world d (f t d.world))

  -- The answer of `vm_deallocate`, and the debugger behind it.
  abbrev pub deallocated : Debugger m → m.World → Option (Bool × Debugger m)
  deallocated d w = let (done, w') = m.vm_deallocate w in some (done, set_world d w')

  -- The list of the threads is given back, and the counts stay.
  abbrev pub freed : m.World → m.World
  freed w = (m.vm_deallocate w).1

  pub All-freed :
      (laws : SuspendLaws m) (P : Option ℕ → Type 0) (w : m.World) (ts : List ℕ)
      → All (λ t. P (suspend_count m w t)) ts
      → All (λ t. P (suspend_count m (freed w) t)) ts
  All-freed laws P w [] all = tt
  All-freed laws P w (t ∷ ts) all =
      (subst P (sym (laws.deallocate_keeps w t)) all.0, All-freed laws P w ts all.1)

  pub forall_threads-world :
      (f : ℕ → m.World → m.World) (visitor : ℕ → Run m Bool)
      → ((t : ℕ) (d : Debugger m) → visitor t d ≡ some (true, set_world d (f t d.world)))
      → (d : Debugger m) (ports : List ℕ) → m.task_threads d.world ≡ some ports
      → forall_threads m visitor d ≡ deallocated d (each_world f ports d.world)
  unfolding forall_threads
  forall_threads-world f visitor answers d ports e =
      rw (e, forall_threads)
        (bind_some (visit_each m visitor ports) _ d (visit_each-world f visitor answers ports d))
