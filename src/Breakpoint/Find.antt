-- ===== src/Breakpoint/Find.antt =====
-- Making, finding and deleting breakpoints.
use rustdbg.Prelude.{
  ℕ, suc, ◌+◌, ◌^◌, ◌<◌, ◌≡◌, refl, ap, ◌∙◌, ◌≢◌, ◌↔◌, inl, inr, true, false, Option, none, some,
  List, [], ◌∷◌, ◌++◌, arith, ◌==◌, Bool-cases, get_elem?, take, get_elem?-append_length,
  get_elem?-append_last, All, All-append,
}
use mathlib.Core.Option
use rustdbg.Mach.{Mach}
use rustdbg.Mach.Laws.{MemoryLaws}
use rustdbg.Debugger.{Breakpoint, Debugger, BreakpointRef, listed, transient}
use rustdbg.Breakpoint.{
  find_ref, new_breakpoint, create_breakpoint, find_from, find_breakpoint, delete_breakpoints,
}
use rustdbg.Breakpoint.View.{IsAddress, view, overlay, hides}
use rustdbg.Breakpoint.Enable.{IsConsistent}

-- No breakpoint of the list has the address.
abbrev pub Absent : List Breakpoint → ℕ → Type 0
Absent bs a = All (λ b. b.address ≢ a) bs

-- `i` is the place of the first one that has it.
abbrev pub IsFirstAt : List Breakpoint → ℕ → ℕ → Type 0
IsFirstAt bs a i =
    (b : Breakpoint) × (get_elem? bs i ≡ some b) × (b.address ≡ a) × Absent (take i bs) a

data FromCases (bs : List Breakpoint) (a i : ℕ) : Option ℕ → Type 0 where
  at_place : (k : ℕ) {o : Option ℕ} → o ≡ some (i + k) → IsFirstAt bs a k → FromCases bs a i o
  nowhere : {o : Option ℕ} → o ≡ none → Absent bs a → FromCases bs a i o

find_from-FromCases : (bs : List Breakpoint) (a i : ℕ) → FromCases bs a i (find_from bs a i)
unfolding find_from
find_from-FromCases [] a i = nowhere refl tt
find_from-FromCases (b ∷ bs) a i = elim (Bool-cases (b.address == a)) [
  | inl here ↦ rw (here, find_from) (at_place 0 (ap some (omega arith)) (b, refl, ground arith, tt))
  | inr there ↦ rw (there, find_from) (later (ground arith) (find_from-FromCases bs a (i + 1)))
]
  where
    later : {o : Option ℕ} → b.address ≢ a → FromCases bs a (i + 1) o → FromCases (b ∷ bs) a i o
    later ne (at_place k e (c, at, same, before)) =
        at_place (suc k) (e ∙ ap some (omega arith)) (c, at, same, (ne, before))
    later ne (nowhere e absent) = nowhere e (ne, absent)

-- What `findBreakpoint` answers: the first listed breakpoint with the address, or else the first
-- transient one, or NULL where there is none.
pub data Located {m : Mach} (d : Debugger m) (a : ℕ) : Option BreakpointRef → Type 0 where
  among_listed :
      (k : ℕ) {o : Option BreakpointRef}
      → o ≡ some (listed k)
      → IsFirstAt d.breakpoints a k
      → Located d a o
  among_transient :
      (k : ℕ) {o : Option BreakpointRef}
      → o ≡ some (transient k)
      → Absent d.breakpoints a
      → IsFirstAt d.transient_breakpoints a k
      → Located d a o
  missing :
      {o : Option BreakpointRef}
      → o ≡ none
      → Absent d.breakpoints a
      → Absent d.transient_breakpoints a
      → Located d a o

overlay-append_new :
    (bs : List Breakpoint) (b : Breakpoint) (x : ℕ) (c : Option ℕ)
    → b.enabled ≡ false
    → overlay (bs ++ b ∷ []) x c ≡ overlay bs x c
unfolding hides
overlay-append_new [] b x c off = rw off
overlay-append_new (h ∷ bs) b x c off = overlay-append_new bs b x _ off

module _ {m : Mach} where
  -- `findBreakpoint` finds exactly what there is.
  pub find_breakpoint-Located : (d : Debugger m) (a : ℕ) → Located d a (find_breakpoint d a)
  unfolding find_breakpoint
  find_breakpoint-Located d a =
      split (find_from-FromCases d.breakpoints a 0)
        (find_from-FromCases d.transient_breakpoints a 0)
    where
      split :
          {o o' : Option ℕ}
          → FromCases d.breakpoints a 0 o
          → FromCases d.transient_breakpoints a 0 o'
          → Located d a (elim o [ some i ↦ some (listed i) | none ↦ Option.map transient o' ])
      split (at_place k e first) other =
          among_listed k (rw e (ap (λ i. some (listed i)) (omega arith))) first
      split (nowhere e absent) (at_place k e' first) =
          among_transient k (rw (e, e') (ap (λ i. some (transient i)) (omega arith))) absent first
      split (nowhere e absent) (nowhere e' absent') = missing (rw (e, e')) absent absent'

  -- A new breakpoint is not enabled, is found by its pointer, and changes neither the memory shown
  -- nor the invariant.
  pub create_breakpoint-IsConsistent :
      (laws : MemoryLaws m) (d : Debugger m) (a : ℕ) (callback : Option ℕ)
      → a < 2 ^ 64
      → IsConsistent laws d
      → let (r, d') = create_breakpoint d a callback in
        IsConsistent laws d'
        × (find_ref d' r ≡ some (new_breakpoint a callback))
        × ((x : ℕ) → view laws d' x ≡ view laws d x)
  unfolding create_breakpoint
  create_breakpoint-IsConsistent laws d a callback h c = (
    record {
      addresses = All-append IsAddress d.breakpoints (b ∷ []) c.addresses (h, tt);
      keeps = λ i k at on. shown k.address ∙ c.keeps i k (old i k at on) on;
    },
    get_elem?-append_length d.breakpoints b [],
    shown,
  )
    where
      b : Breakpoint
      b = new_breakpoint a callback

      shown : (x : ℕ) → overlay (d.breakpoints ++ b ∷ []) x (laws.byte d.world x) ≡ view laws d x
      shown x = overlay-append_new d.breakpoints b x (laws.byte d.world x) refl

      old :
          (i : ℕ) (k : Breakpoint)
          → get_elem? (d.breakpoints ++ b ∷ []) i ≡ some k
          → k.enabled ≡ true
          → get_elem? d.breakpoints i ≡ some k
      old i k at on = elim (get_elem?-append_last d.breakpoints b i at) [
        | inl e ↦ e
        | inr e ↦ absurd (cc (ap (λ (z : Breakpoint). z.enabled) e, on))
      ]

-- `deleteBreakpoints` empties its list exactly when all breakpoints in it are disabled; otherwise
-- its assertion stops the program.
pub delete_breakpoints_iff :
    (bs : List Breakpoint) → (delete_breakpoints bs ≡ some []) ↔ All (λ b. b.enabled ≡ false) bs
unfolding delete_breakpoints
delete_breakpoints_iff [] = ((λ _. tt), (λ _. refl))
delete_breakpoints_iff (b ∷ bs) = (
  (λ h. ground (arith, (delete_breakpoints_iff bs).0)),
  (λ h. rw h.0 ((delete_breakpoints_iff bs).1 h.1)),
)
