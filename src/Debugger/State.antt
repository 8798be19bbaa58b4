-- ===== src/Debugger/State.antt =====
-- The objects of the debugger, and runs that may not have ended.
use rustdbg.Prelude.{◌≡◌, ℕ, Bool, Option, none, some, List}
use rustdbg.Mach.{Mach, ThreadInfo, ThreadState32, ThreadState64}

-- `MDBBreakpoint`. `callback` says which callback it has, if any.
pub record Breakpoint : Type 0 where
  pub address : ℕ
  pub patch : ℕ
  pub enabled : Bool
  pub callback : Option ℕ

-- `MDBThread`.
pub record Thread : Type 0 where
  pub thread : ℕ
  pub info : ThreadInfo
  pub state32 : ThreadState32
  pub state64 : ThreadState64

-- `MDBProcess`.
pub record Process : Type 0 where
  pub running : Bool
  pub is_64_bit : Bool
  pub pid : ℕ
  pub threads : List Thread

-- `MDBDebugger` once its process exists. `executed` are the callbacks run so far, newest first.
pub record Debugger (m : Mach) : Type 0 where
  pub world : m.World
  pub threads : List Thread
  pub breakpoints : List Breakpoint
  pub transient_breakpoints : List Breakpoint
  pub process : Process
  pub executed : List ℕ

-- A pointer to a breakpoint: its place in one of the two lists.
pub data BreakpointRef : Type 0 where
  listed transient : ℕ → BreakpointRef

-- A call that may still be running when its fuel is used up, which is `none`.
abbrev pub Run : Mach → Type 0 → Type 0
Run m A = Debugger m → Option (A × Debugger m)

module _ {m : Mach} where
  abbrev pub pure : {A : Type 0} → A → Run m A
  pure a d = some (a, d)

  infixl 5 ◌>>=◌ ◌>>◌
  abbrev pub ◌>>=◌ : {A B : Type 0} → Run m A → (A → Run m B) → Run m B
  ◌>>=◌ r f d = elim (r d) [ none ↦ none | some (a, d') ↦ f a d' ]

  abbrev pub ◌>>◌ : {A B : Type 0} → Run m A → Run m B → Run m B
  r >> k = r >>= λ _. k

  -- A call that has returned hands its answer and its state on.
  pub bind_some :
      {A B : Type 0} (r : Run m A) (f : A → Run m B) (d : Debugger m) {a : A} {d' : Debugger m}
      → r d ≡ some (a, d')
      → (r >>= f) d ≡ f a d'
  bind_some r f d e = rw (e, ◌>>=◌)
