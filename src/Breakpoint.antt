-- ===== src/Breakpoint.antt =====
-- lib/src/MDBBreakpoint.cpp, and the part of MDBDebugger.cpp that makes, finds and deletes
-- breakpoints.
pub mod View
pub mod Read
pub mod Enable
pub mod Traps
pub mod Restore
pub mod Flags
pub mod Find
use rustdbg.Prelude.{
  ℕ, zero, suc, ◌+◌, Bool, true, false, not, ◌&&◌, Option, none, some, List, [], ◌∷◌, ◌++◌,
  if◌then◌else◌, ◌==◌, length, get_elem?, set, ℤ, pos, negsuc,
}
use mathlib.Core.Option
use rustdbg.Mach.{Mach}
use rustdbg.Debugger.{Breakpoint, Debugger, BreakpointRef, listed, transient, read, write}

-- An `int` as a condition.
abbrev pub is_true : ℤ → Bool
is_true (pos zero) = false
is_true (pos (suc n)) = true
is_true (negsuc n) = true

abbrev pub int_3 : ℕ
int_3 = 0xcc

-- `patch` after the read: the first byte of the one-byte buffer.
abbrev pub first_byte : List ℕ → ℕ → ℕ
first_byte [] old = old
first_byte (x ∷ xs) old = x

-- The constructor; `patch` is not initialised, and 0 stands for what it holds.
abbrev pub new_breakpoint : ℕ → Option ℕ → Breakpoint
new_breakpoint a c = record { address = a; patch = 0; enabled = false; callback = c }

-- The first place, from `i` on, of a breakpoint with the address.
unfoldable pub find_from : List Breakpoint → ℕ → ℕ → Option ℕ
find_from [] address i = none
find_from (b ∷ bs) address i =
    let rest = find_from bs address (i + 1) in if b.address == address then some i else rest

-- `deleteBreakpoints` on a list: the list behind it, or `none` where the assertion stops the program.
unfoldable pub delete_breakpoints : List Breakpoint → Option (List Breakpoint)
delete_breakpoints [] = some []
delete_breakpoints (b ∷ bs) = if b.enabled then none else delete_breakpoints bs

module _ {m : Mach} where
  -- The branch of `enable(true)` on a breakpoint that is not enabled.
  unfoldable pub insert : Debugger m → Breakpoint → Breakpoint × Debugger m
  insert d b =
      let (got, buffer) = read d (b.patch ∷ []) b.address 1 in
      let b' = record b { patch = first_byte buffer b.patch } in
      let (put, d') = write d b.address (int_3 ∷ []) in
      if is_true got
      then (record b' { enabled = is_true put }, d')
      else (record b' { enabled = false }, d)

  -- The branch of `enable(false)` on an enabled breakpoint: `write(…) == false`.
  unfoldable pub remove : Debugger m → Breakpoint → Breakpoint × Debugger m
  remove d b =
      let (put, d') = write d b.address (b.patch ∷ []) in
      (record b { enabled = not (is_true put) }, d')

  unfoldable pub enable_value : Debugger m → Breakpoint → Bool → Breakpoint × Debugger m
  enable_value d b on =
      if not b.enabled && on then insert d b else if b.enabled && not on then remove d b else (b, d)

  abbrev pub find_ref : Debugger m → BreakpointRef → Option Breakpoint
  find_ref d (listed i) = get_elem? d.breakpoints i
  find_ref d (transient i) = get_elem? d.transient_breakpoints i

  abbrev pub put_ref : Debugger m → BreakpointRef → Breakpoint → Debugger m
  put_ref d (listed i) b = record d { breakpoints = set d.breakpoints i b }
  put_ref d (transient i) b = record d { transient_breakpoints = set d.transient_breakpoints i b }

  -- `breakpoint->enable(on)` through a pointer.
  unfoldable pub enable : Debugger m → BreakpointRef → Bool → Debugger m
  enable d r on = elim (find_ref d r) [
    | none ↦ d
    | some b ↦ let (b', d') = enable_value d b on in put_ref d' r b'
  ]

  unfoldable pub disable : Debugger m → BreakpointRef → Debugger m
  disable d r = enable d r false

  -- `onBreakpointReached` runs the callback, if there is one, which is recorded. What a callback does is
  -- its own; the only one in the repository logs.
  unfoldable pub on_breakpoint_reached : Debugger m → BreakpointRef → Debugger m
  on_breakpoint_reached d r = elim (find_ref d r) [
    | none ↦ d
    | some b ↦ elim b.callback [ none ↦ d | some c ↦ record d { executed = c ∷ d.executed } ]
  ]

  -- The new object stands behind the others; its pointer is its place.
  unfoldable pub create_breakpoint : Debugger m → ℕ → Option ℕ → BreakpointRef × Debugger m
  create_breakpoint d address callback = (
    listed (length d.breakpoints),
    record d { breakpoints = d.breakpoints ++ new_breakpoint address callback ∷ [] },
  )

  -- `findBreakpoint`: the listed breakpoints first, then the transient ones.
  unfoldable pub find_breakpoint : Debugger m → ℕ → Option BreakpointRef
  find_breakpoint d address = elim (find_from d.breakpoints address 0) [
    | some i ↦ some (listed i)
    | none ↦ Option.map transient (find_from d.transient_breakpoints address 0)
  ]

  unfoldable pub breakpoint_enabled : Debugger m → BreakpointRef → Bool
  breakpoint_enabled d r = elim (find_ref d r) [ none ↦ false | some b ↦ b.enabled ]
