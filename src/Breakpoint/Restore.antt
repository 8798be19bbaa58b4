-- ===== src/Breakpoint/Restore.antt =====
-- A breakpoint set and removed leaves the memory as it was, and what the code does not check.
use rustdbg.Prelude.{
  ℕ, ◌≡◌, refl, sym, ap, ◌∙◌, subst, ◌≢◌, inl, inr, Bool, true, false, some, List, [], ◌∷◌, arith,
  ◌==◌, Bool-cases, Option-cases, get_elem?, get_elem?-set_self, get_elem?-set_ne, get_elem?-lt,
}
use rustdbg.Mach.{Mach}
use rustdbg.Mach.Laws.{MemoryLaws}
use rustdbg.Debugger.{Breakpoint, Debugger, listed, read, write}
use rustdbg.Breakpoint.{int_3, insert, remove, enable_value, enable, disable, is_true}
use rustdbg.Breakpoint.View.{view}
use rustdbg.Breakpoint.Enable.{IsConsistent, enable-inserted, enable-removed}
use rustdbg.Breakpoint.Traps.{enable-Changed, disable-Changed}

module _ {m : Mach} (laws : MemoryLaws m) where
  open laws use {byte}

  -- Where no other enabled breakpoint has the address, setting a breakpoint and removing it again
  -- restores every byte of the memory.
  pub disable-enable :
      (d : Debugger m) (i : ℕ) (b : Breakpoint) {y : ℕ}
      → get_elem? d.breakpoints i ≡ some b
      → b.enabled ≡ false
      → byte d.world b.address ≡ some y
      → view laws d b.address ≡ some y
      → IsConsistent laws d
      → (x : ℕ) → byte (disable (enable d (listed i) true) (listed i)).world x ≡ byte d.world x
  disable-enable d i b {y} at off mapped alone c x =
      let set_up = enable-Changed laws d i b at off mapped c in
      let same = enable-inserted laws d i b at c.addresses y y off mapped alone in
      let b' : Breakpoint = record b { patch = y; enabled = true } in
      let at' : get_elem? (enable d (listed i) true).breakpoints i ≡ some b' =
        ap (λ (k : Debugger m). get_elem? k.breakpoints i) same
        ∙ get_elem?-set_self d.breakpoints i b' (get_elem?-lt d.breakpoints i at) in
      let undone =
        disable-Changed laws (enable d (listed i) true) i b' at' refl set_up.written
          set_up.consistent in
      elim (Bool-cases (b.address == x)) [
        | inl here ↦
            subst
              (λ k. byte (disable (enable d (listed i) true) (listed i)).world k ≡ byte d.world k)
              (ground arith) (undone.written ∙ sym mapped)
        | inr there ↦ undone.elsewhere x (ground arith) ∙ set_up.elsewhere x (ground arith)
      ]

  -- Two enabled breakpoints at one address: disabling one takes away the trap of the other, which
  -- stays marked as enabled.
  pub disable-duplicate :
      (d : Debugger m) (i j : ℕ) (b b' : Breakpoint) {y : ℕ}
      → get_elem? d.breakpoints i ≡ some b
      → get_elem? d.breakpoints j ≡ some b'
      → i ≢ j
      → b.enabled ≡ true
      → b'.address ≡ b.address
      → byte d.world b.address ≡ some y
      → b.patch ≢ int_3
      → IsConsistent laws d
      → (get_elem? (disable d (listed i)).breakpoints j ≡ some b')
        × (byte (disable d (listed i)).world b'.address ≢ some int_3)
  unfolding disable
  disable-duplicate d i j b b' at at' ne on same mapped no_trap c =
      let gone = disable-Changed laws d i b at on mapped c in
      (
        ap (λ (k : Debugger m). get_elem? k.breakpoints j)
              (enable-removed laws d i b at c.addresses on)
            ∙ get_elem?-set_ne d.breakpoints (record b { enabled = false }) ne
            ∙ at',
        λ e. no_trap (cc (gone.written, ap (byte (disable d (listed i)).world) same, e)),
      )

  pub read-is_true : (d : Debugger m) (dst : List ℕ) (a : ℕ) → is_true (read d dst a 1).0 ≡ true
  unfolding read
  read-is_true d dst a = elim (Option-cases (m.vm_read_overwrite d.world a 1)) [
    | inl e ↦ rw e
    | inr (bs, e) ↦ rw (e, laws.read_length d.world a 1 e)
  ]

  pub enable_value-enabled :
      (d : Debugger m) (b : Breakpoint) (on : Bool) → (enable_value d b on).0.enabled ≡ on
  unfolding enable_value insert remove write
  enable_value-enabled d b on = ground (arith, read-is_true d (b.patch ∷ []) b.address)

  enable_value-breakpoints :
      (d : Debugger m) (b : Breakpoint) (on : Bool)
      → (enable_value d b on).1.breakpoints ≡ d.breakpoints
  unfolding enable_value insert remove write
  enable_value-breakpoints d b on = ground arith

  -- `enable` never fails: whatever the system answers to the read and the writes, the breakpoint
  -- ends up marked as asked, because the -1 of a failed read counts as true and `write` always
  -- answers the size.
  pub enable_unchecked :
      (d : Debugger m) (i : ℕ) (b : Breakpoint) (on : Bool)
      → get_elem? d.breakpoints i ≡ some b
      → (b' : Breakpoint) × (get_elem? (enable d (listed i) on).breakpoints i ≡ some b')
        × (b'.enabled ≡ on)
  unfolding enable
  enable_unchecked d i b on at = (
    (enable_value d b on).0,
    rw (at, enable_value-breakpoints d b on, enable)
        (get_elem?-set_self d.breakpoints i _ (get_elem?-lt d.breakpoints i at)),
    enable_value-enabled d b on,
  )
