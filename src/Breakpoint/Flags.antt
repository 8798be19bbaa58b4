-- ===== src/Breakpoint/Flags.antt =====
-- Which breakpoints a call of `enable` touches, by their pointers.
use rustdbg.Prelude.{
  ◌≡◌, refl, sym, ap, ◌∙◌, ◌≢◌, Bool, Option, none, some, [], arith, get_elem?, get_elem?-set_self,
  get_elem?-set_ne, get_elem?-lt,
}
use native.Mathlib.Decide.{ℕ_discrete}
use rustdbg.Mach.{Mach}
use rustdbg.Mach.Laws.{MemoryLaws}
use rustdbg.Debugger.{Breakpoint, Debugger, BreakpointRef, listed, transient, write}
use rustdbg.Breakpoint.{insert, remove, enable_value, enable, find_ref, put_ref}
use rustdbg.Breakpoint.Restore.{enable_value-enabled}

pub BreakpointRef-discrete : Discrete BreakpointRef
BreakpointRef-discrete = hlevel ℕ_discrete

module _ {m : Mach} where
  -- Only the world changes beside the breakpoint.
  enable_value-rest :
      (d : Debugger m) (b : Breakpoint) (on : Bool)
      → let d' = (enable_value d b on).1 in
        (d'.breakpoints ≡ d.breakpoints)
        × (d'.transient_breakpoints ≡ d.transient_breakpoints)
        × (d'.process ≡ d.process)
        × (d'.threads ≡ d.threads)
  unfolding enable_value insert remove write
  enable_value-rest d b on = ground arith

  -- Every pointer to a breakpoint finds one with the same address and the same mark.
  abbrev pub SameMarks : Debugger m → Debugger m → Type 0
  SameMarks d d' =
      (q : BreakpointRef) (b : Breakpoint)
      → find_ref d q ≡ some b
      → (b' : Breakpoint) × (find_ref d' q ≡ some b')
        × (b'.address ≡ b.address)
        × (b'.enabled ≡ b.enabled)

  enable_value-address :
      (d : Debugger m) (b : Breakpoint) (on : Bool) → (enable_value d b on).0.address ≡ b.address
  unfolding enable_value insert remove write
  enable_value-address d b on = ground arith

  enable_value-callback :
      (d : Debugger m) (b : Breakpoint) (on : Bool) → (enable_value d b on).0.callback ≡ b.callback
  unfolding enable_value insert remove write
  enable_value-callback d b on = ground arith

  find-put_own :
      (d : Debugger m) (r : BreakpointRef) (b b' : Breakpoint)
      → find_ref d r ≡ some b
      → find_ref (put_ref d r b') r ≡ some b'
  find-put_own d (listed i) b b' at =
      get_elem?-set_self d.breakpoints i b' (get_elem?-lt d.breakpoints i at)
  find-put_own d (transient i) b b' at =
      get_elem?-set_self d.transient_breakpoints i b' (get_elem?-lt d.transient_breakpoints i at)

  find-put_other :
      (d : Debugger m) (r q : BreakpointRef) (b' : Breakpoint)
      → r ≢ q
      → find_ref (put_ref d r b') q ≡ find_ref d q
  find-put_other d (listed i) (listed j) b' ne =
      get_elem?-set_ne d.breakpoints b' (λ e. ne (ap listed e))
  find-put_other d (listed i) (transient j) b' ne = refl
  find-put_other d (transient i) (listed j) b' ne = refl
  find-put_other d (transient i) (transient j) b' ne =
      get_elem?-set_ne d.transient_breakpoints b' (λ e. ne (ap transient e))

  pub find_ref-cong :
      (d d' : Debugger m) (q : BreakpointRef)
      → d'.breakpoints ≡ d.breakpoints
      → d'.transient_breakpoints ≡ d.transient_breakpoints
      → find_ref d' q ≡ find_ref d q
  find_ref-cong d d' (listed i) e f = ap (λ bs. get_elem? bs i) e
  find_ref-cong d d' (transient i) e f = ap (λ bs. get_elem? bs i) f

  enable-put :
      (d : Debugger m) (r : BreakpointRef) (b : Breakpoint) (on : Bool)
      → find_ref d r ≡ some b
      → enable d r on ≡ put_ref (enable_value d b on).1 r (enable_value d b on).0
  unfolding enable
  enable-put d (listed i) b on at = rw (at, enable)
  enable-put d (transient i) b on at = rw (at, enable)

  enable-none :
      (d : Debugger m) (r : BreakpointRef) (on : Bool) → find_ref d r ≡ none → enable d r on ≡ d
  unfolding enable
  enable-none d (listed i) on at = rw (at, enable)
  enable-none d (transient i) on at = rw (at, enable)

  -- A pointer to another breakpoint finds what it found before.
  pub enable-other :
      (d : Debugger m) (r q : BreakpointRef) (on : Bool)
      → r ≢ q
      → find_ref (enable d r on) q ≡ find_ref d q
  enable-other d r q on ne = go (find_ref d r) refl
    where
      go : (o : Option Breakpoint) → find_ref d r ≡ o → find_ref (enable d r on) q ≡ find_ref d q
      go none e = ap (λ (k : Debugger m). find_ref k q) (enable-none d r on e)
      go (some b) e =
          let d' = (enable_value d b on).1 in
          let (same, same', _, _) = enable_value-rest d b on in
          ap (λ (k : Debugger m). find_ref k q) (enable-put d r b on e)
          ∙ find-put_other d' r q (enable_value d b on).0 ne
          ∙ find_ref-cong d d' q same same'

  pub enable-process :
      (d : Debugger m) (r : BreakpointRef) (on : Bool) → (enable d r on).process ≡ d.process
  enable-process d r on = go r (find_ref d r) refl
    where
      go :
          (r : BreakpointRef) (o : Option Breakpoint)
          → find_ref d r ≡ o
          → (enable d r on).process ≡ d.process
      go r none e = ap (λ (k : Debugger m). k.process) (enable-none d r on e)
      go (listed i) (some b) e =
          let (_, _, same, _) = enable_value-rest d b on in
          ap (λ (k : Debugger m). k.process) (enable-put d (listed i) b on e) ∙ same
      go (transient i) (some b) e =
          let (_, _, same, _) = enable_value-rest d b on in
          ap (λ (k : Debugger m). k.process) (enable-put d (transient i) b on e) ∙ same

  pub enable-threads :
      (d : Debugger m) (r : BreakpointRef) (on : Bool) → (enable d r on).threads ≡ d.threads
  enable-threads d r on = go r (find_ref d r) refl
    where
      go :
          (r : BreakpointRef) (o : Option Breakpoint)
          → find_ref d r ≡ o
          → (enable d r on).threads ≡ d.threads
      go r none e = ap (λ (k : Debugger m). k.threads) (enable-none d r on e)
      go (listed i) (some b) e =
          let (_, _, _, same) = enable_value-rest d b on in
          ap (λ (k : Debugger m). k.threads) (enable-put d (listed i) b on e) ∙ same
      go (transient i) (some b) e =
          let (_, _, _, same) = enable_value-rest d b on in
          ap (λ (k : Debugger m). k.threads) (enable-put d (transient i) b on e) ∙ same

  -- The breakpoint itself keeps its address and is marked as asked.
  pub enable-own :
      (laws : MemoryLaws m) (d : Debugger m) (r : BreakpointRef) (b : Breakpoint) (on : Bool)
      → find_ref d r ≡ some b
      → (b' : Breakpoint) × (find_ref (enable d r on) r ≡ some b')
        × (b'.address ≡ b.address)
        × (b'.enabled ≡ on)
  enable-own laws d r b on at =
      let d' = (enable_value d b on).1 in
      let (same, same', _, _) = enable_value-rest d b on in
      (
        (enable_value d b on).0,
        ap (λ (k : Debugger m). find_ref k r) (enable-put d r b on at)
            ∙ find-put_own d' r b (enable_value d b on).0 (find_ref-cong d d' r same same' ∙ at),
        enable_value-address d b on,
        enable_value-enabled laws d b on,
      )

  pub enable-no_transient :
      (d : Debugger m) (r : BreakpointRef) (on : Bool)
      → d.transient_breakpoints ≡ []
      → (enable d r on).transient_breakpoints ≡ []
  enable-no_transient d r on e = go r (find_ref d r) refl
    where
      go :
          (r : BreakpointRef) (o : Option Breakpoint)
          → find_ref d r ≡ o
          → (enable d r on).transient_breakpoints ≡ []
      go r none at = ap (λ (k : Debugger m). k.transient_breakpoints) (enable-none d r on at) ∙ e
      go (listed i) (some b) at =
          let (_, same, _, _) = enable_value-rest d b on in
          ap (λ (k : Debugger m). k.transient_breakpoints) (enable-put d (listed i) b on at)
          ∙ same
          ∙ e
      go (transient i) (some b) at = absurd (cc (ap (λ bs. get_elem? bs i) e, at))

  -- A pointer to any breakpoint finds one with the address and the callback it had.
  pub enable-names :
      (d : Debugger m) (r q : BreakpointRef) (b : Breakpoint) (on : Bool)
      → find_ref d q ≡ some b
      → (b' : Breakpoint) × (find_ref (enable d r on) q ≡ some b')
        × (b'.address ≡ b.address)
        × (b'.callback ≡ b.callback)
  enable-names d r q b on at = elim (BreakpointRef-discrete r q) [
    | yes same ↦
        let at_r : find_ref d r ≡ some b = ap (λ k. find_ref d k) same ∙ at in
        let d' = (enable_value d b on).1 in
        let (listed_same, transient_same, _, _) = enable_value-rest d b on in
        (
          (enable_value d b on).0,
          ap (λ k. find_ref (enable d r on) k) (sym same)
              ∙ ap (λ (k : Debugger m). find_ref k r) (enable-put d r b on at_r)
              ∙ find-put_own d' r b (enable_value d b on).0
                  (find_ref-cong d d' r listed_same transient_same ∙ at_r),
          enable_value-address d b on,
          enable_value-callback d b on,
        )
    | no differs ↦ (b, enable-other d r q on differs ∙ at, refl, refl)
  ]
