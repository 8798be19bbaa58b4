-- ===== src/Breakpoint/Traps.antt =====
-- What enabling and disabling a breakpoint promise.
use rustdbg.Prelude.{
  ℕ, ◌^◌, ◌<◌, ◌≡◌, refl, sym, ap, ◌∙◌, subst, ◌≢◌, inl, inr, true, false, some, arith, ◌==◌,
  Bool-cases, get_elem?, set, get_elem?-set_self, get_elem?-set_ne, get_elem?-lt, All-get, All-set,
}
use rustdbg.Mach.{Mach}
use rustdbg.Mach.Laws.{MemoryLaws}
use rustdbg.Debugger.{Breakpoint, Debugger, listed}
use rustdbg.Breakpoint.{int_3, enable, disable}
use rustdbg.Breakpoint.View.{IsAddress, view}
use rustdbg.Breakpoint.Read.{view-mapped, poke-at, poke-other}
use rustdbg.Breakpoint.Enable.{
  IsConsistent, enable-inserted, enable-removed, view-inserted, view-removed,
}

-- Behind a change of the breakpoint at `address`: the invariant, the trap or the old byte there, no
-- change elsewhere, and none in what the debugger shows.
pub record Changed {m : Mach} (laws : MemoryLaws m) (address there : ℕ) (d d' : Debugger m)
    : Type 0 where
  pub consistent : IsConsistent laws d'
  pub written : laws.byte d'.world address ≡ some there
  pub elsewhere : (x : ℕ) → address ≢ x → laws.byte d'.world x ≡ laws.byte d.world x
  pub shown : (x : ℕ) → view laws d' x ≡ view laws d x

module _ {m : Mach} (laws : MemoryLaws m) where
  open laws use {byte}

  -- A changed breakpoint keeps the invariant if it keeps the address and the byte that shows.
  set-IsConsistent :
      (d : Debugger m) (i : ℕ) (b b' : Breakpoint) (w : m.World)
      → get_elem? d.breakpoints i ≡ some b
      → IsConsistent laws d
      → b'.address ≡ b.address
      → ((x : ℕ)
          → view laws (record d { world = w; breakpoints = set d.breakpoints i b' }) x
            ≡ view laws d x)
      → (b'.enabled ≡ true → view laws d b.address ≡ some b'.patch)
      → IsConsistent laws (record d { world = w; breakpoints = set d.breakpoints i b' })
  set-IsConsistent d i b b' w at c same shown new = record {
    addresses =
        All-set IsAddress d.breakpoints i b' c.addresses
          (subst (λ k. k < 2 ^ 64) (sym same) (All-get IsAddress d.breakpoints i c.addresses at));
    keeps = λ j h there on. elim (Bool-cases (i == j)) [
      | inl here ↦
          let e : h ≡ b' =
            ground
              (arith, get_elem?-set_self d.breakpoints i b', get_elem?-lt d.breakpoints i at) in
          shown h.address
          ∙ subst (λ (k : Breakpoint). view laws d k.address ≡ some k.patch) (sym e)
              (ap (view laws d) same ∙ new (ap (λ (k : Breakpoint). k.enabled) (sym e) ∙ on))
      | inr other ↦
          shown h.address
          ∙ c.keeps j h (sym (get_elem?-set_ne d.breakpoints b' (ground arith)) ∙ there) on
    ];
  }

  -- Enabling a breakpoint at a mapped address puts the trap there, and nothing else can be seen
  -- of it: the other bytes stay, `MDBDebugger::read` shows the program's byte, and the invariant holds.
  pub enable-Changed :
      (d : Debugger m) (i : ℕ) (b : Breakpoint) {y : ℕ}
      → get_elem? d.breakpoints i ≡ some b
      → b.enabled ≡ false
      → byte d.world b.address ≡ some y
      → IsConsistent laws d
      → Changed laws b.address int_3 d (enable d (listed i) true)
  enable-Changed d i b {y} at off mapped c =
      let (p, shows) = view-mapped laws d b.address mapped in
      let same = enable-inserted laws d i b at c.addresses y p off mapped shows in
      let shown = λ (x : ℕ). view-inserted laws d i b at c.addresses p y x off mapped shows in
      subst (Changed laws b.address int_3 d) (sym same) (record {
        consistent = set-IsConsistent d i b _ _ at c refl shown (λ _. shows);
        written = poke-at laws d.world b.address int_3 mapped;
        elsewhere = λ x ne. poke-other laws d.world b.address int_3 x ne;
        shown = shown;
      })

  -- Disabling an enabled breakpoint at a mapped address puts its byte back there.
  pub disable-Changed :
      (d : Debugger m) (i : ℕ) (b : Breakpoint) {y : ℕ}
      → get_elem? d.breakpoints i ≡ some b
      → b.enabled ≡ true
      → byte d.world b.address ≡ some y
      → IsConsistent laws d
      → Changed laws b.address b.patch d (disable d (listed i))
  unfolding disable
  disable-Changed d i b {y} at on mapped c =
      let same = enable-removed laws d i b at c.addresses on in
      let shown = λ (x : ℕ). view-removed laws d i b at c.addresses y x c on mapped in
      subst (Changed laws b.address b.patch d) (sym same) (record {
        consistent = set-IsConsistent d i b _ _ at c refl shown (λ h. absurd (cc));
        written = poke-at laws d.world b.address b.patch mapped;
        elsewhere = λ x ne. poke-other laws d.world b.address b.patch x ne;
        shown = shown;
      })
