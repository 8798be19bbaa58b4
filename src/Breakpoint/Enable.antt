-- ===== src/Breakpoint/Enable.antt =====
-- Enabling and disabling a breakpoint: the trap in memory, and the view that does not change.
use rustdbg.Prelude.{
  ℕ, ◌+◌, ◌≡◌, refl, sym, ap, ◌∙◌, subst, inl, inr, true, false, some, List, [], ◌∷◌, arith, ◌==◌,
  Bool-cases, get_elem?, set, get_elem?-set_self, get_elem?-set_ne, get_elem?-lt, All, All-get,
}
use native.Mathlib.Nat.{add-zero}
use rustdbg.Mach.{Mach}
use rustdbg.Mach.Laws.{MemoryLaws}
use rustdbg.Debugger.{Breakpoint, Debugger, listed, write, poke}
use rustdbg.Breakpoint.{int_3, insert, remove, enable, enable_value, first_byte}
use rustdbg.Breakpoint.View.{
  hides, overlay, overlay-set_other, overlay-set_enabled, overlay-agree, IsAddress, view,
}
use rustdbg.Breakpoint.Read.{read-view, poke-at, poke-other}

-- Every enabled breakpoint keeps the byte that the view shows at its address.
pub record IsConsistent {m : Mach} (laws : MemoryLaws m) (d : Debugger m) : Type 0 where
  pub addresses : All IsAddress d.breakpoints
  pub keeps :
      (i : ℕ) (b : Breakpoint)
      → get_elem? d.breakpoints i ≡ some b
      → b.enabled ≡ true
      → view laws d b.address ≡ some b.patch

first_byte-get : (bs : List ℕ) (old p : ℕ) → get_elem? bs 0 ≡ some p → first_byte bs old ≡ p
first_byte-get [] old p e = cc
first_byte-get (x ∷ bs) old p e = cc

module _ {m : Mach} (laws : MemoryLaws m) where
  open laws use {byte, read_length, read_bytes, read_mapped}

  module _ (d : Debugger m) (i : ℕ) (b : Breakpoint) (at : get_elem? d.breakpoints i ≡ some b)
      (valid : All IsAddress d.breakpoints) where
    -- What `enable(true)` does to a breakpoint that is not enabled, at a mapped address.
    abbrev pub inserted : ℕ → Debugger m
    inserted p = record d {
      world = poke m d.world b.address (int_3 ∷ []);
      breakpoints = set d.breakpoints i (record b { patch = p; enabled = true });
    }

    pub enable-inserted :
        (y p : ℕ)
        → b.enabled ≡ false
        → byte d.world b.address ≡ some y
        → view laws d b.address ≡ some p
        → enable d (listed i) true ≡ inserted p
    unfolding enable enable_value insert write
    enable-inserted y p off mapped shows =
        let (result, byte_read) =
          read-view laws d (b.patch ∷ []) b.address 1 0 (read_mapped d.world b.address mapped) valid
            (omega (arith, All-get IsAddress d.breakpoints i valid at)) (omega arith)
            (omega arith) in
        let known : view laws d (b.address + 0) ≡ some p =
          ap (view laws d) (add-zero b.address) ∙ shows in
        rw (at, off, result, first_byte-get _ b.patch p (byte_read ∙ known), enable)

    abbrev pub removed : Debugger m
    removed = record d {
      world = poke m d.world b.address (b.patch ∷ []);
      breakpoints = set d.breakpoints i (record b { enabled = false });
    }

    pub enable-removed : b.enabled ≡ true → enable d (listed i) false ≡ removed
    unfolding enable enable_value remove write
    enable-removed on = rw (at, on, enable)

    pub view-inserted :
        (p y x : ℕ)
        → b.enabled ≡ false
        → byte d.world b.address ≡ some y
        → view laws d b.address ≡ some p
        → view laws (inserted p) x ≡ view laws d x
    unfolding hides
    view-inserted p y x off mapped shows = elim (Bool-cases (b.address == x)) [
      | inl here ↦
          let e : b.address ≡ x = ground arith in
          subst (λ k. view laws (inserted p) k ≡ view laws d k) e
            (overlay-set_enabled d.breakpoints i b.address p b
                (record b { patch = p; enabled = true }) (byte d.world b.address) _ at (rw off)
                (ground arith) refl shows
              ∙ sym shows)
      | inr there ↦
          overlay-set_other d.breakpoints i x b (record b { patch = p; enabled = true }) _ at
            (rw off) (ground arith)
          ∙ ap (overlay d.breakpoints x) (poke-other laws d.world b.address int_3 x (ground arith))
    ]

    -- The others at the address keep the same byte, since all keep the one that shows.
    removed-agree :
        IsConsistent laws d
        → b.enabled ≡ true
        → (j : ℕ) (b' : Breakpoint) → get_elem? removed.breakpoints j ≡ some b'
        → hides b' b.address ≡ true
        → b'.patch ≡ b.patch
    unfolding hides
    removed-agree c on j b' there h = elim (Bool-cases (i == j)) [
      | inl same ↦ ground (
        arith,
        get_elem?-set_self d.breakpoints i (record b { enabled = false }),
        get_elem?-lt d.breakpoints i at,
      )
      | inr other ↦ ground (
        arith,
        get_elem?-set_ne d.breakpoints {i = i} {j = j} (record b { enabled = false }),
        c.keeps i b at on,
        c.keeps j b',
        ap (view laws d) (address h),
      )
    ]
      where
        address : hides b' b.address ≡ true → b'.address ≡ b.address
        address h = ground arith

    pub view-removed :
        (y x : ℕ)
        → IsConsistent laws d
        → b.enabled ≡ true
        → byte d.world b.address ≡ some y
        → view laws removed x ≡ view laws d x
    unfolding hides
    view-removed y x c on mapped = elim (Bool-cases (b.address == x)) [
      | inl here ↦
          let e : b.address ≡ x = ground arith in
          subst (λ k. view laws removed k ≡ view laws d k) e
            (ap (overlay removed.breakpoints b.address)
                (poke-at laws d.world b.address b.patch mapped)
              ∙ overlay-agree removed.breakpoints b.address b.patch (removed-agree c on)
              ∙ sym (c.keeps i b at on))
      | inr there ↦
          overlay-set_other d.breakpoints i x b (record b { enabled = false }) _ at (ground arith)
            refl
          ∙ ap (overlay d.breakpoints x)
              (poke-other laws d.world b.address b.patch x (ground arith))
    ]
