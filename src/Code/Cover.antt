-- ===== src/Code/Cover.antt =====
-- Where every procedure that is called ends in a `ret`, `scanProcedure` ends, and makes a region for
-- each of them.
use rustdbg.Prelude.{
  ℕ, zero, suc, ◌+◌, ◌^◌, ◌≤◌, ◌<◌, ◌≡◌, refl, sym, subst, inl, inr, Bool, true, false, Option,
  none, some, List, [], ◌∷◌, ◌++◌, arith, ◌==◌, if◌then◌else◌, Bool-cases, Option-cases, length,
  All,
}
use rustdbg.Mach.{Mach}
use rustdbg.Debugger.{Debugger}
use rustdbg.Disassembler.{Disassembler}
use rustdbg.Code.{
  Code, CodeRegion, get_region, region_from, contains, is_member, add_region, scan_each,
  scan_procedure,
}
use rustdbg.Code.Region.{contains_iff}
use rustdbg.Code.Scan.{scanned, Grown, Grown-trans, Grown-region}

abbrev pub is_there : Option ℕ → Bool
is_there none = false
is_there (some _) = true

-- Whether a region contains an address.
abbrev pub is_covered : Code → ℕ → Bool
is_covered c x = is_there (get_region c x)

region_from-append :
    (rs qs : List CodeRegion) (x i : ℕ)
    → is_there (region_from rs x i) ≡ true
    → is_there (region_from (rs ++ qs) x i) ≡ true
unfolding region_from
region_from-append [] qs x i e = absurd (cc)
region_from-append (r ∷ rs) qs x i e = elim (Bool-cases (contains r x)) [
  | inl here ↦ rw here
  | inr there ↦ rw there (region_from-append rs qs x (i + 1) (ground arith))
]

region_from-last :
    (rs : List CodeRegion) (r : CodeRegion) (x i : ℕ)
    → contains r x ≡ true
    → is_there (region_from (rs ++ r ∷ []) x i) ≡ true
unfolding region_from
region_from-last [] r x i e = rw e
region_from-last (q ∷ rs) r x i e = elim (Bool-cases (contains q x)) [
  | inl here ↦ rw here
  | inr there ↦ rw there (region_from-last rs r x (i + 1) e)
]

-- A new region contains its address.
add_region-is_covered :
    (c : Code) (address size : ℕ)
    → size < 2 ^ 31
    → is_covered (add_region c address (some size)) address ≡ true
unfolding get_region
add_region-is_covered c address size small = region_from-last c.regions _ address 0 (
    (contains_iff (record { address = address; symbol = _; size = size }) address small).1
      (omega arith))

-- How many addresses of a list no region contains.
abbrev uncovered : List ℕ → Code → ℕ
uncovered [] c = 0
uncovered (u ∷ us) c = (if is_covered c u then 0 else 1) + uncovered us c

uncovered-length : (us : List ℕ) (c : Code) → uncovered us c ≤ length us
uncovered-length [] c = omega arith
uncovered-length (u ∷ us) c = ground (arith, uncovered-length us c)

module _ {m : Mach} (disassemble : Disassembler) (d : Debugger m) where
  Grown-is_covered :
      (c c' : Code) (x : ℕ)
      → Grown disassemble d c c'
      → is_covered c x ≡ true
      → is_covered c' x ≡ true
  unfolding get_region
  Grown-is_covered c c' x g e =
      subst (λ rs. is_there (region_from rs x 0) ≡ true) (sym g.regions)
        (region_from-append c.regions g.added x 0 e)

  uncovered-Grown :
      (us : List ℕ) (c c' : Code) → Grown disassemble d c c' → uncovered us c' ≤ uncovered us c
  uncovered-Grown [] c c' g = omega arith
  uncovered-Grown (u ∷ us) c c' g =
      ground (arith, uncovered-Grown us c c' g, Grown-is_covered c c' u g)

  uncovered-fewer :
      (us : List ℕ) (x : ℕ) (c c' : Code)
      → Grown disassemble d c c'
      → is_member x us ≡ true
      → is_covered c x ≡ false
      → is_covered c' x ≡ true
      → uncovered us c' < uncovered us c
  uncovered-fewer [] x c c' g there old new = absurd (cc)
  uncovered-fewer (u ∷ us) x c c' g there old new = elim (Bool-cases (u == x)) [
    | inl same ↦
        let eq : x ≡ u = ground arith in
        let old' : is_covered c u ≡ false = subst (λ k. is_covered c k ≡ false) eq old in
        let new' : is_covered c' u ≡ true = subst (λ k. is_covered c' k ≡ true) eq new in
        ground (arith, uncovered-Grown us c c' g)
    | inr differs ↦
        let there' : is_member x us ≡ true = ground arith in
        ground (arith, uncovered-fewer us x c c' g there' old new, Grown-is_covered c c' u g)
  ]

  -- A procedure of fewer than 2^31 bytes that ends in a `ret` and calls only addresses of a list.
  abbrev pub EndsIn : List ℕ → ℕ → Type 0
  EndsIn us u =
      (size : ℕ) × (targets : List ℕ) × (scanned disassemble d u ≡ some (some size, targets))
      × (size < 2 ^ 31)
      × All (λ t. is_member t us ≡ true) targets

  member-All : (P : ℕ → Type 0) (us : List ℕ) (x : ℕ) → All P us → is_member x us ≡ true → P x
  member-All P [] x h e = absurd (cc)
  member-All P (u ∷ us) x (h, hs) e = elim (Bool-cases (u == x)) [
    | inl same ↦ let eq : u ≡ x = ground arith in subst P eq h
    | inr differs ↦ member-All P us x hs (ground arith)
  ]

  -- What a scan of an address leaves.
  abbrev pub Scanned : Option (Bool × Code) → Code → ℕ → Type 0
  Scanned o c address =
      (c' : Code) × (o ≡ some (true, c'))
      × Grown disassemble d c c'
      × (is_covered c' address ≡ true)

  scan_each-Scanned :
      (us : List ℕ) (bound : ℕ) (scan : Code → ℕ → Option (Bool × Code))
      → ((c : Code) (x : ℕ)
          → is_member x us ≡ true
          → uncovered us c < bound
          → Scanned (scan c x) c x)
      → (ts : List ℕ) (c : Code) → All (λ t. is_member t us ≡ true) ts
      → uncovered us c < bound
      → (c' : Code) × (scan_each scan c ts ≡ some c') × Grown disassemble d c c'
  unfolding scan_each
  scan_each-Scanned us bound scan step [] c listed few =
      (c, refl, Grown-region disassemble d c 0 none)
  scan_each-Scanned us bound scan step (t ∷ ts) c (here, listed) few =
      let (c1, runs, g, _) = step c t here few in
      let (c2, runs', h) =
        scan_each-Scanned us bound scan step ts c1 listed
          (omega (arith, uncovered-Grown us c c1 g)) in
      (c2, rw (runs, scan_each) runs', Grown-trans disassemble d c c1 c2 g h)

  scan_procedure-runs :
      (us : List ℕ)
      → All (EndsIn us) us
      → (depth : ℕ) (c : Code) (x : ℕ) → is_member x us ≡ true
      → uncovered us c < depth
      → Scanned (scan_procedure disassemble d depth c x) c x
  unfolding scan_procedure
  scan_procedure-runs us closed zero c x there few = elim few [ ]
  scan_procedure-runs us closed (suc depth) c x there few = elim (Option-cases (get_region c x)) [
    | inr (i, e) ↦ (c, rw (e, scan_procedure), Grown-region disassemble d c 0 none, rw e)
    | inl e ↦
        let (size, targets, loop, small, listed) = member-All (EndsIn us) us x closed there in
        let c1 = add_region c x (some size) in
        let grown = Grown-region disassemble d c x (some size) in
        let covered = add_region-is_covered c x size small in
        let old : is_covered c x ≡ false = rw e in
        let (c2, runs, more) =
          scan_each-Scanned us depth (scan_procedure disassemble d depth)
            (λ k y. scan_procedure-runs us closed depth k y) targets c1 listed
            (omega (arith, uncovered-fewer us x c c1 grown there old covered)) in
        (
          c2,
          rw (e, loop, runs, scan_procedure),
          Grown-trans disassemble d c c1 c2 grown more,
          Grown-is_covered c1 c2 x more covered,
        )
  ]

  -- If each of some procedures ends in a `ret` within 8 KB and calls only these, then the scan of one
  -- of them ends and answers true, on a depth of recursion above their number; the files and the
  -- regions of before stay, and a region contains the address.
  pub scan_procedure-Grown :
      (us : List ℕ) (depth : ℕ) (c : Code) (x : ℕ)
      → All (EndsIn us) us
      → is_member x us ≡ true
      → length us < depth
      → (c' : Code) × (scan_procedure disassemble d depth c x ≡ some (true, c'))
        × Grown disassemble d c c'
        × (is_covered c' x ≡ true)
  scan_procedure-Grown us depth c x closed there enough =
      scan_procedure-runs us closed depth c x there (omega (arith, uncovered-length us c))
