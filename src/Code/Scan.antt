-- ===== src/Code/Scan.antt =====
-- `scanProcedure`: the loop over the instructions ends, the regions only grow, and where the recursion
-- does not end.
use rustdbg.Prelude.{
  ℕ, zero, suc, ◌+◌, ◌*◌, ◌^◌, ◌≤◌, ◌<◌, ◌≡◌, refl, sym, ap, ◌∙◌, ◌≢◌, inl, inr, false, ◌||◌,
  Option, none, some, List, [], ◌∷◌, ◌++◌, arith, ◌==◌, Bool-cases, length, replicate, sub_u64,
}
use mathlib.Core.List.{append_assoc, append-nil}
use rustdbg.Mach.{Mach}
use rustdbg.Debugger.{Debugger, read}
use rustdbg.Disassembler.{Mnemonic, Disassembler}
use rustdbg.Code.{
  Code, CodeRegion, get_region, target_of, add_target, add_region, scan_loop, scan_each,
  scan_procedure,
}

-- udis86 stays in its buffer: an instruction ends there at the latest.
abbrev pub Fits : Disassembler → Type 0
Fits disassemble =
    (buffer : List ℕ) (pc : ℕ)
    → pc ≤ length buffer
    → pc + (disassemble buffer pc).size ≤ length buffer

-- The loop ends within one round more than there are bytes, from any place of the buffer.
pub scan_loop-ends :
    (disassemble : Disassembler)
    → Fits disassemble
    → (address : ℕ) (buffer : List ℕ) (rounds pc remaining : ℕ) (targets : List ℕ)
    → pc + remaining ≡ length buffer
    → length buffer < 2 ^ 64
    → remaining < rounds
    → (end : Option ℕ) × (found : List ℕ) × (scan_loop disassemble address buffer rounds pc
          remaining targets
        ≡ some (end, found))
unfolding scan_loop
scan_loop-ends disassemble fits address buffer zero pc remaining targets e small enough =
    elim enough [ ]
scan_loop-ends disassemble fits address buffer (suc rounds) pc remaining targets e small enough =
    elim (Bool-cases ((remaining == 0) || ((disassemble buffer pc).size == 0))) [
      | inl stop ↦ (none, targets, rw (stop, scan_loop))
      | inr on ↦
          let size = (disassemble buffer pc).size in
          let (past, shorter) =
            advance pc remaining size on e small (fits buffer pc (omega arith)) in
          go on (disassemble buffer pc).mnemonic refl λ found.
            scan_loop-ends disassemble fits address buffer rounds (pc + size)
              (sub_u64 remaining size) found past small (omega arith)
    ]
  where
    advance :
        (pc remaining size : ℕ)
        → ((remaining == 0) || (size == 0)) ≡ false
        → pc + remaining ≡ length buffer
        → length buffer < 2 ^ 64
        → pc + size ≤ length buffer
        → (pc + size + sub_u64 remaining size ≡ length buffer)
          × (sub_u64 remaining size < remaining)
    advance pc remaining size on e small fit =
        let moved : size ≢ 0 = ground arith in (omega arith, omega arith)

    go :
        ((remaining == 0) || ((disassemble buffer pc).size == 0)) ≡ false
        → (k : Mnemonic) → (disassemble buffer pc).mnemonic ≡ k
        → ((found : List ℕ)
            → (end : Option ℕ) × (found' : List ℕ) × (scan_loop disassemble address buffer rounds
                  (pc + (disassemble buffer pc).size)
                  (sub_u64 remaining (disassemble buffer pc).size)
                  found
                ≡ some (end, found')))
        → (end : Option ℕ) × (found : List ℕ) × (scan_loop disassemble address buffer
              (suc rounds)
              pc
              remaining
              targets
            ≡ some (end, found))
    go on Mnemonic.call k again =
        let next = pc + (disassemble buffer pc).size in
        let (end, found, runs) =
          again (add_target targets (target_of address next (disassemble buffer pc))) in
        (end, found, rw (on, k, scan_loop) runs)
    go on Mnemonic.ret k again =
        (some (pc + (disassemble buffer pc).size), targets, rw (on, k, scan_loop))
    go on Mnemonic.other k again =
        let (end, found, runs) = again targets in (end, found, rw (on, k, scan_loop) runs)

module _ {m : Mach} (disassemble : Disassembler) (d : Debugger m) where
  -- The bytes that a scan looks at.
  abbrev pub procedure : ℕ → List ℕ
  procedure address = (read d (replicate (1024 * 8) 0) address (1024 * 8)).1

  abbrev pub scanned : ℕ → Option (Option ℕ × List ℕ)
  scanned address = scan_loop disassemble address (procedure address) (1024 * 8 + 1) 0 (1024 * 8) []

  -- A procedure with no `ret` in its 8 KB, whose first call is of itself, is scanned without end:
  -- no depth of recursion is enough.
  pub scan_procedure-none :
      (c : Code) (address : ℕ) (targets : List ℕ)
      → get_region c address ≡ none
      → scanned address ≡ some (none, address ∷ targets)
      → (depth : ℕ) → scan_procedure disassemble d depth c address ≡ none
  unfolding scan_procedure scan_each
  scan_procedure-none c address targets new loop zero = refl
  scan_procedure-none c address targets new loop (suc depth) =
      rw
        (new, loop, scan_procedure, scan_procedure-none c address targets new loop depth, scan_each)

  -- A scan that returns keeps the files and the regions in their places; new regions stand behind.
  pub record Grown (c c' : Code) : Type 0 where
    pub added : List CodeRegion
    pub regions : c'.regions ≡ c.regions ++ added
    pub files : c'.files ≡ c.files

  pub Grown-trans : (c c' c'' : Code) → Grown c c' → Grown c' c'' → Grown c c''
  Grown-trans c c' c'' g h = record {
    added = g.added ++ h.added;
    regions =
        h.regions ∙ ap (λ rs. rs ++ h.added) g.regions ∙ append_assoc c.regions g.added h.added;
    files = h.files ∙ g.files;
  }

  pub Grown-region : (c : Code) (address : ℕ) (end : Option ℕ) → Grown c (add_region c address end)
  Grown-region c address none = record {
    added = [];
    regions = sym (append-nil c.regions);
    files = refl;
  }
  Grown-region c address (some size) = record { added = _; regions = refl; files = refl }
