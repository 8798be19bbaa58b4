-- ===== src/Code/Decode.antt =====
-- lib/src/MDBCode.cpp: `MDBCodeRegion::disassemble` and `fromProcedure`.
use rustdbg.Prelude.{
  ℕ, zero, suc, ◌+◌, ◌-◌, ◌^◌, ◌≤◌, ◌<◌, ◌≡◌, refl, sym, ap, ◌∙◌, inl, inr, Option, none, some,
  List, [], ◌∷◌, arith, ltb, if◌then◌else◌, if_true, if_false, Bool-cases, Option-cases, length,
  drop, replicate, length-append, length-replicate, to_u32, sub_u64, sub_u32,
}
use mathlib.Core.Option
use rustdbg.Mach.{Mach}
use rustdbg.Mach.Laws.{MemoryLaws}
use rustdbg.Debugger.{Debugger, read, fill}
use rustdbg.Breakpoint.View.{length-unpatch_all}
use rustdbg.Disassembler.{Instruction, Disassembler}
use rustdbg.Code.{CodeRegion}
use rustdbg.Code.Scan.{Fits}

-- A line of a listing: the place of the instruction in the buffer, and what was decoded there. Its text
-- is udis86's.
pub record Decoded : Type 0 where
  pub pc : ℕ
  pub instruction : Instruction

module _ (disassemble : Disassembler) where
  -- The `do … while` loop of both, on fuel, with the subtraction of the type of what remains.
  unfoldable pub decode_loop :
      (sub : ℕ → ℕ → ℕ) (buffer : List ℕ) (rounds pc remaining : ℕ) → Option (List Decoded)
  decode_loop sub buffer zero pc remaining = none
  decode_loop sub buffer (suc rounds) pc remaining =
      let insn = disassemble buffer pc in
      let left = sub remaining insn.size in
      let rest = decode_loop sub buffer rounds (pc + insn.size) left in
      let line : Decoded = record { pc = pc; instruction = insn } in
      if ltb 0 left then Option.map (λ lines. line ∷ lines) rest else some (line ∷ [])

  module _ {m : Mach} where
    -- `disassemble`: its answer, and the lines, whose texts it appends to the buffer of its caller. What
    -- they overrun there is not part of this. The copy of the region is not initialised, and zeros
    -- stand for what it holds where the read fails, which nothing looks at.
    unfoldable pub disassemble_region :
        Debugger m → (rounds : ℕ) → CodeRegion → Option (ℕ × List Decoded)
    disassemble_region d rounds r =
        let buffer = (read d (replicate r.size 0) r.address r.size).1 in
        Option.map (λ lines. (0, lines)) (decode_loop sub_u32 buffer rounds 0 (to_u32 r.size))

    -- `fromProcedure`, which answers NULL.
    unfoldable pub from_procedure :
        Debugger m → (rounds address : ℕ) → Option (Option CodeRegion × List Decoded)
    from_procedure d rounds address =
        let buffer = (read d (replicate 128 0) address 128).1 in
        Option.map (λ lines. (none, lines)) (decode_loop sub_u64 buffer rounds 0 128)

length-drop_all : (n : ℕ) → length {A = ℕ} (drop n (replicate n 0)) ≡ 0
length-drop_all zero = refl
length-drop_all (suc n) = length-drop_all n

-- The lines decode the buffer from a place to its end, each one right behind the one before.
abbrev pub Tiles : Disassembler → List ℕ → ℕ → List Decoded → Type 0
Tiles disassemble buffer pc [] = pc ≡ length buffer
Tiles disassemble buffer pc (line ∷ lines) =
    (line.pc ≡ pc)
    × (line.instruction ≡ disassemble buffer pc)
    × Tiles disassemble buffer (pc + line.instruction.size) lines

-- udis86 takes at least a byte where there is one.
abbrev pub Moves : Disassembler → Type 0
Moves disassemble =
    (buffer : List ℕ) (pc : ℕ) → pc < length buffer → 0 < (disassemble buffer pc).size

module _ (disassemble : Disassembler) (fits : Fits disassemble) (moves : Moves disassemble) where
  -- From any place before the end.
  decode_loop-Tiles :
      (sub : ℕ → ℕ → ℕ) (buffer : List ℕ) (rounds pc remaining : ℕ)
      → ((a n : ℕ) → a ≤ remaining → n ≤ a → sub a n ≡ a - n)
      → pc + remaining ≡ length buffer
      → 0 < remaining
      → remaining ≤ rounds
      → (lines : List Decoded) × (decode_loop disassemble sub buffer rounds pc remaining
          ≡ some lines)
        × Tiles disassemble buffer pc lines
  unfolding decode_loop
  decode_loop-Tiles sub buffer zero pc remaining minus e some_left enough = absurd (omega arith)
  decode_loop-Tiles sub buffer (suc rounds) pc remaining minus e some_left enough =
      let size = (disassemble buffer pc).size in
      let line : Decoded = record { pc = pc; instruction = disassemble buffer pc } in
      let fit = fits buffer pc (omega arith) in
      let moved = moves buffer pc (omega arith) in
      let left = minus remaining size (omega arith) (omega arith) in
      elim (Bool-cases (ltb 0 (sub remaining size))) [
        | inl more ↦
            let (lines, runs, tiled) =
              decode_loop-Tiles sub buffer rounds (pc + size) (sub remaining size)
                (λ a n h h'. minus a n (omega (arith, left)) h') (omega (arith, left))
                (ground arith) (omega (arith, left)) in
            (
              line ∷ lines,
              if_true _ _ more ∙ ap (Option.map (λ lines. line ∷ lines)) runs,
              (refl, refl, tiled),
            )
        | inr last ↦ (line ∷ [], if_false _ _ last, (refl, refl, ground (arith, left)))
      ]

  module _ {m : Mach} (memory : MemoryLaws m) where
    -- The buffer of a read has the size that was asked for.
    read-long : (d : Debugger m) (n a : ℕ) → length (read d (replicate n 0) a n).1 ≡ n
    unfolding read
    read-long d n a =
        length-unpatch_all d.breakpoints a n
          (fill (replicate n 0) (m.vm_read_overwrite d.world a n))
        ∙ elim (Option-cases (m.vm_read_overwrite d.world a n)) [
          | inl e ↦ ap (λ o. length (fill (replicate n 0) o)) e ∙ length-replicate n zero
          | inr (bytes, e) ↦
              let long = memory.read_length d.world a n e in
              ap (λ o. length (fill (replicate n 0) o)) e
              ∙ length-append bytes (drop (length bytes) (replicate n 0))
              ∙ ap (λ k. k + length {A = ℕ} (drop k (replicate n 0))) long
              ∙ ap (λ k. n + k) (length-drop_all n)
              ∙ omega arith
        ]

    -- `disassemble` of a region that is not empty ends within one round for each byte, and lists
    -- instructions that cover the region from its first byte to its last, each right behind the one
    -- before.
    pub disassemble_region-Tiles :
        (d : Debugger m) (r : CodeRegion) (rounds : ℕ)
        → 0 < r.size
        → r.size < 2 ^ 32
        → r.size ≤ rounds
        → let buffer = (read d (replicate r.size 0) r.address r.size).1 in
          (lines : List Decoded) × (disassemble_region disassemble d rounds r ≡ some (0, lines))
          × Tiles disassemble buffer 0 lines
    unfolding disassemble_region
    disassemble_region-Tiles d r rounds some_left small enough =
        let buffer = (read d (replicate r.size 0) r.address r.size).1 in
        let size : to_u32 r.size ≡ r.size = omega arith in
        let (lines, runs, tiled) =
          decode_loop-Tiles sub_u32 buffer rounds 0 r.size (λ a n h h'. omega arith)
            (omega (arith, read-long d r.size r.address)) some_left enough in
        (
          lines,
          ap
                (λ n.
                  Option.map (λ lines. (0, lines))
                    (decode_loop disassemble sub_u32 buffer rounds 0 n))
                size
              ∙ ap (Option.map (λ lines. (0, lines))) runs,
          tiled,
        )

    -- `fromProcedure` ends within 128 rounds, lists the 128 bytes at the address in the same way, and
    -- answers NULL.
    pub from_procedure-Tiles :
        (d : Debugger m) (rounds address : ℕ)
        → 128 ≤ rounds
        → let buffer = (read d (replicate 128 0) address 128).1 in
          (lines : List Decoded) × (from_procedure disassemble d rounds address
            ≡ some (none, lines))
          × Tiles disassemble buffer 0 lines
    unfolding from_procedure
    from_procedure-Tiles d rounds address enough =
        let buffer = (read d (replicate 128 0) address 128).1 in
        let (lines, runs, tiled) =
          decode_loop-Tiles sub_u64 buffer rounds 0 128 (λ a n h h'. omega arith)
            (sym (read-long d 128 address)) (omega arith) enough in
        (lines, ap (Option.map (λ lines. (none, lines))) runs, tiled)
