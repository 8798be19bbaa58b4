-- ===== src/Disassembler.antt =====
-- udis86, the disassembler that lib/src/MDBCode.cpp and MDBDebugger.cpp call. It is a library that
-- the repository links, so it is a parameter: what `ud_disassemble` finds at a place of a buffer.
use rustdbg.Prelude.{ℕ, List, ℤ}

-- `UD_Icall`, `UD_Iret` and any other mnemonic.
pub data Mnemonic : Type 0 where
  call ret other : Mnemonic

-- The type of an operand: an immediate target of a jump, or any other.
pub data OperandType : Type 0 where
  jimm other : OperandType

-- `ud_t` behind a call: its result, the mnemonic, and the first operand.
pub record Instruction : Type 0 where
  pub size : ℕ
  pub mnemonic : Mnemonic
  pub operand_type : OperandType
  pub operand_size : ℕ
  pub sdword : ℤ

-- The instruction at an offset of a buffer.
abbrev pub Disassembler : Type 0
Disassembler = List ℕ → ℕ → Instruction
