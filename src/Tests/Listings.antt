-- ===== src/Tests/Listings.antt =====
-- Listings of code at concrete inputs.
use rustdbg.Prelude.{◌≡◌, none, some, List, arith, ltb, if◌then◌else◌, length, replicate, pos}
use rustdbg.Debugger.{read}
use rustdbg.Disassembler.{Disassembler, Mnemonic, OperandType}
use rustdbg.Code.{CodeRegion}
use rustdbg.Code.Scan.{Fits}
use rustdbg.Code.Decode.{Decoded, Tiles, Moves, disassemble_region, disassemble_region-Tiles}
use rustdbg.Tests.Controls.{calm_memory, start}

-- Instructions of one byte, and none behind the buffer.
abbrev bytewise : Disassembler
bytewise buffer pc = record {
  size = if ltb pc (length buffer) then 1 else 0;
  mnemonic = Mnemonic.other;
  operand_type = OperandType.other;
  operand_size = 0;
  sdword = pos 0;
}

bytewise-Fits : Fits bytewise
bytewise-Fits buffer pc h = ground arith

bytewise-Moves : Moves bytewise
bytewise-Moves buffer pc h = ground arith

abbrev three_bytes : CodeRegion
three_bytes = record { address = 4; symbol = none; size = 3 }

disassemble_region-Tiles_example :
    (lines : List Decoded) × (disassemble_region bytewise start 3 three_bytes ≡ some (0, lines))
    × Tiles bytewise (read start (replicate 3 0) 4 3).1 0 lines
disassemble_region-Tiles_example =
    disassemble_region-Tiles bytewise bytewise-Fits bytewise-Moves calm_memory start three_bytes 3
      (omega arith) (omega arith) (omega arith)
