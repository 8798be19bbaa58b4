-- ===== src/Tests/Codes.antt =====
-- Code regions and symbols at concrete inputs.
use rustdbg.Prelude.{
  ℕ, ◌≡◌, refl, ◌⊎◌, inl, inr, Bool, true, none, some, List, [], ◌∷◌, arith, ltb, ◌==◌,
  if◌then◌else◌, Bool-cases, length, negsuc,
}
use rustdbg.Debugger.{Debugger}
use rustdbg.Disassembler.{Mnemonic, OperandType, Instruction, Disassembler}
use rustdbg.Code.{
  region_from, get_offset, scan_loop, scan_procedure, Code, CodeRegion, MachFile, Binaries,
  strcmp_equal, contains, get_region, is_loaded, load_symbols,
}
use rustdbg.Code.Scan.{Fits, Grown, scan_procedure-none}
use rustdbg.Code.Cover.{is_covered, scan_procedure-Grown}
use rustdbg.Tests.Toy.{toy}
use rustdbg.Code.Load.{names_have}
use rustdbg.Code.Settle.{Loaded, Settled, load_symbols-Loaded}

abbrev region : CodeRegion
region = record { address = 0x1000; symbol = none; size = 16 }

abbrev code : Code
code = record { files = []; regions = region ∷ [] }

-- The files `a` and `b` link each other; `b` also links `c`, which is not there.
abbrev name_a : List ℕ
name_a = 97 ∷ []

abbrev name_b : List ℕ
name_b = 98 ∷ []

abbrev name_c : List ℕ
name_c = 99 ∷ []

abbrev parse : Binaries
parse n =
    if strcmp_equal name_a n
    then some (record { file_name = n; symbols = []; dylibs = name_b ∷ [] })
    else if strcmp_equal name_b n
    then some (record { file_name = n; symbols = []; dylibs = name_a ∷ name_c ∷ [] })
    else none

parse-names : (n : List ℕ) → (parse n ≡ none) ⊎ (names_have (name_a ∷ name_b ∷ []) n ≡ true)
parse-names n = elim (Bool-cases (strcmp_equal name_a n)) [
  | inl a ↦ inr (rw a)
  | inr other ↦ elim (Bool-cases (strcmp_equal name_b n)) [
    | inl b ↦ inr (rw (other, b))
    | inr neither ↦ inl (rw (other, neither))
  ]
]

load_symbols-Loaded_example :
    (done : Bool) × (fs' : List MachFile) × (load_symbols parse 3 [] name_a ≡ some (done, fs'))
    × Loaded parse [] fs'
    × Settled parse fs' name_a
unfolding is_loaded
load_symbols-Loaded_example =
    load_symbols-Loaded parse (name_a ∷ name_b ∷ []) 3 [] name_a parse-names (omega arith) refl

abbrev start : Debugger toy
start = record {
  world = record {
    memory = λ x. none;
    sealed = true;
    counts = λ t. none;
    ports = [];
    task_count = 0;
    registers = λ t. record { esp = 0; ebp = 0; eip = 0; eflags = 0; others = [] };
    waits = [];
  };
  threads = [];
  breakpoints = [];
  transient_breakpoints = [];
  process = record { running = true; is_64_bit = true; pid = 1; threads = [] };
  executed = [];
}

-- A call of five bytes of the procedure itself.
abbrev self_call : Instruction
self_call = record {
  size = 5;
  mnemonic = Mnemonic.call;
  operand_type = OperandType.jimm;
  operand_size = 32;
  sdword = negsuc 4;
}

-- Behind the call, a `ret`.
abbrev with_ret : Disassembler
with_ret buffer pc =
    if pc == 0 then self_call else record self_call { size = 1; mnemonic = Mnemonic.ret }

-- Behind the call, nothing that can be decoded.
abbrev with_none : Disassembler
with_none buffer pc = if pc == 0 then self_call else record self_call { size = 0 }

scan_procedure-Grown_example :
    (c' : Code) × (scan_procedure with_ret start 2 code 0x2000 ≡ some (true, c'))
    × Grown with_ret start code c'
    × (is_covered c' 0x2000 ≡ true)
unfolding scan_loop
scan_procedure-Grown_example =
    scan_procedure-Grown with_ret start (0x2000 ∷ []) 2 code 0x2000
      ((6, 0x2000 ∷ [], refl, omega arith, (refl, tt)), tt) refl (omega arith)

scan_procedure-none_example : scan_procedure with_none start 1000 code 0x2000 ≡ none
unfolding scan_loop get_region region_from contains get_offset
scan_procedure-none_example = scan_procedure-none with_none start code 0x2000 [] refl refl 1000

-- One byte for each instruction, and none behind the end.
abbrev bytes : Disassembler
bytes buffer pc = record self_call {
  size = if ltb pc (length buffer) then 1 else 0;
  mnemonic = Mnemonic.other;
}

bytes-Fits : Fits bytes
bytes-Fits buffer pc h = ground arith
