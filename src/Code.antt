-- ===== src/Code.antt =====
-- lib/src/MDBCode.cpp, over what lib/src/MDBMachReader.cpp reads of a file, and over udis86.
-- A name is the list of the characters of a C string.
pub mod Region
pub mod Load
pub mod Settle
pub mod Scan
pub mod Decode
pub mod Cover
use rustdbg.Prelude.{
  ℕ, zero, suc, ◌+◌, ◌*◌, Bool, true, false, not, ◌&&◌, ◌||◌, Option, none, some, List, [], ◌∷◌,
  ◌++◌, ltb, ◌==◌, if◌then◌else◌, replicate, ℤ, pos, negsuc, is_neg, to_u64, to_i32, sub_u64,
}
use rustdbg.Mach.{Mach}
use rustdbg.Debugger.{Debugger, read}
use rustdbg.Disassembler.{Mnemonic, OperandType, Instruction, Disassembler}

-- `MDBSymbol`, without its way back to the file.
pub record Symbol : Type 0 where
  pub name : List ℕ
  pub address : ℕ

-- `MDBMachFile` behind `parse`; a dylib is its file name.
pub record MachFile : Type 0 where
  pub file_name : List ℕ
  pub symbols : List Symbol
  pub dylibs : List (List ℕ)

-- `MDBCodeRegion`.
pub record CodeRegion : Type 0 where
  pub address : ℕ
  pub symbol : Option Symbol
  pub size : ℕ

-- `MDBCode`.
pub record Code : Type 0 where
  pub files : List MachFile
  pub regions : List CodeRegion

-- `strcmp(a, b) == 0`.
unfoldable pub strcmp_equal : List ℕ → List ℕ → Bool
strcmp_equal [] [] = true
strcmp_equal [] (y ∷ ys) = false
strcmp_equal (x ∷ xs) [] = false
strcmp_equal (x ∷ xs) (y ∷ ys) = (x == y) && strcmp_equal xs ys

-- `a > b` on 32-bit integers.
abbrev pub gt_int : ℤ → ℤ → Bool
gt_int (pos a) (pos b) = ltb b a
gt_int (pos a) (negsuc b) = true
gt_int (negsuc a) (pos b) = false
gt_int (negsuc a) (negsuc b) = ltb a b

-- `MDBCodeRegion::getOffset`: both the distance and the size are cut to 32 bits.
unfoldable pub get_offset : CodeRegion → ℕ → ℤ
get_offset r address =
    let offset = to_i32 (sub_u64 address r.address) in
    if gt_int offset (to_i32 r.size) then negsuc 0 else offset

unfoldable pub contains : CodeRegion → ℕ → Bool
contains r address = not (is_neg (get_offset r address))

-- `getRegion`: the first place, from `i` on, of a region that contains the address.
unfoldable pub region_from : List CodeRegion → ℕ → ℕ → Option ℕ
region_from [] address i = none
region_from (r ∷ rs) address i =
    let rest = region_from rs address (i + 1) in if contains r address then some i else rest

unfoldable pub get_region : Code → ℕ → Option ℕ
get_region c address = region_from c.regions address 0

-- The test `files.indexOf(predicate) < 0`, the other way round.
unfoldable pub is_loaded : List MachFile → List ℕ → Bool
is_loaded [] name = false
is_loaded (f ∷ fs) name = strcmp_equal f.file_name name || is_loaded fs name

-- What `new MDBMachFile(name)` with `parse` gives for a name; none where `parse` fails.
abbrev pub Binaries : Type 0
Binaries = List ℕ → Option MachFile

-- The loop over the dylibs, around the recursive call.
unfoldable pub load_each :
    (List MachFile → List ℕ → Option (Bool × List MachFile))
    → List MachFile
    → List (List ℕ)
    → Option (List MachFile)
load_each load files [] = some files
load_each load files (name ∷ names) =
    let rest = load_each load files names in
    if is_loaded files name
    then rest
    else elim (load files name) [ none ↦ none | some (_, files') ↦ load_each load files' names ]

-- The constructor of `MDBMachFile` keeps the name.
abbrev pub named : List ℕ → MachFile → MachFile
named name file = record file { file_name = name }

-- `loadSymbols`, on fuel for the depth of its recursion.
unfoldable pub load_symbols : Binaries → ℕ → List MachFile → List ℕ → Option (Bool × List MachFile)
load_symbols parse zero files name = none
load_symbols parse (suc depth) files name = elim (parse name) [
  | none ↦ some (false, files)
  | some file ↦
      elim (load_each (load_symbols parse depth) (files ++ named name file ∷ []) file.dylibs) [
        | none ↦ none
        | some files' ↦ some (true, files')
      ]
]

abbrev pub name_or_empty : Option (List ℕ) → List ℕ
name_or_empty none = []
name_or_empty (some name) = name

unfoldable pub find_in_symbols : List Symbol → Option (List ℕ) → ℕ → Option Symbol
find_in_symbols [] name address = none
find_in_symbols (s ∷ ss) name address =
    if strcmp_equal s.name (name_or_empty name) || (s.address == address)
    then some s
    else find_in_symbols ss name address

-- `findSymbolByNameOrAddress`.
unfoldable pub find_symbol_by_name_or_address : List MachFile → Option (List ℕ) → ℕ → Option Symbol
find_symbol_by_name_or_address [] name address = none
find_symbol_by_name_or_address (f ∷ fs) name address =
    elim (find_in_symbols f.symbols name address) [
      | none ↦ find_symbol_by_name_or_address fs name address
      | some s ↦ some s
    ]

abbrev pub is_call : Mnemonic → Bool
is_call Mnemonic.call = true
is_call _ = false

abbrev pub is_jimm : OperandType → Bool
is_jimm OperandType.jimm = true
is_jimm _ = false

-- `a + b` on 64 bits.
abbrev pub add_i64 : ℕ → ℤ → ℕ
add_i64 a (pos n) = to_u64 (a + n)
add_i64 a (negsuc n) = sub_u64 a (suc n)

-- The target of a call, 0 where the operand does not name it.
abbrev pub target_of : ℕ → ℕ → Instruction → ℕ
target_of address pc insn =
    if is_jimm insn.operand_type && (insn.operand_size == 32)
    then add_i64 (address + pc) insn.sdword
    else 0

abbrev pub is_member : ℕ → List ℕ → Bool
is_member x [] = false
is_member x (y ∷ ys) = (y == x) || is_member x ys

abbrev pub add_target : List ℕ → ℕ → List ℕ
add_target targets target =
    if not (target == 0) && not (is_member target targets) then targets ++ target ∷ [] else targets

-- The region that a `ret` makes.
abbrev pub add_region : Code → ℕ → Option ℕ → Code
add_region c address none = c
add_region c address (some size) = record c {
  regions =
      c.regions
      ++ record {
        address = address;
        symbol = find_symbol_by_name_or_address c.files none address;
        size = size;
      }
        ∷ [];
}

unfoldable pub scan_each : (Code → ℕ → Option (Bool × Code)) → Code → List ℕ → Option Code
scan_each scan c [] = some c
scan_each scan c (target ∷ targets) = elim (scan c target) [
  | none ↦ none
  | some (_, c') ↦ scan_each scan c' targets
]

module _ (disassemble : Disassembler) where
  -- The loop of `scanProcedure`: the offset behind a `ret`, if it comes to one, and the targets.
  unfoldable pub scan_loop :
      (address : ℕ) (buffer : List ℕ) (rounds pc remaining : ℕ)
      → List ℕ
      → Option (Option ℕ × List ℕ)
  scan_loop address buffer zero pc remaining targets = none
  scan_loop address buffer (suc rounds) pc remaining targets =
      let insn = disassemble buffer pc in
      let next = pc + insn.size in
      let left = sub_u64 remaining insn.size in
      let on = scan_loop address buffer rounds next left targets in
      let called =
        scan_loop address buffer rounds next left
          (add_target targets (target_of address next insn)) in
      if (remaining == 0) || (insn.size == 0) then some (none, targets) else elim insn.mnemonic [
        | Mnemonic.call ↦ called
        | Mnemonic.ret ↦ some (some next, targets)
        | Mnemonic.other ↦ on
      ]

module _ {m : Mach} (disassemble : Disassembler) where
  -- The first instruction of the 32 bytes at an address. The buffer is not initialised, and zeros
  -- stand for what it holds where the read fails, which is only logged.
  unfoldable pub instruction_at : Debugger m → ℕ → Instruction
  instruction_at d address = disassemble (read d (replicate 32 0) address 32).1 0

  unfoldable pub get_instruction_length : Debugger m → ℕ → ℕ
  get_instruction_length d address = (instruction_at d address).size

  unfoldable pub is_call_instruction : Debugger m → ℕ → Bool
  is_call_instruction d address = is_call (instruction_at d address).mnemonic

  -- `scanProcedure`, on fuel for the depth of its recursion.
  unfoldable pub scan_procedure : Debugger m → ℕ → Code → ℕ → Option (Bool × Code)
  scan_procedure d zero c address = none
  scan_procedure d (suc depth) c address =
      let size = 1024 * 8 in
      let buffer = (read d (replicate size 0) address size).1 in
      elim (get_region c address) [
        | some _ ↦ some (true, c)
        | none ↦ elim (scan_loop disassemble address buffer (size + 1) 0 size []) [
          | none ↦ none
          | some (end, targets) ↦
              elim (scan_each (scan_procedure d depth) (add_region c address end) targets) [
                | none ↦ none
                | some c' ↦ some (true, c')
              ]
        ]
      ]
