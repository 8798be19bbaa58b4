-- ===== src/MdbLog.antt =====
-- lib/src/MDBLog.cpp: what is logged, in which colour, and the divider lines. A text is the list of its
-- characters behind the formatting, which is the C library's, and is taken to fit its buffer.
pub mod Divider
pub mod Trace
pub mod Print
use rustdbg.Prelude.{
  ℕ, zero, suc, ◌+◌, ◌-◌, Bool, true, false, not, Option, none, some, List, [], ◌∷◌, ◌++◌, ◌==◌,
  if◌then◌else◌, length, take,
}
use Prim.Native.Nat.{bit_and, bit_or}
use rustdbg.MbString.{strstr}

-- `AnsiColor`.
pub data AnsiColor : Type 0 where
  white red light_red green light_green yellow light_yellow blue : AnsiColor
  light_blue magenta light_magenta teal light_teal : AnsiColor

-- `LogType`, as bits.
abbrev pub err : ℕ
err = 0x1

abbrev pub debug : ℕ
debug = 0x2

abbrev pub call : ℕ
call = 0x4

abbrev pub sym_bits : ℕ
sym_bits = 0x8

abbrev pub info : ℕ
info = 0x10

abbrev pub all : ℕ
all = 0xffff_ffff

-- A value as a condition.
abbrev pub nonzero : ℕ → Bool
nonzero n = not (n == 0)

abbrev pub is_found : Option ℕ → Bool
is_found none = false
is_found (some _) = true

-- `readTypeBitMask`, on the value of MDB_LOG.
unfoldable pub read_type_bit_mask : Option (List ℕ) → ℕ
read_type_bit_mask none = bit_or (bit_or (bit_or (bit_or call err) sym_bits) info) all
read_type_bit_mask (some env) =
    let bits = if is_found (strstr env (97 ∷ 108 ∷ 108 ∷ []) 0) then all else 0 in
    if is_found (strstr env (110 ∷ 111 ∷ 110 ∷ 101 ∷ []) 0) then 0 else bits

unfoldable pub is_tracing : (mask type_bits : ℕ) → Bool
is_tracing mask type_bits = nonzero (bit_and type_bits mask)

unfoldable pub get_color_for_type : ℕ → AnsiColor
get_color_for_type type_bits =
    if nonzero (bit_and type_bits info)
    then AnsiColor.green
    else if nonzero (bit_and type_bits err)
    then AnsiColor.red
    else if nonzero (bit_and type_bits sym_bits)
    then AnsiColor.yellow
    else AnsiColor.white

-- The text between its marks; nothing where the format is NULL.
abbrev pub marked : Option (List ℕ) → List ℕ
marked none = []
marked (some text) = (61 ∷ 61 ∷ 61 ∷ 32 ∷ []) ++ text ++ (32 ∷ 61 ∷ 61 ∷ 61 ∷ [])

-- `for (i = length; i < width; i++) lineBuffer[i] = '=';`
unfoldable pub fill_line : ℕ → List ℕ → List ℕ
fill_line zero line = line
fill_line (suc n) line = fill_line n (line ++ 61 ∷ [])

-- `traceDividerLn`: the line it prints, which the zero at place 128 ends.
unfoldable pub divider_line : Option (List ℕ) → List ℕ
divider_line text = let line = marked text in take 128 (fill_line (128 - length line) line)
