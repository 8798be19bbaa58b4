-- ===== src/MdbLog/Trace.antt =====
-- lib/src/MDBLog.cpp and lib/src/MDBShared.cpp: the lines of the log, and the buffers they go through.
-- `none` is a line that overruns a buffer, or takes arguments that are not there.
use rustdbg.Prelude.{
  ℕ, ◌+◌, Option, none, some, List, [], ◌∷◌, ◌++◌, ltb, ◌==◌, if◌then◌else◌, length, take, to_u32,
  sub_u32,
}
use mathlib.Core.Option
use rustdbg.MdbLog.{AnsiColor, is_tracing, get_color_for_type, read_type_bit_mask}

-- `MDBLog`.
pub record Log : Type 0 where
  pub indent : ℕ
  pub type_bit_mask : ℕ

-- The constructor, on the value of MDB_LOG.
unfoldable pub new_log : Option (List ℕ) → Log
new_log env = record { indent = 0; type_bit_mask = read_type_bit_mask env }

-- `indent`, `outdent` and `resetIndent`, on an indent of 32 bits.
unfoldable pub indent : Log → Log
indent g = record g { indent = to_u32 (g.indent + 1) }

unfoldable pub outdent : Log → Log
outdent g = record g { indent = sub_u32 g.indent 1 }

unfoldable pub reset_indent : Log → ℕ → Log
reset_indent g n = record g { indent = n }

-- `_foregroundColors`.
unfoldable pub foreground_color : AnsiColor → List ℕ
foreground_color AnsiColor.white = 91 ∷ 51 ∷ 55 ∷ 109 ∷ []
foreground_color AnsiColor.red = 91 ∷ 51 ∷ 49 ∷ 109 ∷ []
foreground_color AnsiColor.light_red = 91 ∷ 49 ∷ 59 ∷ 51 ∷ 49 ∷ 109 ∷ []
foreground_color AnsiColor.green = 91 ∷ 51 ∷ 50 ∷ 109 ∷ []
foreground_color AnsiColor.light_green = 91 ∷ 49 ∷ 59 ∷ 51 ∷ 50 ∷ 109 ∷ []
foreground_color AnsiColor.yellow = 91 ∷ 51 ∷ 51 ∷ 109 ∷ []
foreground_color AnsiColor.light_yellow = 91 ∷ 49 ∷ 59 ∷ 51 ∷ 51 ∷ 109 ∷ []
foreground_color AnsiColor.blue = 91 ∷ 51 ∷ 49 ∷ 109 ∷ []
foreground_color AnsiColor.light_blue = 91 ∷ 49 ∷ 59 ∷ 51 ∷ 49 ∷ 109 ∷ []
foreground_color AnsiColor.magenta = 91 ∷ 51 ∷ 53 ∷ 109 ∷ []
foreground_color AnsiColor.light_magenta = 91 ∷ 49 ∷ 59 ∷ 51 ∷ 53 ∷ 109 ∷ []
foreground_color AnsiColor.teal = 91 ∷ 51 ∷ 54 ∷ 109 ∷ []
foreground_color AnsiColor.light_teal = 91 ∷ 49 ∷ 59 ∷ 51 ∷ 54 ∷ 109 ∷ []

-- `appendString` of MDBShared.cpp, with the text that the format makes; NULL is none.
unfoldable pub append_string : Option (List ℕ) → Option (List ℕ) → Option (List ℕ)
append_string none text = none
append_string (some buffer) none = some buffer
append_string (some buffer) (some text) = some (buffer ++ text)

-- `allocateFormattedString`: `sizeof (buffer)` is the size of a pointer, 8 bytes, one of which is for
-- the closing zero.
unfoldable pub allocate_formatted_string : List ℕ → List ℕ
allocate_formatted_string text = take 7 text

-- `appendString` of MDBLog.cpp: the text between the codes of the colour and of the reset.
unfoldable pub append_colored : List ℕ → AnsiColor → List ℕ → List ℕ
append_colored buffer color text =
    buffer ++ ((27 ∷ foreground_color color) ++ (text ++ (27 ∷ 91 ∷ 48 ∷ 109 ∷ [])))

-- A text in a buffer of a size, with its closing zero.
abbrev pub fitting : ℕ → List ℕ → Option (List ℕ)
fitting size text = if ltb (length text) size then some text else none

-- `traceLn(format, …)` with a text as its format and no arguments: `%%` is a percent sign, and any
-- other conversion takes an argument.
unfoldable pub print_format : List ℕ → Option (List ℕ)
print_format [] = some []
print_format (c ∷ []) = if c == 37 then none else some (c ∷ [])
print_format (c ∷ d ∷ cs) =
    let after_both = print_format cs in
    let after_one = print_format (d ∷ cs) in
    if c == 37
    then (if d == 37 then Option.map (λ line. 37 ∷ line) after_both else none)
    else Option.map (λ line. c ∷ line) after_one

infixl 5 ◌>>=◌
abbrev ◌>>=◌ : {A B : Type 0} → Option A → (A → Option B) → Option B
r >>= f = elim r [ none ↦ none | some a ↦ f a ]

-- `traceLn(color, typeBits, message)`: the lines it prints.
unfoldable pub trace_colored : Log → AnsiColor → ℕ → List ℕ → Option (List (List ℕ))
trace_colored g color type_bits message =
    if is_tracing g.type_bit_mask type_bits
    then (do
      buffer ← fitting 512 (append_colored [] color message)
      line ← print_format buffer
      some (line ∷ []))
    else some []

-- `traceLn(typeBits, format, …)`, for the text that the format makes.
unfoldable pub trace_ln : Log → ℕ → List ℕ → Option (List (List ℕ))
trace_ln g type_bits text =
    if is_tracing g.type_bit_mask type_bits
    then (do
      buffer ← fitting 1024 text
      trace_colored g (get_color_for_type type_bits) type_bits buffer)
    else some []
