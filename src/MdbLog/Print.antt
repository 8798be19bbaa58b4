-- ===== src/MdbLog/Print.antt =====
-- What the log prints of a text, and where it does not.
use rustdbg.Prelude.{
  ℕ, zero, suc, ◌^◌, ◌≤◌, ◌<◌, ◌≡◌, refl, ap, ◌∙◌, ◌↔◌, inl, inr, false, ◌||◌, none, some, List, [],
  ◌∷◌, ◌++◌, arith, ltb, ◌==◌, if◌then◌else◌, if_false, Bool-cases, length, take, length-append,
  length-take,
}
use mathlib.Core.Option
use rustdbg.MbString.{has_char}
use rustdbg.MdbLog.{AnsiColor, is_tracing, get_color_for_type}
use rustdbg.MdbLog.Trace.{
  Log, indent, outdent, foreground_color, append_colored, allocate_formatted_string, print_format,
  trace_colored, trace_ln,
}

-- `outdent` takes back what `indent` has done, also where the indent is as large as 32 bits allow.
pub outdent-indent : (g : Log) → g.indent < 2 ^ 32 → (outdent (indent g)).indent ≡ g.indent
unfolding outdent indent
outdent-indent g h = omega arith

-- `allocateFormattedString` gives the whole text exactly where that has fewer than 8 characters.
take-short : (n : ℕ) (text : List ℕ) → length text ≤ n → take n text ≡ text
take-short zero [] h = refl
take-short zero (c ∷ cs) h = absurd (omega arith)
take-short (suc n) [] h = refl
take-short (suc n) (c ∷ cs) h = ap (λ k. c ∷ k) (take-short n cs (omega arith))

pub allocate_formatted_string_iff :
    (text : List ℕ) → allocate_formatted_string text ≡ text ↔ length text < 8
unfolding allocate_formatted_string
allocate_formatted_string_iff text =
    ((λ e. omega (arith, length-take 7 text, ap length e)), (λ h. take-short 7 text (omega arith)))

split-first :
    (c d : ℕ) (cs : List ℕ)
    → has_char 37 (c ∷ d ∷ cs) ≡ false
    → ((c == 37) ≡ false) × (has_char 37 (d ∷ cs) ≡ false)
split-first c d cs h = (ground arith, ground arith)

-- A text with no percent sign is printed as it is.
print_format-plain : (text : List ℕ) → has_char 37 text ≡ false → print_format text ≡ some text
unfolding print_format
print_format-plain [] h = refl
print_format-plain (c ∷ []) h = if_false {b = c == 37} _ _ (ground arith)
print_format-plain (c ∷ d ∷ cs) h =
    let (first, rest) = split-first c d cs h in
    if_false _ _ first ∙ ap (Option.map (λ line. c ∷ line)) (print_format-plain (d ∷ cs) rest)

has_char-append :
    (c : ℕ) (xs ys : List ℕ) → has_char c (xs ++ ys) ≡ (has_char c xs || has_char c ys)
has_char-append c [] ys = refl
has_char-append c (x ∷ xs) ys = ground (arith, has_char-append c xs ys)

foreground_color-plain : (color : AnsiColor) → has_char 37 (foreground_color color) ≡ false
unfolding foreground_color
foreground_color-plain AnsiColor.white = refl
foreground_color-plain AnsiColor.red = refl
foreground_color-plain AnsiColor.light_red = refl
foreground_color-plain AnsiColor.green = refl
foreground_color-plain AnsiColor.light_green = refl
foreground_color-plain AnsiColor.yellow = refl
foreground_color-plain AnsiColor.light_yellow = refl
foreground_color-plain AnsiColor.blue = refl
foreground_color-plain AnsiColor.light_blue = refl
foreground_color-plain AnsiColor.magenta = refl
foreground_color-plain AnsiColor.light_magenta = refl
foreground_color-plain AnsiColor.teal = refl
foreground_color-plain AnsiColor.light_teal = refl

append_colored-plain :
    (color : AnsiColor) (text : List ℕ)
    → has_char 37 text ≡ false
    → has_char 37 (append_colored [] color text) ≡ false
unfolding append_colored
append_colored-plain color text h =
    has_char-append 37 (foreground_color color) (text ++ (27 ∷ 91 ∷ 48 ∷ 109 ∷ []))
    ∙ ap (λ b. b || has_char 37 (text ++ (27 ∷ 91 ∷ 48 ∷ 109 ∷ []))) (foreground_color-plain color)
    ∙ has_char-append 37 text (27 ∷ 91 ∷ 48 ∷ 109 ∷ [])
    ∙ ap (λ b. b || false) h

length-append_colored :
    (color : AnsiColor) (text : List ℕ) → length text ≤ length (append_colored [] color text)
unfolding append_colored
length-append_colored color text = omega (
  arith,
  length-append (foreground_color color) (text ++ (27 ∷ 91 ∷ 48 ∷ 109 ∷ [])),
  length-append text (27 ∷ 91 ∷ 48 ∷ 109 ∷ []),
)

-- A text of a type that is not traced prints nothing. One that is traced, and has no percent sign, is
-- printed between the codes of its colour and of the reset if the whole has fewer than 512
-- characters; a longer one overruns a buffer, also where it fits the 1024 characters of the first.
pub trace_ln-prints :
    (g : Log) (type_bits : ℕ) (text : List ℕ)
    → has_char 37 text ≡ false
    → let line = append_colored [] (get_color_for_type type_bits) text in
      trace_ln g type_bits text ≡ (
        if is_tracing g.type_bit_mask type_bits
        then (if ltb (length line) 512 then some (line ∷ []) else none)
        else some [])
unfolding trace_ln trace_colored
trace_ln-prints g type_bits text plain = elim (Bool-cases (is_tracing g.type_bit_mask type_bits)) [
  | inr off ↦ rw (off, trace_ln) refl
  | inl on ↦
      let line = append_colored [] (get_color_for_type type_bits) text in
      let printed =
        print_format-plain line (append_colored-plain (get_color_for_type type_bits) text plain) in
      let longer = length-append_colored (get_color_for_type type_bits) text in
      elim (Bool-cases (ltb (length text) 1024)) [
        | inl fits ↦ elim (Bool-cases (ltb (length line) 512)) [
          | inl short ↦ rw (on, fits, short, printed, trace_ln, trace_colored) refl
          | inr long ↦ rw (on, fits, long, trace_ln, trace_colored) refl
        ]
        | inr over ↦
            let long : ltb (length line) 512 ≡ false = ground (arith, longer) in
            rw (on, over, long, trace_ln, trace_colored) refl
      ]
]
