-- ===== src/MbString.antt =====
-- lib/src/MBShared.cpp: the functions of MBString. A C string is the list of its characters, without
-- the closing zero; a pointer into it is a place.
pub mod Trim
pub mod Tokens
use mathlib.Core.Option
use rustdbg.Prelude.{
  ℕ, zero, suc, ◌+◌, Bool, true, false, ◌&&◌, ◌||◌, Option, none, some, List, [], ◌∷◌, ◌++◌, map,
  ltb, leb, ◌==◌, if◌then◌else◌, length, get_elem?,
}

abbrev pub has_char : ℕ → List ℕ → Bool
has_char c [] = false
has_char c (d ∷ ds) = (c == d) || has_char c ds

-- `isspace` in the C locale.
abbrev pub isspace : ℕ → Bool
isspace c = (c == 32) || (leb 9 c && leb c 13)

unfoldable pub trim_left : List ℕ → List ℕ
trim_left [] = []
trim_left (c ∷ cs) = if isspace c then trim_left cs else c ∷ cs

-- The loop of `trimRight`, over the characters before the pointer, the nearest first: what is left
-- before the new closing zero. `none` is the loop that goes on in front of the string.
unfoldable pub trim_loop : List ℕ → Option (List ℕ)
trim_loop [] = none
trim_loop (c ∷ cs) = if isspace c then trim_loop cs else some (c ∷ cs)

abbrev pub reverse {ℓ} : {A : Type ℓ} → List A → List A
reverse [] = []
reverse (c ∷ cs) = reverse cs ++ c ∷ []

unfoldable pub trim_right : List ℕ → Option (List ℕ)
trim_right str =
    if ltb 0 (length str) then Option.map reverse (trim_loop (reverse str)) else some str

-- `strstr` from a place on: the first place where the other string stands.
unfoldable pub is_prefix : List ℕ → List ℕ → Bool
is_prefix [] str = true
is_prefix (c ∷ cs) [] = false
is_prefix (c ∷ cs) (d ∷ ds) = (c == d) && is_prefix cs ds

unfoldable pub strstr : List ℕ → List ℕ → ℕ → Option ℕ
strstr [] with i = if is_prefix with [] then some i else none
strstr (c ∷ cs) with i =
    let rest = strstr cs with (i + 1) in if is_prefix with (c ∷ cs) then some i else rest

-- `strstr(str, with) == str`.
abbrev pub is_start : Option ℕ → Bool
is_start none = false
is_start (some i) = i == 0

unfoldable pub starts_with : List ℕ → List ℕ → Bool
starts_with str with = is_start (strstr str with 0)

-- `scanReverse`: from a place of the string down to its start.
unfoldable pub scan_reverse : List ℕ → ℕ → ℕ → ℕ
scan_reverse str zero chr = zero
scan_reverse str (suc ptr) chr = elim (get_elem? str (suc ptr)) [
  | none ↦ scan_reverse str ptr chr
  | some c ↦ let rest = scan_reverse str ptr chr in if c == chr then suc ptr else rest
]

-- `strtok`: the delimiters in front are skipped; the token goes to the next one, which is left out.
unfoldable pub skip : List ℕ → List ℕ → List ℕ
skip delimiters [] = []
skip delimiters (c ∷ cs) = if has_char c delimiters then skip delimiters cs else c ∷ cs

unfoldable pub token : List ℕ → List ℕ → List ℕ
token delimiters [] = []
token delimiters (c ∷ cs) = if has_char c delimiters then [] else c ∷ token delimiters cs

unfoldable pub behind : List ℕ → List ℕ → List ℕ
behind delimiters [] = []
behind delimiters (c ∷ cs) = if has_char c delimiters then cs else behind delimiters cs

unfoldable pub strtok : List ℕ → List ℕ → Option (List ℕ × List ℕ)
strtok delimiters str = elim (skip delimiters str) [
  | [] ↦ none
  | c ∷ cs ↦ some (token delimiters (c ∷ cs), behind delimiters (c ∷ cs))
]

-- The loop of `split`, on fuel.
unfoldable pub split_loop : List ℕ → ℕ → List ℕ → Option (List (List ℕ))
split_loop delimiters zero str = none
split_loop delimiters (suc rounds) str = elim (strtok delimiters str) [
  | none ↦ some []
  | some (ptr, rest) ↦ Option.map (λ tokens. ptr ∷ tokens) (split_loop delimiters rounds rest)
]

-- `split`; each round but the last takes a character off the string.
unfoldable pub split : List ℕ → List ℕ → Option (List (List ℕ))
split str delimiters = split_loop delimiters (length str + 1) str
