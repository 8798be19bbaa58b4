-- ===== src/Tests/Strings.antt =====
-- Strings at concrete inputs.
use rustdbg.Prelude.{ℕ, ◌≡◌, refl, ◌⊎◌, true, false, none, some, List, [], ◌∷◌, ◌++◌, All}
use rustdbg.MdbLog.{AnsiColor, read_type_bit_mask, get_color_for_type, is_tracing}
use rustdbg.MbString.{
  strstr, is_prefix, isspace, trim_right, split, split_loop, strtok, skip, token, behind, trim_left,
  scan_reverse,
}
use rustdbg.MbString.Trim.{AreBlank, trim_right-AreBlank}
use rustdbg.MbString.Tokens.{IsToken, concat, kept, split-IsToken}

-- "b  a " and the blanks.
abbrev text : List ℕ
text = 98 ∷ 32 ∷ 32 ∷ 97 ∷ 32 ∷ []

trim_right-AreBlank_example :
    ((trim_right text ≡ none) × AreBlank text)
    ⊎ ((front : List ℕ) × (c : ℕ) × (blanks : List ℕ) × (trim_right text ≡ some (front ++ c ∷ []))
        × (text ≡ front ++ c ∷ blanks)
        × (isspace c ≡ false)
        × AreBlank blanks)
trim_right-AreBlank_example = trim_right-AreBlank text (λ e. absurd (cc))

split-IsToken_example :
    (ts : List (List ℕ)) × (split text (32 ∷ []) ≡ some ts)
    × All (IsToken (32 ∷ [])) ts
    × (concat ts ≡ kept (32 ∷ []) text)
split-IsToken_example = split-IsToken text (32 ∷ [])

two_tokens : split text (32 ∷ []) ≡ some ((98 ∷ []) ∷ (97 ∷ []) ∷ [])
unfolding split split_loop strtok skip token behind
two_tokens = refl

from_left : trim_left (32 ∷ 9 ∷ text) ≡ text
unfolding trim_left
from_left = refl

last_blank : scan_reverse text 3 32 ≡ 2
unfolding scan_reverse
last_blank = refl

silenced : read_type_bit_mask (some (110 ∷ 111 ∷ 110 ∷ 101 ∷ [])) ≡ 0
unfolding read_type_bit_mask strstr is_prefix
silenced = refl

error_is_red : get_color_for_type 0x1 ≡ AnsiColor.red
unfolding get_color_for_type
error_is_red = refl

error_is_traced : is_tracing (read_type_bit_mask none) 0x1 ≡ true
unfolding is_tracing read_type_bit_mask
error_is_traced = refl
