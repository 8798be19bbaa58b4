-- ===== src/MdbLog/Divider.antt =====
-- The divider lines.
use rustdbg.Prelude.{
  ℕ, zero, suc, ◌+◌, ◌-◌, ◌<◌, ◌≡◌, sym, ap, ◌∙◌, inl, inr, true, false, Option, some, List, [],
  ◌∷◌, ◌++◌, arith, ltb, ◌==◌, if◌then◌else◌, Bool-cases, length, get_elem?, length-append,
  length-take, get_elem?-append_left, get_elem?-append_length, get_elem?-take,
}
use rustdbg.MdbLog.{marked, fill_line, divider_line}

length-fill_line : (n : ℕ) (line : List ℕ) → length (fill_line n line) ≡ n + length line
unfolding fill_line
length-fill_line zero line = omega arith
length-fill_line (suc n) line =
    omega (arith, length-fill_line n (line ++ 61 ∷ []), length-append line (61 ∷ []))

one_more :
    (line : List ℕ) (i : ℕ)
    → ◌≡◌ {A = Option ℕ}
        (if ltb i (length (line ++ 61 ∷ [])) then get_elem? (line ++ 61 ∷ []) i else some 61)
        (if ltb i (length line) then get_elem? line i else some 61)
one_more line i = elim (Bool-cases (ltb i (length line))) [
  | inl inside ↦
      let longer : ltb i (length (line ++ 61 ∷ [])) ≡ true =
        ground (arith, length-append line (61 ∷ [])) in
      rw (inside, longer) (get_elem?-append_left line (61 ∷ []) i (ground arith))
  | inr outside ↦ elim (Bool-cases (length line == i)) [
    | inl last ↦
        let same : length line ≡ i = ground arith in
        let longer : ltb i (length (line ++ 61 ∷ [])) ≡ true =
          ground (arith, length-append line (61 ∷ [])) in
        rw (outside, longer)
          (ap (λ j. get_elem? (line ++ 61 ∷ []) j) (sym same) ∙ get_elem?-append_length line 61 [])
    | inr past ↦
        let over : ltb i (length (line ++ 61 ∷ [])) ≡ false =
          ground (arith, length-append line (61 ∷ [])) in
        rw (outside, over)
  ]
]

fill_line-get :
    (n : ℕ) (line : List ℕ) (i : ℕ)
    → i < n + length line
    → get_elem? (fill_line n line) i ≡ (if ltb i (length line) then get_elem? line i else some 61)
unfolding fill_line
fill_line-get zero line i h = let inside : ltb i (length line) ≡ true = ground arith in rw inside
fill_line-get (suc n) line i h =
    fill_line-get n (line ++ 61 ∷ []) i (omega (arith, length-append line (61 ∷ [])))
    ∙ one_more line i

-- A divider line has 128 characters: those of the text between its marks, as far as they go, and
-- behind them only `=`.
pub divider_line-get :
    (text : Option (List ℕ))
    → (length (divider_line text) ≡ 128)
      × ((i : ℕ)
          → i < 128
          → get_elem? (divider_line text) i
            ≡ (if ltb i (length (marked text)) then get_elem? (marked text) i else some 61))
unfolding divider_line
divider_line-get text =
    let line = marked text in
    let n = 128 - length line in
    (
      length-take 128 (fill_line n line) ∙ omega (arith, length-fill_line n line),
      (λ i h. get_elem?-take (fill_line n line) 128 i h ∙ fill_line-get n line i (omega arith)),
    )
