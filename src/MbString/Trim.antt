-- ===== src/MbString/Trim.antt =====
-- `trimRight` and `startsWith`.
use rustdbg.Prelude.{
  ℕ, suc, ◌≡◌, refl, sym, ap, ◌∙◌, subst, ◌≢◌, ◌↔◌, ◌⊎◌, inl, inr, true, false, none, some, List,
  [], ◌∷◌, ◌++◌, arith, ltb, Bool-cases, length, All, All-append,
}
use mathlib.Core.List.{append_assoc, append-nil}
use rustdbg.MbString.{
  isspace, trim_loop, reverse, trim_right, is_prefix, strstr, is_start, starts_with,
}

pub reverse-append {ℓ} : {A : Type ℓ} (a b : List A) → reverse (a ++ b) ≡ reverse b ++ reverse a
reverse-append [] b = sym (append-nil (reverse b))
reverse-append (x ∷ a) b =
    ap (λ r. r ++ x ∷ []) (reverse-append a b) ∙ append_assoc (reverse b) (reverse a) (x ∷ [])

reverse-reverse : (s : List ℕ) → reverse (reverse s) ≡ s
reverse-reverse [] = refl
reverse-reverse (x ∷ s) = reverse-append (reverse s) (x ∷ []) ∙ ap (λ r. x ∷ r) (reverse-reverse s)

-- Only blanks.
abbrev pub AreBlank : List ℕ → Type 0
AreBlank s = All (λ c. isspace c ≡ true) s

AreBlank-reverse : (s : List ℕ) → AreBlank s → AreBlank (reverse s)
AreBlank-reverse [] h = tt
AreBlank-reverse (x ∷ s) (h, hs) =
    All-append (λ c. isspace c ≡ true) (reverse s) (x ∷ []) (AreBlank-reverse s hs) (h, tt)

-- What the loop of `trimRight` does to the characters before the pointer.
abbrev LoopCases : List ℕ → Type 0
LoopCases s =
    ((trim_loop s ≡ none) × AreBlank s)
    ⊎ ((blanks : List ℕ) × (c : ℕ) × (cs : List ℕ) × (trim_loop s ≡ some (c ∷ cs))
        × (s ≡ blanks ++ c ∷ cs)
        × (isspace c ≡ false)
        × AreBlank blanks)

trim_loop-cases : (s : List ℕ) → LoopCases s
unfolding trim_loop
trim_loop-cases [] = inl (refl, tt)
trim_loop-cases (x ∷ s) = elim (Bool-cases (isspace x)) [
  | inr there ↦ inr ([], x, s, rw there, refl, there, tt)
  | inl here ↦ elim (trim_loop-cases s) [
    | inl (e, blank) ↦ inl (rw here e, (here, blank))
    | inr (blanks, c, cs, e, same, solid, blank) ↦
        inr (x ∷ blanks, c, cs, rw here e, ap (λ k. x ∷ k) same, solid, (here, blank))
  ]
]

-- `trimRight` of a string that is not empty: where a character is no blank the string ends behind
-- the last such one, and where all are blanks the loop runs on in front of the string.
pub trim_right-AreBlank :
    (str : List ℕ)
    → str ≢ []
    → ((trim_right str ≡ none) × AreBlank str)
      ⊎ ((front : List ℕ) × (c : ℕ) × (blanks : List ℕ) × (trim_right str ≡ some (front ++ c ∷ []))
          × (str ≡ front ++ c ∷ blanks)
          × (isspace c ≡ false)
          × AreBlank blanks)
unfolding trim_right
trim_right-AreBlank [] full = absurd (full refl)
trim_right-AreBlank (x ∷ s) full =
    let str = x ∷ s in
    let long : ltb 0 (length str) ≡ true = ground arith in
    elim (trim_loop-cases (reverse str)) [
      | inl (e, blank) ↦ inl (
        rw (long, e, trim_right),
        subst AreBlank (reverse-reverse str) (AreBlank-reverse (reverse str) blank),
      )
      | inr (blanks, c, cs, e, same, solid, blank) ↦ inr (
        reverse cs,
        c,
        reverse blanks,
        rw (long, e, trim_right),
        sym (reverse-reverse str)
            ∙ ap reverse same
            ∙ reverse-append blanks (c ∷ cs)
            ∙ append_assoc (reverse cs) (c ∷ []) (reverse blanks),
        solid,
        AreBlank-reverse blanks blank,
      )
    ]

is_start-later : (s with : List ℕ) (i : ℕ) → is_start (strstr s with (suc i)) ≡ false
unfolding strstr
is_start-later [] with i = ground arith
is_start-later (c ∷ cs) with i = ground (arith, is_start-later cs with (suc i))

starts_with-is_prefix : (s with : List ℕ) → starts_with s with ≡ is_prefix with s
unfolding starts_with strstr
starts_with-is_prefix [] with = ground arith
starts_with-is_prefix (c ∷ cs) with = ground (arith, is_start-later cs with 0)

is_prefix-append : (with rest : List ℕ) → is_prefix with (with ++ rest) ≡ true
unfolding is_prefix
is_prefix-append [] rest = refl
is_prefix-append (c ∷ cs) rest = ground (arith, is_prefix-append cs rest)

is_prefix-rest : (with s : List ℕ) → is_prefix with s ≡ true → (rest : List ℕ) × (s ≡ with ++ rest)
unfolding is_prefix
is_prefix-rest [] s e = (s, refl)
is_prefix-rest (c ∷ cs) [] e = absurd (cc)
is_prefix-rest (c ∷ cs) (d ∷ ds) e =
    let same : c ≡ d = ground arith in
    let (rest, e') = is_prefix-rest cs ds (ground arith) in (rest, cc (same, e'))

-- `startsWith` says whether the string goes on from the other one.
pub starts_with_iff :
    (s with : List ℕ) → (starts_with s with ≡ true) ↔ ((rest : List ℕ) × (s ≡ with ++ rest))
starts_with_iff s with = (
  (λ e. is_prefix-rest with s (sym (starts_with-is_prefix s with) ∙ e)),
  (λ (rest, e). starts_with-is_prefix s with ∙ ap (is_prefix with) e ∙ is_prefix-append with rest),
)
