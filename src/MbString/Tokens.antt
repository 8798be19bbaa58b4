-- ===== src/MbString/Tokens.antt =====
-- `split` gives the words between the delimiters.
use rustdbg.Prelude.{
  ℕ, zero, suc, ◌+◌, ◌≤◌, ◌<◌, ◌≡◌, refl, sym, ap, ◌∙◌, subst, ◌≢◌, inl, inr, false, Option, none,
  some, List, [], ◌∷◌, ◌++◌, arith, if◌then◌else◌, if_true, if_false, Bool-cases, length, All,
}
use rustdbg.MbString.{has_char, skip, token, behind, strtok, split_loop, split}

-- The characters of a string that are no delimiters.
abbrev pub kept : List ℕ → List ℕ → List ℕ
kept ds [] = []
kept ds (c ∷ cs) = if has_char c ds then kept ds cs else c ∷ kept ds cs

abbrev pub concat : List (List ℕ) → List ℕ
concat [] = []
concat (t ∷ ts) = t ++ concat ts

-- A token is not empty, and has no delimiter.
abbrev pub IsToken : List ℕ → List ℕ → Type 0
IsToken ds t = (t ≢ []) × All (λ c. has_char c ds ≡ false) t

kept-skip : (ds s : List ℕ) → kept ds (skip ds s) ≡ kept ds s
unfolding skip
kept-skip ds [] = refl
kept-skip ds (c ∷ cs) = elim (Bool-cases (has_char c ds)) [
  | inl here ↦ rw here (kept-skip ds cs)
  | inr there ↦ ground arith
]

token-kept : (ds s : List ℕ) → token ds s ++ kept ds (behind ds s) ≡ kept ds s
unfolding token behind
token-kept ds [] = refl
token-kept ds (c ∷ cs) = elim (Bool-cases (has_char c ds)) [
  | inl here ↦ rw here
  | inr there ↦ rw there (ap (λ k. c ∷ k) (token-kept ds cs))
]

token-All : (ds s : List ℕ) → All (λ c. has_char c ds ≡ false) (token ds s)
unfolding token
token-All ds [] = tt
token-All ds (c ∷ cs) = elim (Bool-cases (has_char c ds)) [
  | inl here ↦ rw here tt
  | inr there ↦ rw there (there, token-All ds cs)
]

length-behind : (ds s : List ℕ) → length (behind ds s) ≤ length s
unfolding behind
length-behind ds [] = omega arith
length-behind ds (c ∷ cs) = ground (arith, length-behind ds cs)

length-skip : (ds s : List ℕ) → length (skip ds s) ≤ length s
unfolding skip
length-skip ds [] = omega arith
length-skip ds (c ∷ cs) = ground (arith, length-skip ds cs)

skip-first : (ds s : List ℕ) (c : ℕ) (cs : List ℕ) → skip ds s ≡ c ∷ cs → has_char c ds ≡ false
unfolding skip
skip-first ds [] c cs e = absurd (cc)
skip-first ds (x ∷ xs) c cs e = elim (Bool-cases (has_char x ds)) [
  | inl here ↦ let e' : skip ds xs ≡ c ∷ cs = sym (if_true _ _ here) ∙ e in skip-first ds xs c cs e'
  | inr there ↦
      let e' : x ∷ xs ≡ c ∷ cs = sym (if_false _ _ there) ∙ e in
      let same : x ≡ c = cc in subst (λ k. has_char k ds ≡ false) same there
]

token_nonempty :
    (ds : List ℕ) (c : ℕ) (cs : List ℕ) → has_char c ds ≡ false → token ds (c ∷ cs) ≢ []
unfolding token
token_nonempty ds c cs first e =
    let e' : c ∷ token ds cs ≡ [] = sym (if_false _ _ first) ∙ e in absurd (cc)

length-behind_first :
    (ds : List ℕ) (c : ℕ) (cs : List ℕ)
    → has_char c ds ≡ false
    → length (behind ds (c ∷ cs)) ≤ length cs
unfolding behind
length-behind_first ds c cs first = rw first (length-behind ds cs)

-- What a call of `strtok` gives: a token and the rest, or none where only delimiters are left.
data TokenCases (ds s : List ℕ) : Option (List ℕ × List ℕ) → Type 0 where
  over : {o : Option (List ℕ × List ℕ)} → o ≡ none → kept ds s ≡ [] → TokenCases ds s o
  more :
      (t rest : List ℕ) {o : Option (List ℕ × List ℕ)}
      → o ≡ some (t, rest)
      → IsToken ds t
      → kept ds s ≡ t ++ kept ds rest
      → length rest < length s
      → TokenCases ds s o

strtok-TokenCases : (ds s : List ℕ) → TokenCases ds s (strtok ds s)
unfolding strtok
strtok-TokenCases ds s = go (skip ds s) refl
  where
    go : (k : List ℕ) → skip ds s ≡ k → TokenCases ds s (strtok ds s)
    go [] e = over (rw (e, strtok)) (sym (kept-skip ds s) ∙ ap (kept ds) e)
    go (c ∷ cs) e =
        let first = skip-first ds s c cs e in
        more (token ds (c ∷ cs)) (behind ds (c ∷ cs)) (rw (e, strtok))
          (token_nonempty ds c cs first, token-All ds (c ∷ cs))
          (sym (kept-skip ds s) ∙ ap (kept ds) e ∙ sym (token-kept ds (c ∷ cs)))
          (omega (arith, length-skip ds s, ap length e, length-behind_first ds c cs first))

split_loop-IsToken :
    (ds : List ℕ) (n : ℕ) (s : List ℕ)
    → length s < n
    → (ts : List (List ℕ)) × (split_loop ds n s ≡ some ts)
      × All (IsToken ds) ts
      × (concat ts ≡ kept ds s)
unfolding split_loop
split_loop-IsToken ds zero s h = elim h [ ]
split_loop-IsToken ds (suc n) s h = elim (strtok-TokenCases ds s) [
  | over e none_left ↦ ([], rw (e, split_loop), tt, sym none_left)
  | more t rest e is_token same shorter ↦
      let (ts, runs, tokens, all) = split_loop-IsToken ds n rest (omega arith) in
      (t ∷ ts, rw (e, runs, split_loop), (is_token, tokens), ap (λ k. t ++ k) all ∙ sym same)
]

-- `split` ends; its strings are not empty and have no delimiter, and one behind the other they are
-- the string without its delimiters.
pub split-IsToken :
    (s ds : List ℕ)
    → (ts : List (List ℕ)) × (split s ds ≡ some ts) × All (IsToken ds) ts × (concat ts ≡ kept ds s)
unfolding split
split-IsToken s ds = split_loop-IsToken ds (length s + 1) s (omega arith)
