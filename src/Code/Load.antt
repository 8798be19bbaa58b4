-- ===== src/Code/Load.antt =====
-- `loadSymbols`: it ends where finitely many files can be parsed, and then every file has its
-- dylibs loaded, or they cannot be parsed.
use rustdbg.Prelude.{
  ℕ, ◌+◌, ◌≤◌, ◌<◌, ◌≡◌, refl, ap, ◌∙◌, inl, inr, Bool, true, false, ◌||◌, List, [], ◌∷◌, ◌++◌,
  arith, if◌then◌else◌, Bool-cases, length,
}
use rustdbg.Code.{MachFile, strcmp_equal, is_loaded}

-- `strcmp` tells two names apart.
pub strcmp_equal_refl : (n : List ℕ) → strcmp_equal n n ≡ true
unfolding strcmp_equal
strcmp_equal_refl [] = refl
strcmp_equal_refl (x ∷ xs) = ground (arith, strcmp_equal_refl xs)

pub is_loaded-append :
    (fs : List MachFile) (g : MachFile) (n : List ℕ)
    → is_loaded (fs ++ g ∷ []) n ≡ (is_loaded fs n || strcmp_equal g.file_name n)
unfolding is_loaded
is_loaded-append [] g n = ground arith
is_loaded-append (f ∷ fs) g n = ground (arith, is_loaded-append fs g n)

-- The files of the first list are loaded in the second one.
abbrev pub Extends : List MachFile → List MachFile → Type 0
Extends fs fs' = (n : List ℕ) → is_loaded fs n ≡ true → is_loaded fs' n ≡ true

pub strcmp_equal-eq : (a b : List ℕ) → strcmp_equal a b ≡ true → a ≡ b
unfolding strcmp_equal
strcmp_equal-eq [] [] e = refl
strcmp_equal-eq [] (y ∷ ys) e = absurd (cc)
strcmp_equal-eq (x ∷ xs) [] e = absurd (cc)
strcmp_equal-eq (x ∷ xs) (y ∷ ys) e =
    let first : x ≡ y = ground arith in
    let rest : xs ≡ ys = strcmp_equal-eq xs ys (ground arith) in cc

pub Extends-append : (fs gs : List MachFile) → Extends fs (fs ++ gs)
unfolding is_loaded
Extends-append [] gs n e = absurd (cc)
Extends-append (f ∷ fs) gs n e = elim (Bool-cases (strcmp_equal f.file_name n)) [
  | inl same ↦ rw same
  | inr differs ↦ rw differs (Extends-append fs gs n (ground arith))
]

-- Whether a name stands in a list.
abbrev pub names_have : List (List ℕ) → List ℕ → Bool
names_have [] n = false
names_have (u ∷ us) n = strcmp_equal u n || names_have us n

-- How many names of a list are not loaded.
abbrev pub missing : List (List ℕ) → List MachFile → ℕ
missing [] fs = 0
missing (u ∷ us) fs = (if is_loaded fs u then 0 else 1) + missing us fs

pub missing-length : (us : List (List ℕ)) (fs : List MachFile) → missing us fs ≤ length us
missing-length [] fs = omega arith
missing-length (u ∷ us) fs = ground (arith, missing-length us fs)

pub missing-Extends :
    (us : List (List ℕ)) (fs fs' : List MachFile) → Extends fs fs' → missing us fs' ≤ missing us fs
missing-Extends [] fs fs' more = omega arith
missing-Extends (u ∷ us) fs fs' more = ground (arith, missing-Extends us fs fs' more, more u)

-- Loading a name of the list leaves fewer missing.
pub missing-fewer :
    (us : List (List ℕ)) (n : List ℕ) (fs fs' : List MachFile)
    → Extends fs fs'
    → names_have us n ≡ true
    → is_loaded fs n ≡ false
    → is_loaded fs' n ≡ true
    → missing us fs' < missing us fs
missing-fewer [] n fs fs' more there old new = absurd (cc)
missing-fewer (u ∷ us) n fs fs' more there old new = elim (Bool-cases (strcmp_equal u n)) [
  | inl same ↦
      let old' : is_loaded fs u ≡ false = ap (is_loaded fs) (strcmp_equal-eq u n same) ∙ old in
      let new' : is_loaded fs' u ≡ true = ap (is_loaded fs') (strcmp_equal-eq u n same) ∙ new in
      ground (arith, missing-Extends us fs fs' more)
  | inr differs ↦
      let there' : names_have us n ≡ true = ground arith in
      ground (arith, missing-fewer us n fs fs' more there' old new, more u)
]
