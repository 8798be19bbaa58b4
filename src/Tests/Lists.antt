-- ===== src/Tests/Lists.antt =====
-- The array list at concrete inputs.
use rustdbg.Prelude.{
  ℕ, zero, suc, ◌<◌, ◌≡◌, refl, ◌↔◌, ◌⊎◌, Bool, true, false, none, some, List, [], ◌∷◌, arith, ◌==◌,
  get_elem?, set, pos,
}
use rustdbg.MbList.{MbList, new, push, contains, replace, get, store, reserve}
use rustdbg.MbList.Inv.{Represents}
use rustdbg.MbList.Refine.{push-append}
use rustdbg.MbList.Search.{IsFirst, contains_iff, replace-IsFirst}

abbrev eq : ℕ → ℕ → Bool
eq a b = a == b

-- Two values in the fresh array.
abbrev two : MbList ℕ
two = record {
  length = 2;
  cells = some 5 ∷ some 7 ∷ none ∷ none ∷ none ∷ none ∷ none ∷ none ∷ [];
  capacity = 8;
}

abbrev values : List ℕ
values = 5 ∷ 7 ∷ []

two-Represents : Represents two values
unfolding get
two-Represents = record {
  counted = refl;
  allocated = refl;
  within = omega arith;
  positive = omega arith;
  stored = λ i h. stored i h;
}
  where
    stored : (i : ℕ) → i < 2 → get two i ≡ get_elem? values i
    stored zero h = refl
    stored (suc zero) h = refl
    stored (suc (suc i)) h = absurd (omega arith)

two_pushes : (push (push new 5).1 7).1 ≡ two
unfolding push new store reserve
two_pushes = refl

-- Nine pushes double the capacity.
pushes : ℕ → MbList ℕ → MbList ℕ
pushes zero l = l
pushes (suc n) l = pushes n (push l n).1

ninth_doubles : (pushes 9 new).capacity ≡ 16
unfolding pushes push new store reserve
ninth_doubles = refl

push-append_example : ((push two 9).0 ≡ pos 2) × Represents (push two 9).1 (5 ∷ 7 ∷ 9 ∷ [])
push-append_example = push-append 9 (omega arith) two-Represents

seven_contained :
    (contains eq two 7 ≡ true)
    ↔ ((i : ℕ) × (a : ℕ) × (get_elem? values i ≡ some a) × (eq a 7 ≡ true))
seven_contained = contains_iff two-Represents (omega arith) eq 7

replace-IsFirst_example :
    ((i : ℕ) × IsFirst (λ a. eq a 7) values i
      × ((replace eq two 7 1).0 ≡ true)
      × Represents (replace eq two 7 1).1 (set values i 1))
    ⊎ ((replace eq two 7 1 ≡ (false, two))
        × ((j : ℕ) (a : ℕ) → get_elem? values j ≡ some a → eq a 7 ≡ false))
replace-IsFirst_example = replace-IsFirst two-Represents (omega arith) eq 7 1
