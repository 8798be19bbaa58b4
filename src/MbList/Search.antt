-- ===== src/MbList/Search.antt =====
-- The searches of the array list: `indexOf`, `contains` and `replace`.
use rustdbg.Prelude.{
  ℕ, zero, suc, ◌+◌, ◌^◌, ◌≤◌, ◌<◌, ◌≡◌, refl, sym, ◌∙◌, ◌↔◌, ◌⊎◌, inl, inr, Bool, true, false, not,
  some, List, arith, ◌==◌, Bool-cases, length, get_elem?, set, length-set, get_elem?-set_self,
  get_elem?-set_ne, get_elem?-lt, get_elem?-some, ℤ, pos, negsuc, is_neg, to_i32_small,
}
use rustdbg.MbList.{
  MbList, get, hit, index_loop, index_of_predicate, index_of, contains, overwrite, replace, fetch,
}
use rustdbg.MbList.Inv.{Represents}

-- `i` is the first place of `xs` whose value passes `p`.
pub record IsFirst {A : Type 0} (p : A → Bool) (xs : List A) (i : ℕ) : Type 0 where
  pub value : A
  pub at : get_elem? xs i ≡ some value
  pub passes : p value ≡ true
  pub before : (j : ℕ) (a : A) → j < i → get_elem? xs j ≡ some a → p a ≡ false

-- What `indexOf` may answer: the first place, or -1 where no value passes.
pub data Found {A : Type 0} (p : A → Bool) (xs : List A) : ℤ → Type 0 where
  first : {k : ℤ} (i : ℕ) → k ≡ pos i → IsFirst p xs i → Found p xs k
  nowhere :
      {k : ℤ}
      → k ≡ negsuc 0
      → ((j : ℕ) (a : A) → get_elem? xs j ≡ some a → p a ≡ false)
      → Found p xs k

module _ {A : Type 0} {l : MbList A} {xs : List A} (r : Represents l xs)
    (small : length xs ≤ 2 ^ 31) where
  index_loop-Found :
      (p : A → Bool) (n i : ℕ)
      → i + n ≡ length xs
      → ((j : ℕ) (a : A) → j < i → get_elem? xs j ≡ some a → p a ≡ false)
      → Found p xs (index_loop p l n i)
  unfolding index_loop
  index_loop-Found p zero i e past =
      nowhere refl (λ j a at. past j a (omega (arith, get_elem?-lt xs j at)) at)
  index_loop-Found p (suc n) i e past =
      let (a, at) = get_elem?-some xs i (omega arith) in
      let here : hit p (get l i) ≡ p a = ground (arith, r.stored i) in
      elim (Bool-cases (p a)) [
        | inl found ↦
            rw (here, found, index_loop)
              (first i (to_i32_small i (omega arith))
                (record { value = a; at = at; passes = found; before = past }))
        | inr miss ↦
            rw (here, miss, index_loop)
              (index_loop-Found p n (i + 1) (omega arith) (λ j b h got. elim (Bool-cases (j == i)) [
                | inl same ↦ ground arith
                | inr other ↦ past j b (ground arith) got
              ]))
      ]

  -- `indexOf` answers the first place that passes, or -1 exactly where none does.
  pub index_of_predicate-Found : (p : A → Bool) → Found p xs (index_of_predicate l p)
  unfolding index_of_predicate
  index_of_predicate-Found p =
      index_loop-Found p l.length 0 (omega (arith, r.counted)) (λ j a h. elim h [ ])

  module _ (eq : A → A → Bool) where
    contains-cases :
        (v : A) {k : ℤ}
        → Found (λ a. eq a v) xs k
        → (not (is_neg k) ≡ true)
          ↔ ((i : ℕ) × (a : A) × (get_elem? xs i ≡ some a) × (eq a v ≡ true))
    contains-cases v (first i e f) = rw e ((λ _. (i, f.value, f.at, f.passes)), (λ _. refl))
    contains-cases v (nowhere e none_there) =
        rw e ((λ h. absurd (cc)), (λ (i, a, at, p). ground (arith, none_there i a at)))

    -- `contains` says whether some value of the list is equal.
    pub contains_iff :
        (v : A)
        → (contains eq l v ≡ true)
          ↔ ((i : ℕ) × (a : A) × (get_elem? xs i ≡ some a) × (eq a v ≡ true))
    unfolding contains index_of
    contains_iff v = contains-cases v (index_of_predicate-Found (λ a. eq a v))

    overwrite-Represents :
        (i : ℕ) (v : A) → i < length xs → Represents (overwrite l (pos i) v).1 (set xs i v)
    unfolding get
    overwrite-Represents i v h = record {
      counted = r.counted ∙ sym (length-set xs i v);
      allocated = length-set l.cells i (some v) ∙ r.allocated;
      within = r.within;
      positive = r.positive;
      stored = λ j k. stored j k;
    }
      where
        stored :
            (j : ℕ)
            → j < length (set xs i v)
            → fetch (get_elem? (set l.cells i (some v)) j) ≡ get_elem? (set xs i v) j
        stored j k = elim (Bool-cases (i == j)) [
          | inl same ↦ ground (
            arith,
            get_elem?-set_self l.cells i (some v),
            get_elem?-set_self xs i v,
            r.counted,
            r.allocated,
            r.within,
          )
          | inr other ↦ ground (
            arith,
            length-set xs i v,
            get_elem?-set_ne l.cells {i = i} {j = j} (some v),
            get_elem?-set_ne xs {i = i} {j = j} v,
            r.stored j,
          )
        ]

    replace-cases :
        (old v : A) {k : ℤ}
        → Found (λ a. eq a old) xs k
        → ((i : ℕ) × IsFirst (λ a. eq a old) xs i
            × ((overwrite l k v).0 ≡ true)
            × Represents (overwrite l k v).1 (set xs i v))
          ⊎ ((overwrite l k v ≡ (false, l))
              × ((j : ℕ) (a : A) → get_elem? xs j ≡ some a → eq a old ≡ false))
    replace-cases old v (first i e f) =
        inl (i, f, rw e, rw e (overwrite-Represents i v (get_elem?-lt xs i f.at)))
    replace-cases old v (nowhere e none_there) = inr (rw e, none_there)

    -- `replace` writes over the first equal value and answers true, or answers false and changes
    -- nothing where there is none.
    pub replace-IsFirst :
        (old v : A)
        → ((i : ℕ) × IsFirst (λ a. eq a old) xs i
            × ((replace eq l old v).0 ≡ true)
            × Represents (replace eq l old v).1 (set xs i v))
          ⊎ ((replace eq l old v ≡ (false, l))
              × ((j : ℕ) (a : A) → get_elem? xs j ≡ some a → eq a old ≡ false))
    unfolding replace index_of
    replace-IsFirst old v = replace-cases old v (index_of_predicate-Found (λ a. eq a old))
