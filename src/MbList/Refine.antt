-- ===== src/MbList/Refine.antt =====
-- The array list behaves as the list of the values that it holds.
use rustdbg.Prelude.{
  ℕ, ◌-◌, ◌^◌, ◌<◌, ◌≡◌, refl, ◌∙◌, inl, inr, some, List, [], ◌∷◌, ◌++◌, arith, ◌==◌, Bool-cases,
  length, get_elem?, set, length-append, length-set, get_elem?-set_self, get_elem?-set_ne,
  get_elem?-append_left, get_elem?-append_length, pos, to_i32_small,
}
use rustdbg.MbList.{MbList, get, fetch, store, push, pop, clear, is_empty}
use rustdbg.MbList.Inv.{Represents, reserve-Represents}

module _ {A : Type 0} where
  store-Represents :
      {l : MbList A} {xs : List A} (v : A)
      → length xs < 2 ^ 62
      → Represents l xs
      → length xs < l.capacity
      → Represents (store l v) (xs ++ v ∷ [])
  unfolding store get
  store-Represents {l} {xs} v small r room = record {
    counted = omega (arith, r.counted, length-append xs (v ∷ []));
    allocated = length-set l.cells l.length (some v) ∙ r.allocated;
    within = ground arith;
    positive = r.positive;
    stored = λ i h. stored i h;
  }
    where
      stored :
          (i : ℕ)
          → i < length (xs ++ v ∷ [])
          → fetch (get_elem? (set l.cells l.length (some v)) i) ≡ get_elem? (xs ++ v ∷ []) i
      stored i h = elim (Bool-cases (i == length xs)) [
        | inl last ↦
            ground
              (arith, get_elem?-set_self l.cells l.length (some v), get_elem?-append_length xs v [])
        | inr before ↦ ground (
          arith,
          length-append xs (v ∷ []),
          get_elem?-set_ne l.cells {i = l.length} {j = i} (some v),
          get_elem?-append_left xs (v ∷ []) i,
          r.stored i,
        )
      ]

  -- `push` answers the index of the new value and adds it at the end.
  pub push-append :
      {l : MbList A} {xs : List A} (v : A)
      → length xs < 2 ^ 31
      → Represents l xs
      → ((push l v).0 ≡ pos (length xs)) × Represents (push l v).1 (xs ++ v ∷ [])
  unfolding push
  push-append {l} {xs} v small r =
      let (r', room) = reserve-Represents (omega arith) r in
      let held = store-Represents v (omega arith) r' room in
      (ground (arith, held.counted, length-append xs (v ∷ []), to_i32_small (length xs)), held)

  -- `pop` answers the last value and takes it off.
  pub pop-append :
      {l : MbList A} {xs : List A} (v : A)
      → length xs < 2 ^ 63
      → Represents l (xs ++ v ∷ [])
      → ((pop l).0 ≡ some v) × Represents (pop l).1 xs
  unfolding pop get
  pop-append {l} {xs} v small r = (
    ground
        (arith, length-append xs (v ∷ []), r.stored (length xs), get_elem?-append_length xs v []),
    record {
      counted = omega (arith, r.counted, length-append xs (v ∷ []));
      allocated = r.allocated;
      within = omega (arith, r.counted, r.within, length-append xs (v ∷ []));
      positive = r.positive;
      stored = λ i h.
          r.stored i (omega (arith, length-append xs (v ∷ [])))
          ∙ get_elem?-append_left xs (v ∷ []) i h;
    },
  )

  -- On an empty list `pop` has no guard: the length wraps and the list stands for nothing.
  pub pop_empty :
      {l : MbList A} {ys : List A}
      → Represents l []
      → length ys < 2 ^ 64 - 1
      → ¬ Represents (pop l).1 ys
  unfolding pop
  pop_empty r h q = omega (arith, r.counted, q.counted)

  pub clear-Represents : {l : MbList A} {xs : List A} → Represents l xs → Represents (clear l) []
  unfolding clear
  clear-Represents r = record {
    counted = refl;
    allocated = r.allocated;
    within = omega arith;
    positive = r.positive;
    stored = λ i h. elim h [ ];
  }

  pub is_empty-length :
      {l : MbList A} {xs : List A} → Represents l xs → is_empty l ≡ (length xs == 0)
  unfolding is_empty
  is_empty-length r = ground arith
