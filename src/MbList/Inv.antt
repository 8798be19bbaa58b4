-- ===== src/MbList/Inv.antt =====
-- The representation invariant of the array list, and what it stands for.
use rustdbg.Prelude.{
  ℕ, ◌-◌, ◌*◌, ◌^◌, ◌≤◌, ◌<◌, ◌≡◌, none, List, [], arith, Bool-cases, ◌==◌, inl, inr, length,
  get_elem?, take, replicate, Option, get_elem?-append_left, get_elem?-take, length-append,
  length-take, length-replicate, to_u64, ◌∙◌, ap,
}
use rustdbg.MbList.{MbList, new, get, fetch, reserve, realloc}

-- `l` holds exactly the values `xs`, in order, in written cells that it owns.
pub record Represents {ℓ} {A : Type ℓ} (l : MbList A) (xs : List A) : Type ℓ where
  pub counted : l.length ≡ length xs
  pub allocated : length l.cells ≡ l.capacity
  pub within : l.length ≤ l.capacity
  pub positive : 0 < l.capacity
  pub stored : (i : ℕ) → i < length xs → get l i ≡ get_elem? xs i

module _ {ℓ} {A : Type ℓ} where
  pub new-Represents : Represents (new {A = A}) []
  unfolding new
  new-Represents = record {
    counted = omega arith;
    allocated = omega arith;
    within = omega arith;
    positive = omega arith;
    stored = λ i h. elim h [ ];
  }

  get_elem?-realloc :
      (cells : List (Option A)) (n i : ℕ)
      → i < length cells
      → i < n
      → get_elem? (realloc cells n) i ≡ get_elem? cells i
  get_elem?-realloc cells n i h k =
      get_elem?-append_left (take n cells) (replicate (n - length cells) none) i
        (omega (arith, length-take n cells))
      ∙ get_elem?-take cells n i k

  length-realloc :
      (cells : List (Option A)) (n : ℕ) → length cells ≤ n → length (realloc cells n) ≡ n
  length-realloc cells n h = omega (
    arith,
    length-append (take n cells) (replicate (n - length cells) none),
    length-take n cells,
    length-replicate {A = Option A} (n - length cells) none,
  )

  -- What the doubling promises to the write behind it.
  pub reserve-Represents :
      {l : MbList A} {xs : List A}
      → length xs < 2 ^ 62
      → Represents l xs
      → Represents (reserve l) xs × (length xs < (reserve l).capacity)
  unfolding reserve get
  reserve-Represents {l} {xs} small r = elim (Bool-cases (l.length == l.capacity)) [
    | inl full ↦ rw full (
        let twice : to_u64 (l.capacity * 2) ≡ l.capacity * 2 = ground arith in
        (
          record {
            counted = r.counted;
            allocated = length-realloc l.cells (to_u64 (l.capacity * 2)) (ground arith);
            within = ground arith;
            positive = ground arith;
            stored = λ i h.
                ap fetch (
                  get_elem?-realloc l.cells (to_u64 (l.capacity * 2)) i (ground arith)
                    (ground arith))
                ∙ r.stored i h;
          },
          ground arith,
        ))
    | inr room ↦ rw room (r, ground arith)
  ]
