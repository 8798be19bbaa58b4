-- ===== src/MbList.antt =====
-- lib/src/MBList.h: the resizable array list. `_data` is a list of `_capacity` cells, where `none`
-- is memory that nobody has written; `malloc` and `realloc` are taken to succeed.
pub mod Inv
pub mod Refine
pub mod Search
use rustdbg.Prelude.{
  ℕ, zero, suc, ◌+◌, ◌-◌, ◌*◌, Bool, true, false, Option, none, some, List, ◌++◌, ◌==◌,
  if◌then◌else◌, length, get_elem?, set, take, replicate, ℤ, pos, negsuc, is_neg, to_i32, to_u64,
  sub_u64, not,
}

pub record MbList {ℓ} (A : Type ℓ) : Type ℓ where
  pub length : ℕ
  pub cells : List (Option A)
  pub capacity : ℕ

abbrev pub initial_capacity : ℕ
initial_capacity = 8

module _ {ℓ} {A : Type ℓ} where
  -- The constructor.
  unfoldable pub new : MbList A
  new = record { length = 0; cells = replicate initial_capacity none; capacity = initial_capacity }

  -- `realloc`: the common part stays, and the rest is not written yet.
  abbrev pub realloc : List (Option A) → ℕ → List (Option A)
  realloc cells n = take n cells ++ replicate (n - length cells) none

  -- The test and the doubling with which `add` and `push` begin.
  unfoldable pub reserve : MbList A → MbList A
  reserve l =
      if l.length == l.capacity
      then record l {
        capacity = to_u64 (l.capacity * 2);
        cells = realloc l.cells (to_u64 (l.capacity * 2));
      }
      else l

  -- `_data[_length ++] = value`.
  unfoldable pub store : MbList A → A → MbList A
  store l v = record l { cells = set l.cells l.length (some v); length = to_u64 (l.length + 1) }

  unfoldable pub push : MbList A → A → ℤ × MbList A
  push l v = let l' = store (reserve l) v in (to_i32 (sub_u64 l'.length 1), l')

  unfoldable pub append : MbList A → A → ℤ × MbList A
  append l v = push l v

  unfoldable pub add : MbList A → A → A × MbList A
  add l v = (v, store (reserve l) v)

  -- `_data[index]`; `none` is a read outside the cells, or of a cell nobody has written.
  abbrev pub fetch : Option (Option A) → Option A
  fetch none = none
  fetch (some c) = c

  unfoldable pub get : MbList A → ℕ → Option A
  get l i = fetch (get_elem? l.cells i)

  unfoldable pub pop : MbList A → Option A × MbList A
  pop l = let n = sub_u64 l.length 1 in (fetch (get_elem? l.cells n), record l { length = n })

  unfoldable pub clear : MbList A → MbList A
  clear l = record l { length = 0 }

  unfoldable pub is_empty : MbList A → Bool
  is_empty l = l.length == 0

  abbrev pub hit : (A → Bool) → Option A → Bool
  hit p none = false
  hit p (some a) = p a

  -- The loop of both `indexOf`, on the rounds left.
  unfoldable pub index_loop : (A → Bool) → MbList A → ℕ → ℕ → ℤ
  index_loop p l zero i = negsuc 0
  index_loop p l (suc n) i = elim (hit p (get l i)) [
    | true ↦ to_i32 i
    | false ↦ index_loop p l n (i + 1)
  ]

  unfoldable pub index_of_predicate : MbList A → (A → Bool) → ℤ
  index_of_predicate l p = index_loop p l l.length 0

  -- `_data[index] = newValue` at the index found.
  abbrev pub overwrite : MbList A → ℤ → A → Bool × MbList A
  overwrite l (pos i) v = (true, record l { cells = set l.cells i (some v) })
  overwrite l (negsuc i) v = (false, l)

-- The operations that compare values use the `==` of the element type.
module _ {ℓ} {A : Type ℓ} (eq : A → A → Bool) where
  unfoldable pub index_of : MbList A → A → ℤ
  index_of l v = index_of_predicate l (λ a. eq a v)

  unfoldable pub contains : MbList A → A → Bool
  contains l v = not (is_neg (index_of l v))

  unfoldable pub replace : MbList A → A → A → Bool × MbList A
  replace l old v = overwrite l (index_of l old) v
