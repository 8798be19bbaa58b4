-- ===== src/Code/Region.antt =====
-- Which addresses a code region contains, and which region `getRegion` finds.
use rustdbg.Prelude.{
  ℕ, zero, suc, ◌+◌, ◌-◌, ◌%◌, ◌^◌, ◌≤◌, ◌<◌, ◌≡◌, refl, ap, ◌∙◌, subst, ◌↔◌, ◌⊎◌, inl, inr, true,
  false, not, Option, none, some, List, [], ◌∷◌, arith, ltb, leb, if◌then◌else◌, Bool-cases,
  get_elem?, ℤ, pos, negsuc, is_neg, to_i32, sub_u64, to_i32_small,
}
use rustdbg.MbList.Search.{IsFirst}
use rustdbg.Code.{gt_int, Code, CodeRegion, get_offset, contains, region_from, get_region}

abbrev as_int : ℕ → ℤ
as_int k = if ltb k (2 ^ 31) then pos k else negsuc (2 ^ 32 - k - 1)

offset_sign :
    (k s : ℕ)
    → s < 2 ^ 31
    → not (is_neg (if gt_int (as_int k) (pos s) then negsuc 0 else as_int k)) ≡ leb k s
offset_sign k s h = elim (Bool-cases (ltb k (2 ^ 31))) [
  | inl low ↦ elim (Bool-cases (ltb s k)) [
    | inl past ↦ rw (low, past) (ground arith)
    | inr inside ↦ rw (low, inside) (ground arith)
  ]
  | inr high ↦ rw high (ground arith)
]

contains-leb :
    (r : CodeRegion) (x : ℕ)
    → r.size < 2 ^ 31
    → contains r x ≡ leb (sub_u64 x r.address % 2 ^ 32) r.size
unfolding contains get_offset
contains-leb r x small =
    ap
      (λ s. not (
        is_neg (
          if gt_int (to_i32 (sub_u64 x r.address)) s
          then negsuc 0
          else to_i32 (sub_u64 x r.address))))
      (to_i32_small r.size small)
    ∙ offset_sign (sub_u64 x r.address % 2 ^ 32) r.size small

-- A region of fewer than 2^31 bytes contains an address exactly if the low 32 bits of their distance
-- are at most its size.
pub contains_iff :
    (r : CodeRegion) (x : ℕ)
    → r.size < 2 ^ 31
    → (contains r x ≡ true) ↔ (sub_u64 x r.address % 2 ^ 32 ≤ r.size)
contains_iff r x small =
    ((λ e. ground (arith, contains-leb r x small)), (λ e. contains-leb r x small ∙ ground arith))

low_distance :
    (a x s : ℕ) → a + s < 2 ^ 32 → x < 2 ^ 32 → sub_u64 x a % 2 ^ 32 ≤ s → (a ≤ x) × (x ≤ a + s)
low_distance a x s low below h = omega arith

distance_low :
    (a x s : ℕ) → a + s < 2 ^ 32 → x < 2 ^ 32 → (a ≤ x) × (x ≤ a + s) → sub_u64 x a % 2 ^ 32 ≤ s
distance_low a x s low below h = omega arith

-- In the low 4 GB this is the interval from the first byte to the one behind the last.
pub contains-low :
    (r : CodeRegion) (x : ℕ)
    → r.size < 2 ^ 31
    → r.address + r.size < 2 ^ 32
    → x < 2 ^ 32
    → (contains r x ≡ true) ↔ ((r.address ≤ x) × (x ≤ r.address + r.size))
contains-low r x small low below =
    let (to, from) = contains_iff r x small in
    (
      (λ e. low_distance r.address x r.size low below (to e)),
      (λ b. from (distance_low r.address x r.size low below b)),
    )

-- What a search may answer from place `n` on: the first region that contains the address, or none.
abbrev pub FirstRegion : List CodeRegion → ℕ → ℕ → Option ℕ → Type 0
FirstRegion rs x n o =
    ((i : ℕ) × (o ≡ some (i + n)) × IsFirst (λ r. contains r x) rs i)
    ⊎ ((o ≡ none) × ((j : ℕ) (r : CodeRegion) → get_elem? rs j ≡ some r → contains r x ≡ false))

region_from-FirstRegion : (rs : List CodeRegion) (x n : ℕ) → FirstRegion rs x n (region_from rs x n)
unfolding region_from
region_from-FirstRegion [] x n = inr (refl, (λ j r e. absurd (cc)))
region_from-FirstRegion (r ∷ rs) x n = elim (Bool-cases (contains r x)) [
  | inl here ↦ inl (
    0,
    rw here (ap some (omega arith)),
    record { value = r; at = refl; passes = here; before = λ j a h. elim h [ ] },
  )
  | inr there ↦ later there (region_from-FirstRegion rs x (n + 1))
]
  where
    later :
        contains r x ≡ false
        → FirstRegion rs x (n + 1) (region_from rs x (n + 1))
        → FirstRegion (r ∷ rs) x n (region_from (r ∷ rs) x n)
    later there (inl (i, e, first)) = inl (
      suc i,
      rw (there, e) (ap some (omega arith)),
      record {
        value = first.value;
        at = first.at;
        passes = first.passes;
        before = λ j a h at. before j a h at;
      },
    )
      where
        before :
            (j : ℕ) (a : CodeRegion)
            → j < suc i
            → get_elem? (r ∷ rs) j ≡ some a
            → contains a x ≡ false
        before zero a h at = let same : r ≡ a = cc in subst (λ k. contains k x ≡ false) same there
        before (suc j) a h at = first.before j a (omega arith) at
    later there (inr (e, none_there)) = inr (rw (there, e), (λ j a at. nowhere j a at))
      where
        nowhere : (j : ℕ) (a : CodeRegion) → get_elem? (r ∷ rs) j ≡ some a → contains a x ≡ false
        nowhere zero a at = let same : r ≡ a = cc in subst (λ k. contains k x ≡ false) same there
        nowhere (suc j) a at = none_there j a at

-- `getRegion` answers the first region that contains the address, or NULL where none does.
pub get_region-FirstRegion : (c : Code) (x : ℕ) → FirstRegion c.regions x 0 (get_region c x)
unfolding get_region
get_region-FirstRegion c x = region_from-FirstRegion c.regions x 0
