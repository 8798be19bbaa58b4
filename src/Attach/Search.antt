-- ===== src/Attach/Search.antt =====
-- What `findAddress` finds, for a memory map that is a list of regions.
use rustdbg.Prelude.{
  ℕ, zero, suc, ◌+◌, ◌*◌, ◌^◌, ◌≤◌, ◌<◌, ◌≡◌, refl, sym, ap, ◌∙◌, subst, inl, inr, Bool, true,
  false, not, ◌&&◌, Option, none, some, List, [], ◌∷◌, arith, ltb, ◌==◌, if◌then◌else◌, if_true,
  if_false, Bool-cases, Option-cases, length, get_elem?-some,
}
use rustdbg.Mach.{Mach}
use rustdbg.MachReader.{Layout, u32_at}
use rustdbg.Attach.{
  Region, RegionAnswer, region, invalid_address, other_error, MemoryMap, out_of, is_invalid, end_of,
  is_magic, holds_header, other_image, inspect, try_region, find_image_from, find_address,
}

-- The first region that ends behind the address.
abbrev pub next_region : ℕ → List Region → RegionAnswer
next_region a [] = invalid_address
next_region a (r ∷ rs) = if ltb a (r.address + r.size) then region r else next_region a rs

-- The regions are not empty, stand in order from an address on, and end below 2^64.
abbrev pub Ascending : ℕ → List Region → Type 0
Ascending a [] = Unit
Ascending a (r ∷ rs) =
    (a ≤ r.address)
    × (0 < r.size)
    × (r.address + r.size < 2 ^ 64)
    × Ascending (r.address + r.size) rs

-- The documented behaviour of the calls on the memory map: it is a list of regions, a read gives as
-- many bytes as it is asked for, and there is nothing to read behind the last region.
pub record MapLaws {m : Mach} (k : MemoryMap m) : Type 0 where
  pub regions : m.World → List Region
  pub ascending : (w : m.World) → Ascending 0 (regions w)
  pub lookup : (w : m.World) (a : ℕ) → k.vm_region w a ≡ next_region a (regions w)
  pub read_length :
      (w : m.World) (a n : ℕ) {image : List ℕ} → k.vm_read w a n ≡ some image → length image ≡ n
  pub unmapped :
      (w : m.World) (a n : ℕ) → k.vm_region w a ≡ invalid_address → k.vm_read w a n ≡ none

-- A word of an image, zero where it has none.
abbrev or_zero : Option ℕ → ℕ
or_zero none = 0
or_zero (some x) = x

abbrev pub word : List ℕ → ℕ → ℕ
word image p = or_zero (u32_at image p)

u32_at-some : (image : List ℕ) (p : ℕ) → p + 4 ≤ length image → (x : ℕ) × (u32_at image p ≡ some x)
unfolding u32_at
u32_at-some image p h =
    let (x, ex) = get_elem?-some image p (omega arith) in
    let (y, ey) = get_elem?-some image (p + 1) (omega arith) in
    let (z, ez) = get_elem?-some image (p + 2) (omega arith) in
    let (u, eu) = get_elem?-some image (p + 3) (omega arith) in
    (x + 256 * y + 65536 * z + 16777216 * u, rw (ex, ey, ez, eu) refl)

pub u32_at-word :
    (image : List ℕ) (p : ℕ) → p + 4 ≤ length image → u32_at image p ≡ some (word image p)
u32_at-word image p h = let (x, e) = u32_at-some image p h in e ∙ ap (λ o. some (or_zero o)) (sym e)

some_if : (b : Bool) (x y : ℕ) → (if b then some x else some y) ≡ some (if b then x else y)
some_if true x y = refl
some_if false x y = refl

module _ {m : Mach} (k : MemoryMap m) (l : Layout) where
  -- Behind a read: the magic number and the type of the file.
  abbrev pub has_type : ℕ → Option (List ℕ) → Bool
  has_type file_type none = false
  has_type file_type (some image) =
      is_magic k l (word image 0) && (word image l.filetype == file_type)

  -- The region can be read, has room for a header, and begins with one of the type.
  abbrev pub is_image : m.World → ℕ → Region → Bool
  is_image w file_type r = holds_header k l r && has_type file_type (k.vm_read w r.address r.size)

  -- The address of the first image of the type, or 0.
  abbrev pub first_image : m.World → ℕ → List Region → ℕ
  first_image w file_type [] = 0
  first_image w file_type (r ∷ rs) =
      if is_image w file_type r then r.address else first_image w file_type rs

  inspect-type :
      (file_type address : ℕ) (rest : Option ℕ) (image : List ℕ)
      → 4 ≤ length image
      → l.filetype + 4 ≤ length image
      → inspect k l file_type none address rest image
        ≡ (if has_type file_type (some image) then some address else rest)
  unfolding inspect other_image
  inspect-type file_type address rest image h h' =
      rw (u32_at-word image 0 h, u32_at-word image l.filetype h', inspect)
        (go (is_magic k l (word image 0)) (word image l.filetype == file_type))
    where
      go :
          (a b : Bool)
          → (if not a then rest else if not b then rest else some (if false then 0 else address))
            ≡ (if a && b then some address else rest)
      go true true = refl
      go true false = refl
      go false b = refl

  -- One round, whatever follows it.
  try_region-is_image :
      (laws : MapLaws k) (w : m.World) (file_type : ℕ) (r : Region) (rest : Option ℕ)
      → 4 ≤ l.size_mach_header
      → l.filetype + 4 ≤ l.size_mach_header
      → try_region k l w file_type none r rest
        ≡ (if is_image w file_type r then some r.address else rest)
  unfolding try_region
  try_region-is_image laws w file_type r rest h h' = elim (Bool-cases (holds_header k l r)) [
    | inr off ↦ rw (off, try_region) refl
    | inl on ↦ elim (Option-cases (k.vm_read w r.address r.size)) [
      | inl e ↦ rw (on, e, try_region) refl
      | inr (image, e) ↦
          let size = laws.read_length w r.address r.size e in
          rw (on, e, try_region)
            (inspect-type file_type r.address rest image (ground arith) (ground arith))
    ]
  ]

  -- The loop, by what `mach_vm_region` answers.
  find_image_from-answer :
      (fuel : ℕ) (w : m.World) (file_type : ℕ) (image_name : Option (List ℕ)) (old : Region)
      {answer : RegionAnswer}
      → k.vm_region w old.address ≡ answer
      → let r = out_of answer old in
        find_image_from k l (suc fuel) w file_type image_name old
        ≡ try_region k l w file_type image_name r (
            if is_invalid answer
            then some 0
            else find_image_from k l fuel w file_type image_name (record r { address = end_of r }))
  unfolding find_image_from
  find_image_from-answer fuel w file_type image_name old e =
      ap
        (λ answer. try_region k l w file_type image_name (out_of answer old) (
          if is_invalid answer
          then some 0
          else find_image_from k l fuel w file_type image_name
              (record (out_of answer old) { address = end_of (out_of answer old) })))
        e

  try_region-unread :
      (w : m.World) (file_type : ℕ) (image_name : Option (List ℕ)) (r : Region) (rest : Option ℕ)
      → k.vm_read w r.address r.size ≡ none
      → try_region k l w file_type image_name r rest ≡ rest
  unfolding try_region
  try_region-unread w file_type image_name r rest e = elim (Bool-cases (holds_header k l r)) [
    | inl on ↦ rw (on, e, try_region) refl
    | inr off ↦ rw (off, try_region) refl
  ]

  scan_from :
      (laws : MapLaws k) (w : m.World) (file_type : ℕ)
      → 4 ≤ l.size_mach_header
      → l.filetype + 4 ≤ l.size_mach_header
      → (fuel : ℕ) (rs : List Region) (old : Region) → Ascending old.address rs
      → ((a : ℕ) → old.address ≤ a → k.vm_region w a ≡ next_region a rs)
      → length rs < fuel
      → find_image_from k l fuel w file_type none old ≡ some (first_image w file_type rs)
  scan_from laws w file_type h h' zero rs old up next enough = elim enough [ ]
  scan_from laws w file_type h h' (suc fuel) [] old up next enough =
      let gone : k.vm_region w old.address ≡ invalid_address = next old.address (omega arith) in
      find_image_from-answer fuel w file_type none old gone
      ∙ try_region-unread w file_type none old (some 0) (laws.unmapped w old.address old.size gone)
  scan_from laws w file_type h h' (suc fuel) (r ∷ rs) old up next enough =
      let (first, filled, bound, up') = up in
      let inside : ltb old.address (r.address + r.size) ≡ true = ground arith in
      let there : k.vm_region w old.address ≡ region r =
        next old.address (omega arith) ∙ if_true _ _ inside in
      let e : end_of r ≡ r.address + r.size = omega arith in
      let after =
        scan_from laws w file_type h h' fuel rs (record r { address = end_of r })
          (subst (λ a. Ascending a rs) (sym e) up')
          (λ a past.
            next a (omega arith) ∙ if_false {b = ltb a (r.address + r.size)} _ _ (ground arith))
          (omega arith) in
      find_image_from-answer fuel w file_type none old there
      ∙ try_region-is_image laws w file_type r _ h h'
      ∙ ap (λ rest. if is_image w file_type r then some r.address else rest) after
      ∙ some_if (is_image w file_type r) r.address (first_image w file_type rs)

  -- `findAddress`, as it is called with no name, ends within one round for each region and one more,
  -- whatever the variables hold at first, and answers the address of the first region that can be
  -- read, has room for a header and begins with a header of the type asked for; 0 if none does.
  pub find_address-first_image :
      (laws : MapLaws k) (w : m.World) (file_type : ℕ) (junk : Region) (fuel : ℕ)
      → 4 ≤ l.size_mach_header
      → l.filetype + 4 ≤ l.size_mach_header
      → length (laws.regions w) < fuel
      → find_address k l fuel w file_type none junk
        ≡ some (first_image w file_type (laws.regions w))
  unfolding find_address
  find_address-first_image laws w file_type junk fuel h h' enough =
      scan_from laws w file_type h h' fuel (laws.regions w) (record junk { address = 0 })
        (laws.ascending w) (λ a _. laws.lookup w a) enough

  -- Where `mach_vm_region` only answers errors other than KERN_INVALID_ADDRESS, and the variables do
  -- not happen to describe a region that can be read, the loop does not end with any fuel.
  pub find_address-stuck :
      (w : m.World) (file_type : ℕ) (image_name : Option (List ℕ)) (junk : Region)
      → ((a : ℕ) → k.vm_region w a ≡ other_error)
      → junk.info.readable ≡ false
      → (fuel : ℕ) → find_address k l fuel w file_type image_name junk ≡ none
  unfolding find_address find_image_from try_region
  find_address-stuck w file_type image_name junk broken off fuel =
      go fuel (record junk { address = 0 }) off
    where
      go :
          (fuel : ℕ) (old : Region)
          → old.info.readable ≡ false
          → find_image_from k l fuel w file_type image_name old ≡ none
      go zero old off = refl
      go (suc fuel) old off =
          find_image_from-answer fuel w file_type image_name old (broken old.address)
          ∙ if_true _ _ (ap not (ap (λ b. b && not (ltb old.size l.size_mach_header)) off))
          ∙ go fuel (record old { address = end_of old }) off
