-- ===== src/Attach.antt =====
-- lib/src/MDBProcess.cpp: the search for an image in the memory of the debuggee, the hook on its
-- dynamic linker, and what the two log calls print of both. Loops run on fuel; `none` is a call that
-- has not returned, or a read outside of an image.
pub mod Hooks
pub mod Dylinker
pub mod Search
pub mod Listing
pub mod Hooked
use rustdbg.Prelude.{
  ℕ, zero, suc, ◌+◌, ◌%◌, ◌^◌, Bool, true, false, not, ◌&&◌, ◌||◌, Option, none, some, List, ltb,
  ◌==◌, if◌then◌else◌,
}
use rustdbg.Mach.{Mach}
use rustdbg.Code.{strcmp_equal}
use rustdbg.MachReader.{Layout, u32_at, find_image_name}

-- `vm_inherit_t` and `vm_behavior_t`, as far as the code tells their values apart.
pub data Inherit : Type 0 where
  share copy nothing other : Inherit

pub data Behavior : Type 0 where
  can_reuse default dont_need free other : Behavior

-- `vm_region_basic_info_data_64_t`; the flags are those of `protection` and `max_protection`.
pub record RegionInfo : Type 0 where
  pub readable : Bool
  pub writable : Bool
  pub executable : Bool
  pub max_readable : Bool
  pub max_writable : Bool
  pub max_executable : Bool
  pub inheritance : Inherit
  pub shared : Bool
  pub behavior : Behavior
  pub user_wired_count : ℕ
  pub reserved : ℕ

-- What the loops keep between two calls of `mach_vm_region`: it sets all of it where it succeeds.
pub record Region : Type 0 where
  pub address : ℕ
  pub size : ℕ
  pub info : RegionInfo

-- The answer of `mach_vm_region`: the first region that ends behind the address, KERN_INVALID_ADDRESS,
-- or another error.
pub data RegionAnswer : Type 0 where
  region : Region → RegionAnswer
  invalid_address other_error : RegionAnswer

-- The calls on the memory map of the task, and the constants of `mach-o/loader.h` and `dyld_images.h`.
pub record MemoryMap (m : Mach) : Type 0 where
  pub vm_region : m.World → ℕ → RegionAnswer
  -- `mach_vm_read`: a copy of the bytes, or none on an error.
  pub vm_read : m.World → ℕ → ℕ → Option (List ℕ)
  pub mh_cigam : ℕ
  pub all_image_infos_offset : ℕ

abbrev pub out_of : RegionAnswer → Region → Region
out_of (region r) old = r
out_of _ old = old

abbrev pub is_invalid : RegionAnswer → Bool
is_invalid invalid_address = true
is_invalid _ = false

-- `address += size`, on 64 bits.
abbrev pub end_of : Region → ℕ
end_of r = (r.address + r.size) % 2 ^ 64

infixl 5 ◌>>=◌
abbrev ◌>>=◌ : {A B : Type 0} → Option A → (A → Option B) → Option B
r >>= f = elim r [ none ↦ none | some a ↦ f a ]

module _ {m : Mach} (k : MemoryMap m) (l : Layout) where
  -- `header->magic == MH_MAGIC || header->magic == MH_CIGAM`.
  abbrev pub is_magic : ℕ → Bool
  is_magic magic = (magic == l.mh_magic) || (magic == k.mh_cigam)

  -- The region can be read and has room for a header.
  abbrev pub holds_header : Region → Bool
  holds_header r = r.info.readable && not (ltb r.size l.size_mach_header)

  -- `strcmp(findImageName(image), imageName) != 0`; `none` also where there is no name to compare.
  unfoldable pub other_image : Option (List ℕ) → List ℕ → Option Bool
  other_image none image = some false
  other_image (some name) image = do
    found ← find_image_name l image 0
    elim found [ none ↦ none | some text ↦ some (not (strcmp_equal text name)) ]

  -- What `findAddress` makes of an image that it has read; `rest` are the rounds that follow.
  unfoldable pub inspect : ℕ → Option (List ℕ) → ℕ → Option ℕ → List ℕ → Option ℕ
  inspect file_type image_name address rest image = do
    magic ← u32_at image 0
    if not (is_magic magic) then rest else do
      type ← u32_at image l.filetype
      if not (type == file_type)
          then rest
          else do differs ← other_image image_name image; some (if differs then 0 else address)

  -- A round of the loop of `findAddress` behind its call of `mach_vm_region`.
  unfoldable pub try_region : m.World → ℕ → Option (List ℕ) → Region → Option ℕ → Option ℕ
  try_region w file_type image_name r rest =
      if not (holds_header r) then rest else elim (k.vm_read w r.address r.size) [
        | none ↦ rest
        | some image ↦ inspect file_type image_name r.address rest image
      ]

  -- The loop, from the values of the round before.
  unfoldable pub find_image_from : ℕ → m.World → ℕ → Option (List ℕ) → Region → Option ℕ
  find_image_from zero w file_type image_name old = none
  find_image_from (suc fuel) w file_type image_name old =
      let answer = k.vm_region w old.address in
      let r = out_of answer old in
      let more = find_image_from fuel w file_type image_name (record r { address = end_of r }) in
      try_region w file_type image_name r (if is_invalid answer then some 0 else more)

  -- `findAddress`. Only the address is initialised; the rest of `junk` is what the stack holds.
  unfoldable pub find_address : ℕ → m.World → ℕ → Option (List ℕ) → Region → Option ℕ
  find_address fuel w file_type image_name junk =
      find_image_from fuel w file_type image_name (record junk { address = 0 })
