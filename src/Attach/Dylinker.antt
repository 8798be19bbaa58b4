-- ===== src/Attach/Dylinker.antt =====
-- lib/src/MDBProcess.cpp: what `logDylinkerState` and `logMemoryState` print.
use rustdbg.Prelude.{
  ℕ, zero, suc, ◌+◌, ◌*◌, ◌%◌, ◌^◌, Bool, true, false, not, ◌||◌, Option, none, some, List, [], ◌∷◌,
  ◌++◌, ◌==◌, if◌then◌else◌,
}
use rustdbg.Mach.{Mach}
use rustdbg.MachReader.{Layout, u32_at, c_string, find_image_name}
use rustdbg.Attach.{
  MemoryMap, Region, Inherit, Behavior, out_of, is_invalid, end_of, is_magic, holds_header,
}
use rustdbg.Attach.Hooks.{
  Located, locate_infos, infos_version, infos_info_array_count, infos_info_array,
}

-- A line of the log. A text is none where the code prints what a pointer leads to that it has not set.
pub data Line : Type 0 where
  cannot_hook cannot_read_offset cannot_read_infos cannot_read_info : Line
  infos_line : (version count : ℕ) → Line
  image_line : (name : Option (List ℕ)) (address : ℕ) → Line
  region_line : Region → Line
  image_name_line : (name : Option (List ℕ)) → Line

-- `sizeof (struct MDBDyldImageInfo32)`, and the offsets of its fields.
abbrev pub size_dyld_image_info : ℕ
size_dyld_image_info = 12

abbrev pub info_load_address : ℕ
info_load_address = 0

abbrev pub info_file_path : ℕ
info_file_path = 4

infixl 5 ◌>>=◌
abbrev ◌>>=◌ : {A B : Type 0} → Option A → (A → Option B) → Option B
r >>= f = elim r [ none ↦ none | some a ↦ f a ]

-- `inheritanceName` and `behaviorName`.
unfoldable pub inheritance_name : Inherit → List ℕ
inheritance_name Inherit.share = 115 ∷ 104 ∷ 97 ∷ 114 ∷ 101 ∷ []
inheritance_name Inherit.copy = 99 ∷ 111 ∷ 112 ∷ 121 ∷ []
inheritance_name Inherit.nothing = 110 ∷ 111 ∷ 110 ∷ 101 ∷ []
inheritance_name Inherit.other = 63 ∷ 63 ∷ 63 ∷ []

unfoldable pub behavior_name : Behavior → List ℕ
behavior_name Behavior.can_reuse = 99 ∷ 97 ∷ 110 ∷ 32 ∷ 114 ∷ 101 ∷ 117 ∷ 115 ∷ 101 ∷ []
behavior_name Behavior.default = 100 ∷ 101 ∷ 102 ∷ 97 ∷ 117 ∷ 108 ∷ 116 ∷ []
behavior_name Behavior.dont_need = 100 ∷ 111 ∷ 110 ∷ 39 ∷ 116 ∷ 32 ∷ 110 ∷ 101 ∷ 101 ∷ 100 ∷ []
behavior_name Behavior.free = 102 ∷ 114 ∷ 101 ∷ 101 ∷ []
behavior_name Behavior.other = 63 ∷ 63 ∷ 63 ∷ []

abbrev pub is_share : Inherit → Bool
is_share Inherit.share = true
is_share _ = false

module _ {m : Mach} (k : MemoryMap m) (l : Layout) where
  -- The name behind a path, if the 64 bytes can be read and end it.
  abbrev pub name_at : m.World → ℕ → Option (List ℕ)
  name_at w path = elim (k.vm_read w path 64) [ none ↦ none | some bytes ↦ c_string bytes ]

  -- The loop over the infos of the images, for the rounds from `i` on; a failed read ends it.
  unfoldable pub log_images : m.World → (array i left : ℕ) → Option (List Line)
  log_images w array i zero = some []
  log_images w array i (suc left) =
      elim (k.vm_read w ((array + size_dyld_image_info * i) % 2 ^ 64) size_dyld_image_info) [
        | none ↦ some (Line.cannot_read_info ∷ [])
        | some info ↦ do
          path ← u32_at info info_file_path
          address ← u32_at info info_load_address
          lines ← log_images w array (i + 1) left
          some (Line.image_line (name_at w path) address ∷ lines)
      ]

  unfoldable pub log_infos : m.World → Located → Option (List Line)
  log_infos w Located.not_loaded = some (Line.cannot_hook ∷ [])
  log_infos w Located.no_offset = some (Line.cannot_read_offset ∷ [])
  log_infos w Located.no_infos = some (Line.cannot_read_infos ∷ [])
  log_infos w (Located.at_infos infos) = do
    version ← u32_at infos infos_version
    count ← u32_at infos infos_info_array_count
    array ← u32_at infos infos_info_array
    lines ← log_images w array 0 count
    some (Line.infos_line version count ∷ lines)

  unfoldable pub log_dylinker_state : ℕ → m.World → Region → Option (List Line)
  log_dylinker_state fuel w junk = do located ← locate_infos k l fuel w junk; log_infos w located

  -- What `logMemoryState` prints of an image: its name, if it is a library or the dynamic linker.
  unfoldable pub log_image : List ℕ → Option (List Line)
  log_image image = do
    magic ← u32_at image 0
    if not (is_magic k l magic) then some [] else do
      type ← u32_at image l.filetype
      if not ((type == l.mh_dylib) || (type == l.mh_dylinker))
          then some []
          else do name ← find_image_name l image 0; some (Line.image_name_line name ∷ [])

  -- The lines of one round of its loop.
  unfoldable pub log_region : m.World → Region → Option (List Line)
  log_region w r =
      if not (holds_header k l r) || is_share r.info.inheritance
      then some (Line.region_line r ∷ [])
      else elim (k.vm_read w r.address r.size) [
        | none ↦ some (Line.region_line r ∷ [])
        | some image ↦ (do lines ← log_image image; some (Line.region_line r ∷ lines))
      ]

  unfoldable pub log_regions : ℕ → m.World → Region → Option (List Line)
  log_regions zero w old = none
  log_regions (suc fuel) w old =
      let answer = k.vm_region w old.address in
      let r = out_of answer old in
      let more = log_regions fuel w (record r { address = end_of r }) in
      if is_invalid answer
      then some []
      else do lines ← log_region w r; rest ← more; some (lines ++ rest)

  unfoldable pub log_memory_state : ℕ → m.World → Region → Option (List Line)
  log_memory_state fuel w junk = log_regions fuel w (record junk { address = 0 })
