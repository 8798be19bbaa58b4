-- ===== src/MachReader.antt =====
-- lib/src/MDBMachReader.cpp: reading the symbols and libraries of a Mach-O file. The layout of the file
-- comes from the headers of the system, so it is a parameter. `none` is a read outside of the buffer.
pub mod Fat
pub mod Table
pub mod Symbols
use rustdbg.Prelude.{
  ℕ, zero, suc, ◌+◌, ◌*◌, ◌/◌, ◌^◌, not, ◌&&◌, ◌||◌, Option, none, some, List, [], ◌∷◌, ◌++◌, map,
  ltb, ◌==◌, if◌then◌else◌, get_elem?, drop, to_u32,
}
use Prim.Native.Nat.{bit_and, bit_or}
use mathlib.Core.Option
use rustdbg.Code.{Symbol, strcmp_equal}

-- The constants, sizes and offsets that `mach-o/fat.h`, `loader.h` and `nlist.h` declare.
pub record Layout : Type 0 where
  pub fat_cigam : ℕ
  pub cpu_type_x86 : ℕ
  pub mh_magic : ℕ
  pub mh_execute : ℕ
  pub mh_dylib : ℕ
  pub mh_dylinker : ℕ
  pub lc_symtab : ℕ
  pub lc_segment : ℕ
  pub lc_load_dylib : ℕ
  pub lc_id_dylib : ℕ
  pub lc_id_dylinker : ℕ
  pub size_fat_header : ℕ
  pub size_fat_arch : ℕ
  pub size_mach_header : ℕ
  pub size_segment_command : ℕ
  pub size_nlist : ℕ
  pub nfat_arch : ℕ
  pub cputype : ℕ
  pub arch_offset : ℕ
  pub filetype : ℕ
  pub ncmds : ℕ
  pub cmdsize : ℕ
  pub symoff : ℕ
  pub nsyms : ℕ
  pub stroff : ℕ
  pub dylib_name : ℕ
  pub dylinker_name : ℕ
  pub segname : ℕ
  pub sectname : ℕ
  pub section_addr : ℕ
  pub n_strx : ℕ
  pub n_sect : ℕ
  pub n_value : ℕ
  pub text_segment : List ℕ
  pub text_section : List ℕ

-- `ENTRY_POINT_SYMBOL_NAME`.
abbrev pub entry_point_symbol_name : List ℕ
entry_point_symbol_name = 95 ∷ 95 ∷ 69 ∷ 78 ∷ 84 ∷ 82 ∷ 89 ∷ 95 ∷ 80 ∷ 79 ∷ 73 ∷ 78 ∷ 84 ∷ []

infixl 5 ◌>>=◌
abbrev pub ◌>>=◌ : {A B : Type 0} → Option A → (A → Option B) → Option B
r >>= f = elim r [ none ↦ none | some a ↦ f a ]

-- `swapEndian`, on 32 bits.
unfoldable pub swap_endian : ℕ → ℕ
swap_endian x =
    bit_or
      (bit_or (bit_or (x / 2 ^ 24) (bit_and (to_u32 (x * 2 ^ 8)) 0xff_0000))
        (bit_and (x / 2 ^ 8) 0xff00))
      (to_u32 (x * 2 ^ 24))

-- A `uint32_t` of the buffer.
unfoldable pub u32_at : List ℕ → ℕ → Option ℕ
u32_at buffer p = do
  x ← get_elem? buffer p
  y ← get_elem? buffer (p + 1)
  z ← get_elem? buffer (p + 2)
  u ← get_elem? buffer (p + 3)
  some (x + 256 * y + 65536 * z + 16777216 * u)

-- A C string of the buffer.
unfoldable pub c_string : List ℕ → Option (List ℕ)
c_string [] = none
c_string (c ∷ cs) =
    let rest = Option.map (λ s. c ∷ s) (c_string cs) in if c == 0 then some [] else rest

abbrev pub string_at : List ℕ → ℕ → Option (List ℕ)
string_at buffer p = c_string (drop p buffer)

-- What the load commands have given so far.
pub record Commands : Type 0 where
  pub symtab_command : Option ℕ
  pub symbols : List Symbol
  pub dylibs : List (List ℕ)

-- What `parse` answers: `false`, or `true` with the lists that it has filled.
pub data Parsed : Type 0 where
  refused : Parsed
  read_file : (symbols : List Symbol) (dylibs : List (List ℕ)) → Parsed

module _ (l : Layout) where
  -- The loop over the images of a fat file: the offset of the first one for the processor.
  unfoldable pub find_arch : List ℕ → ℕ → ℕ → Option (Option ℕ)
  find_arch buffer curr zero = some none
  find_arch buffer curr (suc left) = do
    cpu ← u32_at buffer (curr + l.cputype)
    if swap_endian cpu == l.cpu_type_x86
        then (do offset ← u32_at buffer (curr + l.arch_offset); some (some (swap_endian offset)))
        else find_arch buffer (curr + l.size_fat_arch) left

  unfoldable pub find_image : List ℕ → Option (Option ℕ)
  find_image buffer = do
    magic ← u32_at buffer 0
    if magic == l.fat_cigam
        then (do n ← u32_at buffer l.nfat_arch; find_arch buffer l.size_fat_header (swap_endian n))
        else some (some 0)

  -- `LC_SEGMENT`: the first section of the segment, if it is the text.
  unfoldable pub load_segment : List ℕ → ℕ → Commands → Option Commands
  load_segment buffer section c = do
    segment ← string_at buffer (section + l.segname)
    if strcmp_equal segment l.text_segment
        then (do
          name ← string_at buffer (section + l.sectname)
          if strcmp_equal name l.text_section
              then (do
                address ← u32_at buffer (section + l.section_addr)
                some (record c {
                  symbols =
                      c.symbols
                      ++ record { name = entry_point_symbol_name; address = address } ∷ [];
                }))
              else some c)
        else some c

  -- `LC_LOAD_DYLIB`: the name is at an offset from the command.
  unfoldable pub load_dylib : List ℕ → ℕ → Commands → Option Commands
  load_dylib buffer curr c = do
    offset ← u32_at buffer (curr + l.dylib_name)
    name ← string_at buffer (curr + offset)
    some (record c { dylibs = c.dylibs ++ name ∷ [] })

  unfoldable pub load_command : List ℕ → ℕ → Commands → Option Commands
  load_command buffer curr c = do
    cmd ← u32_at buffer curr
    if cmd == l.lc_symtab
        then some (record c { symtab_command = some curr })
        else if cmd == l.lc_segment
        then load_segment buffer (curr + l.size_segment_command) c
        else if cmd == l.lc_load_dylib
        then load_dylib buffer curr c
        else some c

  unfoldable pub load_commands : List ℕ → ℕ → ℕ → Commands → Option Commands
  load_commands buffer curr zero c = some c
  load_commands buffer curr (suc left) c = do
    c' ← load_command buffer curr c
    size ← u32_at buffer (curr + l.cmdsize)
    load_commands buffer (curr + size) left c'

  -- The loop over the symbol table.
  unfoldable pub load_table : List ℕ → (curr strings left : ℕ) → List Symbol → Option (List Symbol)
  load_table buffer curr strings zero symbols = some symbols
  load_table buffer curr strings (suc left) symbols = do
    sect ← get_elem? buffer (curr + l.n_sect)
    strx ← u32_at buffer (curr + l.n_strx)
    if ltb 0 sect && ltb 1 strx
        then (do
          name ← string_at buffer (strings + strx)
          value ← u32_at buffer (curr + l.n_value)
          load_table buffer (curr + l.size_nlist) strings left
              (symbols ++ record { name = name; address = value } ∷ []))
        else load_table buffer (curr + l.size_nlist) strings left symbols

  -- Behind the load commands.
  unfoldable pub load_symtab : List ℕ → ℕ → Commands → Option Parsed
  load_symtab buffer image c = elim c.symtab_command [
    | none ↦ some refused
    | some command ↦ do
      symoff ← u32_at buffer (command + l.symoff)
      stroff ← u32_at buffer (command + l.stroff)
      nsyms ← u32_at buffer (command + l.nsyms)
      symbols ← load_table buffer (image + symoff) (image + stroff) nsyms c.symbols
      some (read_file symbols c.dylibs)
  ]

  -- The part of `parse` behind the choice of the image.
  unfoldable pub parse_image : List ℕ → ℕ → Option Parsed
  parse_image buffer image = do
    magic ← u32_at buffer image
    if not (magic == l.mh_magic) then some refused else do
      filetype ← u32_at buffer (image + l.filetype)
      if (filetype == l.mh_execute) || ((filetype == l.mh_dylib) || (filetype == l.mh_dylinker))
          then (do
            n ← u32_at buffer (image + l.ncmds)
            c ←
                load_commands buffer (image + l.size_mach_header) n
                  (record { symtab_command = none; symbols = []; dylibs = [] })
            load_symtab buffer image c)
          else some refused

  unfoldable pub parse : List ℕ → Option Parsed
  parse buffer = do
    image ← find_image buffer
    elim image [ none ↦ some refused | some offset ↦ parse_image buffer offset ]

  -- `findImageName` on an image: the loop over its commands, and the name of the first one that
  -- tells it, or none.
  unfoldable pub find_name : List ℕ → ℕ → ℕ → Option (Option (List ℕ))
  find_name buffer curr zero = some none
  find_name buffer curr (suc left) = do
    cmd ← u32_at buffer curr
    if cmd == l.lc_id_dylib
        then (do
          offset ← u32_at buffer (curr + l.dylib_name)
          name ← string_at buffer (curr + offset)
          some (some name))
        else if cmd == l.lc_id_dylinker
        then (do
          offset ← u32_at buffer (curr + l.dylinker_name)
          name ← string_at buffer (curr + offset)
          some (some name))
        else (do size ← u32_at buffer (curr + l.cmdsize); find_name buffer (curr + size) left)

  unfoldable pub find_image_name : List ℕ → ℕ → Option (Option (List ℕ))
  find_image_name buffer image = do
    magic ← u32_at buffer image
    if magic == l.mh_magic
        then (do
          n ← u32_at buffer (image + l.ncmds)
          find_name buffer (image + l.size_mach_header) n)
        else some none
