-- ===== src/Tests/Files.antt =====
-- Mach-O files at concrete inputs.
use rustdbg.Prelude.{ℕ, ◌≡◌, refl, inl, arith, none, some, List, [], ◌∷◌, ◌++◌, replicate}
use rustdbg.MachReader.{
  Layout, Parsed, swap_endian, u32_at, c_string, find_arch, find_image, find_name, find_image_name,
  load_command, load_commands, load_table, load_symtab, parse_image, parse,
}
use rustdbg.MachReader.Fat.{ArchCases, find_arch-ArchCases}
use rustdbg.MachReader.Table.{Command, LayoutLaws, a_symtab, next, end}
use rustdbg.MachReader.Symbols.{taken, taken_at, FileAt, parse-FileAt}

-- The values for 32-bit Intel files.
abbrev pub layout : Layout
layout = record {
  fat_cigam = 0xbeba_feca;
  cpu_type_x86 = 7;
  mh_magic = 0xfeed_face;
  mh_execute = 2;
  mh_dylib = 6;
  mh_dylinker = 7;
  lc_symtab = 2;
  lc_segment = 1;
  lc_load_dylib = 12;
  lc_id_dylib = 13;
  lc_id_dylinker = 15;
  size_fat_header = 8;
  size_fat_arch = 20;
  size_mach_header = 28;
  size_segment_command = 56;
  size_nlist = 12;
  nfat_arch = 4;
  cputype = 0;
  arch_offset = 8;
  filetype = 12;
  ncmds = 16;
  cmdsize = 4;
  symoff = 8;
  nsyms = 12;
  stroff = 16;
  dylib_name = 8;
  dylinker_name = 8;
  segname = 16;
  sectname = 0;
  section_addr = 32;
  n_strx = 0;
  n_sect = 5;
  n_value = 8;
  text_segment = 95 ∷ 95 ∷ 84 ∷ 69 ∷ 88 ∷ 84 ∷ [];
  text_section = 95 ∷ 95 ∷ 116 ∷ 101 ∷ 120 ∷ 116 ∷ [];
}

-- A fat file of two images, the second one for the processor, at offset 48.
abbrev fat : List ℕ
fat =
    (0xca ∷ 0xfe ∷ 0xba ∷ 0xbe ∷ 0 ∷ 0 ∷ 0 ∷ 2 ∷ [])
    ++ ((0 ∷ 0 ∷ 0 ∷ 18 ∷ []) ++ replicate 16 0)
    ++ ((0 ∷ 0 ∷ 0 ∷ 7 ∷ 0 ∷ 0 ∷ 0 ∷ 3 ∷ 0 ∷ 0 ∷ 0 ∷ 48 ∷ []) ++ replicate 8 0)

find_arch-ArchCases_example : ArchCases layout fat 8 2 (find_arch layout fat 8 2)
find_arch-ArchCases_example = find_arch-ArchCases layout fat 8 2

swapped : swap_endian 0x1234_5678 ≡ 0x7856_3412
unfolding swap_endian
swapped = refl

second_image : find_image layout fat ≡ some (some 48)
unfolding find_image find_arch u32_at swap_endian
second_image = refl

-- A file with one load command, for a table of one symbol.
abbrev file : List ℕ
file =
    ((0xce ∷ 0xfa ∷ 0xed ∷ 0xfe ∷ []) ++ replicate 8 0)
    ++ (2 ∷ 0 ∷ 0 ∷ 0 ∷ 1 ∷ 0 ∷ 0 ∷ 0 ∷ [])
    ++ replicate 8 0
    ++ (2 ∷ 0 ∷ 0 ∷ 0 ∷ 24 ∷ 0 ∷ 0 ∷ 0 ∷ 52 ∷ 0 ∷ 0 ∷ 0 ∷ 1 ∷ 0 ∷ 0 ∷ 0 ∷ 64 ∷ 0 ∷ 0 ∷ 0 ∷ [])
    ++ replicate 4 0
    ++ (2 ∷ 0 ∷ 0 ∷ 0 ∷ 15 ∷ 1 ∷ 0 ∷ 0 ∷ 0 ∷ 16 ∷ 0 ∷ 0 ∷ [])
    ++ (0 ∷ 0 ∷ 102 ∷ 0 ∷ [])

one_symbol :
    parse layout file
    ≡ some (Parsed.read_file (record { name = 102 ∷ []; address = 0x1000 } ∷ []) [])
unfolding parse parse_image find_image load_commands load_command load_symtab load_table u32_at
    c_string
one_symbol = refl

no_name : find_image_name layout file 0 ≡ some none
unfolding find_image_name find_name u32_at
no_name = refl

abbrev laws : LayoutLaws layout
laws = record { segment_symtab = refl; dylib_symtab = refl; dylib_segment = refl }

no_fat : find_image layout file ≡ some (some 0)
unfolding find_image u32_at
no_fat = refl

file_table :
    FileAt layout file 0
      (Command.symtab 28 ∷ [])
      (taken (record { name = 102 ∷ []; address = 0x1000 }) ∷ [])
unfolding u32_at c_string
file_table = record {
  filetype = 2;
  symtab_place = 28;
  symoff = 52;
  stroff = 64;
  magic_at = refl;
  filetype_at = refl;
  filetype_known = inl refl;
  ncmds_at = refl;
  commands_at = next 24 (a_symtab refl) refl end;
  has_symtab = refl;
  symoff_at = refl;
  stroff_at = refl;
  nsyms_at = refl;
  table_at = (taken_at 1 2 0x1000 (102 ∷ []) refl refl (omega arith) (omega arith) refl refl, tt);
}

parse-FileAt_example :
    parse layout file
    ≡ some (Parsed.read_file (record { name = 102 ∷ []; address = 0x1000 } ∷ []) [])
parse-FileAt_example =
    parse-FileAt layout file laws 0 (Command.symtab 28 ∷ [])
      (taken (record { name = 102 ∷ []; address = 0x1000 }) ∷ []) no_fat file_table
