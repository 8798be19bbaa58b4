-- ===== src/MachReader/Symbols.antt =====
-- What `parse` reads from a Mach-O file that is well-formed: its symbols and its libraries.
use rustdbg.Prelude.{
  ℕ, ◌+◌, ◌<◌, ◌≡◌, ◌⊎◌, sym, ap, ◌∙◌, true, false, ◌&&◌, ◌||◌, none, some, List, [], ◌∷◌, ◌++◌,
  arith, ltb, ◌==◌, length, get_elem?,
}
use mathlib.Core.List.{append_assoc, append-nil}
use rustdbg.Code.{Symbol}
use rustdbg.MachReader.{
  Layout, read_file, u32_at, string_at, load_table, load_symtab, find_image, parse_image, parse,
}
use rustdbg.MachReader.Table.{
  Command, command_symbols, command_dylibs, last_symtab, LayoutLaws, CommandsAt,
  load_commands-CommandsAt,
}

-- An entry of the symbol table: one that `parse` takes, or another one.
pub data Entry : Type 0 where
  taken : Symbol → Entry
  skipped : Entry

abbrev pub entry_symbols : List Entry → List Symbol
entry_symbols [] = []
entry_symbols (taken s ∷ es) = s ∷ entry_symbols es
entry_symbols (skipped ∷ es) = entry_symbols es

module _ (l : Layout) (buffer : List ℕ) where
  -- The buffer has the entry at the place, with its name in the table of the strings. A symbol that
  -- is in no section, or has no name, is skipped.
  pub data EntryAt (strings curr : ℕ) : Entry → Type 0 where
    taken_at :
        (sect strx value : ℕ) (name : List ℕ)
        → get_elem? buffer (curr + l.n_sect) ≡ some sect
        → u32_at buffer (curr + l.n_strx) ≡ some strx
        → 0 < sect
        → 1 < strx
        → string_at buffer (strings + strx) ≡ some name
        → u32_at buffer (curr + l.n_value) ≡ some value
        → EntryAt strings curr (taken (record { name = name; address = value }))
    skipped_at :
        (sect strx : ℕ)
        → get_elem? buffer (curr + l.n_sect) ≡ some sect
        → u32_at buffer (curr + l.n_strx) ≡ some strx
        → (sect ≡ 0) ⊎ (strx < 2)
        → EntryAt strings curr skipped

  abbrev pub TableAt : (strings curr : ℕ) → List Entry → Type 0
  TableAt strings curr [] = Unit {0}
  TableAt strings curr (e ∷ es) = EntryAt strings curr e × TableAt strings (curr + l.size_nlist) es

  load_table-TableAt :
      (strings curr : ℕ) (es : List Entry) (symbols : List Symbol)
      → TableAt strings curr es
      → load_table l buffer curr strings (length es) symbols ≡ some (symbols ++ entry_symbols es)
  unfolding load_table
  load_table-TableAt strings curr [] symbols at = ap some (sym (append-nil symbols))
  load_table-TableAt strings curr (e ∷ es) symbols
        (taken_at sect strx value name s x h k n v, rest) =
      let on : (ltb 0 sect && ltb 1 strx) ≡ true = ground arith in
      let symbol : Symbol = record { name = name; address = value } in
      rw (s, x, on, n, v, load_table)
        (load_table-TableAt strings (curr + l.size_nlist) es (symbols ++ symbol ∷ []) rest)
      ∙ ap some (append_assoc symbols (symbol ∷ []) (entry_symbols es))
  load_table-TableAt strings curr (e ∷ es) symbols (skipped_at sect strx s x h, rest) =
      let off : (ltb 0 sect && ltb 1 strx) ≡ false = ground arith in
      rw (s, x, off, load_table) (load_table-TableAt strings (curr + l.size_nlist) es symbols rest)

  -- The buffer has a Mach-O file at the image, with these load commands and this symbol table.
  pub record FileAt (image : ℕ) (cs : List Command) (es : List Entry) : Type 0 where
    pub filetype : ℕ
    pub symtab_place : ℕ
    pub symoff : ℕ
    pub stroff : ℕ
    pub magic_at : u32_at buffer image ≡ some l.mh_magic
    pub filetype_at : u32_at buffer (image + l.filetype) ≡ some filetype
    pub filetype_known :
        (filetype ≡ l.mh_execute) ⊎ ((filetype ≡ l.mh_dylib) ⊎ (filetype ≡ l.mh_dylinker))
    pub ncmds_at : u32_at buffer (image + l.ncmds) ≡ some (length cs)
    pub commands_at : CommandsAt l buffer (image + l.size_mach_header) cs
    pub has_symtab : last_symtab none cs ≡ some symtab_place
    pub symoff_at : u32_at buffer (symtab_place + l.symoff) ≡ some symoff
    pub stroff_at : u32_at buffer (symtab_place + l.stroff) ≡ some stroff
    pub nsyms_at : u32_at buffer (symtab_place + l.nsyms) ≡ some (length es)
    pub table_at : TableAt (image + stroff) (image + symoff) es

  load_symtab-FileAt :
      (image : ℕ) (cs : List Command) (es : List Entry)
      → FileAt image cs es
      → load_symtab l buffer image (record {
        symtab_command = last_symtab none cs;
        symbols = command_symbols cs;
        dylibs = command_dylibs cs;
      })
        ≡ some (read_file (command_symbols cs ++ entry_symbols es) (command_dylibs cs))
  unfolding load_symtab
  load_symtab-FileAt image cs es f = rw (
    f.has_symtab,
    f.symoff_at,
    f.stroff_at,
    f.nsyms_at,
    load_table-TableAt (image + f.stroff) (image + f.symoff) es (command_symbols cs) f.table_at,
    load_symtab,
  )

  -- `parse` of a file whose image for the processor is well-formed and has a symbol table answers
  -- true. It gives the address of the section of the text for each command that tells it, then each
  -- symbol of the last symbol table that is in a section and has a name, in the order of the file, and
  -- the libraries in the order of their commands.
  pub parse-FileAt :
      (laws : LayoutLaws l) (image : ℕ) (cs : List Command) (es : List Entry)
      → find_image l buffer ≡ some (some image)
      → FileAt image cs es
      → parse l buffer
        ≡ some (read_file (command_symbols cs ++ entry_symbols es) (command_dylibs cs))
  unfolding parse parse_image
  parse-FileAt laws image cs es found f =
      let same : (l.mh_magic == l.mh_magic) ≡ true = ground arith in
      let known : ((f.filetype == l.mh_execute)
            || ((f.filetype == l.mh_dylib) || (f.filetype == l.mh_dylinker)))
          ≡ true =
        ground (arith, f.filetype_known) in
      rw (
        found,
        f.magic_at,
        same,
        f.filetype_at,
        known,
        f.ncmds_at,
        load_commands-CommandsAt l buffer laws (image + l.size_mach_header) cs
            (record { symtab_command = none; symbols = []; dylibs = [] }) f.commands_at,
        load_symtab-FileAt image cs es f,
        parse,
        parse_image,
      )
