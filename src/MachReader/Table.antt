-- ===== src/MachReader/Table.antt =====
-- The load commands and the symbol table of a Mach-O file, as lists.
use rustdbg.Prelude.{
  ℕ, ◌+◌, ◌≡◌, refl, sym, ap, ◌∙◌, true, false, Option, some, List, [], ◌∷◌, ◌++◌, arith, ◌==◌,
  length,
}
use mathlib.Core.List.{append_assoc, append-nil}
use rustdbg.Code.{Symbol, strcmp_equal}
use rustdbg.Code.Load.{strcmp_equal_refl}
use rustdbg.MachReader.{
  Layout, Commands, entry_point_symbol_name, u32_at, string_at, load_segment, load_dylib,
  load_command, load_commands,
}

-- A load command as far as `parse` looks at it: the symbol table and the place of its command, the
-- segment of the text with the address of its section, a library, or another one.
pub data Command : Type 0 where
  symtab : (place : ℕ) → Command
  text : (address : ℕ) → Command
  dylib : (name : List ℕ) → Command
  other : Command

-- The symbols and libraries that the commands tell, and the last symbol table.
abbrev pub command_symbols : List Command → List Symbol
command_symbols [] = []
command_symbols (Command.text address ∷ cs) =
    record { name = entry_point_symbol_name; address = address } ∷ command_symbols cs
command_symbols (Command.symtab place ∷ cs) = command_symbols cs
command_symbols (Command.dylib name ∷ cs) = command_symbols cs
command_symbols (Command.other ∷ cs) = command_symbols cs

abbrev pub command_dylibs : List Command → List (List ℕ)
command_dylibs [] = []
command_dylibs (Command.dylib name ∷ cs) = name ∷ command_dylibs cs
command_dylibs (Command.symtab place ∷ cs) = command_dylibs cs
command_dylibs (Command.text address ∷ cs) = command_dylibs cs
command_dylibs (Command.other ∷ cs) = command_dylibs cs

abbrev pub last_symtab : Option ℕ → List Command → Option ℕ
last_symtab before [] = before
last_symtab before (Command.symtab place ∷ cs) = last_symtab (some place) cs
last_symtab before (Command.text address ∷ cs) = last_symtab before cs
last_symtab before (Command.dylib name ∷ cs) = last_symtab before cs
last_symtab before (Command.other ∷ cs) = last_symtab before cs

-- What one command adds to what has been read before it.
abbrev with_command : Command → Commands → Commands
with_command (Command.symtab place) c = record c { symtab_command = some place }
with_command (Command.text address) c = record c {
  symbols = c.symbols ++ record { name = entry_point_symbol_name; address = address } ∷ [];
}
with_command (Command.dylib name) c = record c { dylibs = c.dylibs ++ name ∷ [] }
with_command Command.other c = c

-- The codes of the load commands differ.
pub record LayoutLaws (l : Layout) : Type 0 where
  pub segment_symtab : (l.lc_segment == l.lc_symtab) ≡ false
  pub dylib_symtab : (l.lc_load_dylib == l.lc_symtab) ≡ false
  pub dylib_segment : (l.lc_load_dylib == l.lc_segment) ≡ false

module _ (l : Layout) (buffer : List ℕ) where
  -- The buffer has the command at the place.
  pub data CommandAt (curr : ℕ) : Command → Type 0 where
    a_symtab : u32_at buffer curr ≡ some l.lc_symtab → CommandAt curr (Command.symtab curr)
    a_text :
        (address : ℕ)
        → u32_at buffer curr ≡ some l.lc_segment
        → string_at buffer (curr + l.size_segment_command + l.segname) ≡ some l.text_segment
        → string_at buffer (curr + l.size_segment_command + l.sectname) ≡ some l.text_section
        → u32_at buffer (curr + l.size_segment_command + l.section_addr) ≡ some address
        → CommandAt curr (Command.text address)
    a_dylib :
        (offset : ℕ) (name : List ℕ)
        → u32_at buffer curr ≡ some l.lc_load_dylib
        → u32_at buffer (curr + l.dylib_name) ≡ some offset
        → string_at buffer (curr + offset) ≡ some name
        → CommandAt curr (Command.dylib name)
    -- A segment that is not the one of the text, or has another section first.
    a_segment :
        (segment : List ℕ)
        → u32_at buffer curr ≡ some l.lc_segment
        → string_at buffer (curr + l.size_segment_command + l.segname) ≡ some segment
        → strcmp_equal segment l.text_segment ≡ false
        → CommandAt curr Command.other
    a_section :
        (section : List ℕ)
        → u32_at buffer curr ≡ some l.lc_segment
        → string_at buffer (curr + l.size_segment_command + l.segname) ≡ some l.text_segment
        → string_at buffer (curr + l.size_segment_command + l.sectname) ≡ some section
        → strcmp_equal section l.text_section ≡ false
        → CommandAt curr Command.other
    an_other :
        (cmd : ℕ)
        → u32_at buffer curr ≡ some cmd
        → (cmd == l.lc_symtab) ≡ false
        → (cmd == l.lc_segment) ≡ false
        → (cmd == l.lc_load_dylib) ≡ false
        → CommandAt curr Command.other

  -- The commands from a place on, each at the size of the one before it.
  pub data CommandsAt : ℕ → List Command → Type 0 where
    end : {curr : ℕ} → CommandsAt curr []
    next :
        {curr : ℕ} {c : Command} {cs : List Command} (size : ℕ)
        → CommandAt curr c
        → u32_at buffer (curr + l.cmdsize) ≡ some size
        → CommandsAt (curr + size) cs
        → CommandsAt curr (c ∷ cs)

  load_command-CommandAt :
      (laws : LayoutLaws l) (curr : ℕ) (k : Command) (c : Commands)
      → CommandAt curr k
      → load_command l buffer curr c ≡ some (with_command k c)
  unfolding load_command load_segment load_dylib
  load_command-CommandAt laws curr k c (a_symtab e) =
      let same : (l.lc_symtab == l.lc_symtab) ≡ true = ground arith in rw (e, same, load_command)
  load_command-CommandAt laws curr k c (a_text address e s n a) =
      let same : (l.lc_segment == l.lc_segment) ≡ true = ground arith in
      let text = strcmp_equal_refl l.text_segment in
      let section = strcmp_equal_refl l.text_section in
      rw (e, laws.segment_symtab, same, s, text, n, section, a, load_command, load_segment)
  load_command-CommandAt laws curr k c (a_dylib offset name e o n) =
      let same : (l.lc_load_dylib == l.lc_load_dylib) ≡ true = ground arith in
      rw (e, laws.dylib_symtab, laws.dylib_segment, same, o, n, load_command, load_dylib)
  load_command-CommandAt laws curr k c (a_segment segment e s off) =
      let same : (l.lc_segment == l.lc_segment) ≡ true = ground arith in
      rw (e, laws.segment_symtab, same, s, off, load_command, load_segment)
  load_command-CommandAt laws curr k c (a_section section e s n off) =
      let same : (l.lc_segment == l.lc_segment) ≡ true = ground arith in
      let text = strcmp_equal_refl l.text_segment in
      rw (e, laws.segment_symtab, same, s, text, n, off, load_command, load_segment)
  load_command-CommandAt laws curr k c (an_other cmd e s g d) = rw (e, s, g, d, load_command)

  -- What commands add.
  abbrev pub with_commands : List Command → Commands → Commands
  with_commands cs c = record {
    symtab_command = last_symtab c.symtab_command cs;
    symbols = c.symbols ++ command_symbols cs;
    dylibs = c.dylibs ++ command_dylibs cs;
  }

  with_commands-with_command :
      (k : Command) (cs : List Command) (c : Commands)
      → with_commands cs (with_command k c) ≡ with_commands (k ∷ cs) c
  with_commands-with_command (Command.symtab place) cs c = refl
  with_commands-with_command (Command.text address) cs c =
      ap (λ xs. record (with_commands (Command.text address ∷ cs) c) { symbols = xs })
        (append_assoc c.symbols _ (command_symbols cs))
  with_commands-with_command (Command.dylib name) cs c =
      ap (λ xs. record (with_commands (Command.dylib name ∷ cs) c) { dylibs = xs })
        (append_assoc c.dylibs _ (command_dylibs cs))
  with_commands-with_command Command.other cs c = refl

  pub load_commands-CommandsAt :
      (laws : LayoutLaws l) (curr : ℕ) (cs : List Command) (c : Commands)
      → CommandsAt curr cs
      → load_commands l buffer curr (length cs) c ≡ some (with_commands cs c)
  unfolding load_commands
  load_commands-CommandsAt laws curr cs c end =
      ap (λ xs. some (record c { symbols = xs })) (sym (append-nil c.symbols))
      ∙ ap (λ xs. some (record (with_commands [] c) { dylibs = xs })) (sym (append-nil c.dylibs))
  load_commands-CommandsAt laws curr cs c (next {c = k} {cs = ks} size at e rest) =
      rw (load_command-CommandAt laws curr k c at, e, load_commands)
        (load_commands-CommandsAt laws (curr + size) ks (with_command k c) rest)
      ∙ ap some (with_commands-with_command k ks c)
