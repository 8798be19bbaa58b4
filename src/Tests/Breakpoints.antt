-- ===== src/Tests/Breakpoints.antt =====
-- Breakpoints at concrete inputs.
use rustdbg.Prelude.{
  ℕ, zero, suc, ◌+◌, ◌≡◌, refl, ap, subst, ◌≢◌, true, Option, none, some, [], ◌∷◌, arith, ltb, ◌==◌,
  if◌then◌else◌, get_elem?, pos,
}
use rustdbg.Debugger.{Breakpoint, Debugger, listed, read, write, poke, unpatch, unpatch_all}
use rustdbg.Breakpoint.{int_3, new_breakpoint, insert, enable_value, enable, disable}
use rustdbg.Breakpoint.View.{view, hides}
use rustdbg.Breakpoint.Read.{read-view}
use rustdbg.Breakpoint.Enable.{IsConsistent}
use rustdbg.Breakpoint.Traps.{Changed, enable-Changed, disable-Changed}
use rustdbg.Breakpoint.Restore.{disable-enable, disable-duplicate, enable_unchecked}
use rustdbg.Tests.Toy.{ToyWorld, toy, toy_memory}

-- A sealed page of the bytes 0x90.
abbrev world : ToyWorld
world = record {
  memory = λ x. if ltb x 64 then some 0x90 else none;
  sealed = true;
  counts = λ t. none;
  ports = [];
  task_count = 0;
  registers = λ t. record { esp = 0; ebp = 0; eip = 0; eflags = 0; others = [] };
  waits = [];
}

abbrev quiet : Breakpoint
quiet = new_breakpoint 16 none

abbrev start : Debugger toy
start = record {
  world = world;
  threads = [];
  breakpoints = quiet ∷ [];
  transient_breakpoints = [];
  process = record { running = true; is_64_bit = true; pid = 1; threads = [] };
  executed = [];
}

-- Two enabled breakpoints at one address.
abbrev both : Breakpoint
both = record quiet { patch = 0x90; enabled = true }

abbrev doubled : Debugger toy
doubled = record start {
  world = record world {
    memory = λ x. if x == 16 then some 0xcc else if ltb x 64 then some 0x90 else none;
  };
  breakpoints = both ∷ both ∷ [];
}

start-IsConsistent : IsConsistent toy_memory start
start-IsConsistent = record { addresses = omega arith; keeps = λ i b at on. keeps i b at on }
  where
    keeps :
        (i : ℕ) (b : Breakpoint)
        → get_elem? (quiet ∷ []) i ≡ some b
        → b.enabled ≡ true
        → view toy_memory start b.address ≡ some b.patch
    keeps zero b at on = absurd (cc (ap (λ (o : Option Breakpoint). o) at, on))
    keeps (suc i) b at on = absurd (cc)

doubled-IsConsistent : IsConsistent toy_memory doubled
unfolding hides
doubled-IsConsistent = record { addresses = omega arith; keeps = λ i b at on. keeps i b at on }
  where
    keeps :
        (i : ℕ) (b : Breakpoint)
        → get_elem? (both ∷ both ∷ []) i ≡ some b
        → b.enabled ≡ true
        → view toy_memory doubled b.address ≡ some b.patch
    keeps zero b at on =
        let same : both ≡ b = cc in
        subst (λ (k : Breakpoint). view toy_memory doubled k.address ≡ some k.patch) same refl
    keeps (suc zero) b at on =
        let same : both ≡ b = cc in
        subst (λ (k : Breakpoint). view toy_memory doubled k.address ≡ some k.patch) same refl
    keeps (suc (suc i)) b at on = absurd (cc)

-- The trap is written although the page was sealed, and the debugger shows the old byte.
enable_writes : (enable start (listed 0) true).world.memory 16 ≡ some 0xcc
unfolding enable enable_value insert read write poke unpatch unpatch_all
enable_writes = refl

read_hides : (read (enable start (listed 0) true) (0 ∷ 0 ∷ 0 ∷ []) 15 3).1 ≡ 0x90 ∷ 0x90 ∷ 0x90 ∷ []
unfolding enable enable_value insert read write poke unpatch unpatch_all
read_hides = refl

read-view_example :
    ((read doubled (0 ∷ 0 ∷ []) 15 2).0 ≡ pos 2)
    × (get_elem? (read doubled (0 ∷ 0 ∷ []) 15 2).1 1 ≡ view toy_memory doubled (15 + 1))
read-view_example =
    read-view toy_memory doubled (0 ∷ 0 ∷ []) 15 2 1 {bytes = 0x90 ∷ 0xcc ∷ []} refl (omega arith)
      (omega arith) (omega arith) (omega arith)

enable-Changed_example : Changed toy_memory 16 int_3 start (enable start (listed 0) true)
enable-Changed_example =
    enable-Changed toy_memory start 0 quiet {y = 0x90} refl refl refl start-IsConsistent

disable-Changed_example : Changed toy_memory 16 0x90 doubled (disable doubled (listed 0))
disable-Changed_example =
    disable-Changed toy_memory doubled 0 both {y = 0xcc} refl refl refl doubled-IsConsistent

disable-enable_example :
    (disable (enable start (listed 0) true) (listed 0)).world.memory 16 ≡ start.world.memory 16
unfolding hides
disable-enable_example =
    disable-enable toy_memory start 0 quiet {y = 0x90} refl refl refl refl start-IsConsistent 16

disable-duplicate_example :
    (get_elem? (disable doubled (listed 0)).breakpoints 1 ≡ some both)
    × ((disable doubled (listed 0)).world.memory 16 ≢ some int_3)
disable-duplicate_example =
    disable-duplicate toy_memory doubled 0 1 both both {y = 0xcc} refl refl (omega arith) refl refl
      refl (omega arith) doubled-IsConsistent

-- An address that is not mapped: the breakpoint is marked as enabled all the same.
abbrev unmapped : Debugger toy
unmapped = record start { breakpoints = new_breakpoint 4096 none ∷ [] }

enable_unchecked_example :
    (b' : Breakpoint) × (get_elem? (enable unmapped (listed 0) true).breakpoints 0 ≡ some b')
    × (b'.enabled ≡ true)
enable_unchecked_example =
    enable_unchecked toy_memory unmapped 0 (new_breakpoint 4096 none) true refl
