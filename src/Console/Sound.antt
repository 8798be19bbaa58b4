-- ===== src/Console/Sound.antt =====
-- What the console leaves of the debugger, and how it ends.
use rustdbg.Prelude.{
  ℕ, ◌≡◌, refl, sym, subst, inl, inr, Bool, false, Option, none, some, List, [], ◌∷◌, if_true,
  if_false, Bool-cases,
}
use rustdbg.Mach.{Mach}
use rustdbg.Debugger.{Debugger, Run, ◌>>◌}
use rustdbg.MachReader.{Layout}
use rustdbg.Attach.{MemoryMap, Region}
use rustdbg.Code.{Binaries, MachFile, load_symbols}
use rustdbg.Control.{step, resume}
use rustdbg.Session.{IsSound, Onward}
use rustdbg.Session.Post.{After, After-bind, After-map, Keeps, Onward-refl, Onward-trans}
use rustdbg.Session.Resume.{step-Keeps, resume-Keeps}
use rustdbg.Launch.{System, Outcome, no_process, with_process, new_debugger, create_process}
use rustdbg.Launch.Created.{Started, create_process-Started}
use rustdbg.Console.{
  Callback, End, exits, returns, commands, find_callback, line_or_last, last_command, check_running,
  run_callback, run_command, run_lines, run_unattached, Left, run, unattached_left, attached_left,
  run_outcome,
}

module _ (m : Mach) (fuel : ℕ) where
  -- The loop: the state is a later one, and a loop that has returned has seen the process end.
  abbrev pub Ended : Debugger m → End → Debugger m → Type 0
  Ended d end d' = Onward d d' × (end ≡ returns → d'.process.running ≡ false)

  abbrev Ends : Run m End → Type 0
  Ends r = (d : Debugger m) → After (Ended d) (r d)

  check_running-Ends : (again : Run m End) → Ends again → Ends (check_running m fuel again)
  unfolding check_running
  check_running-Ends again ends d = elim (Bool-cases d.process.running) [
    | inl on ↦ subst (After (Ended d)) (sym (if_true (again d) (some (returns, d)) on)) (ends d)
    | inr off ↦
        subst (After (Ended d)) (sym (if_false (again d) (some (returns, d)) off))
          (Onward-refl d, (λ _. off))
  ]

  -- Behind a call that keeps.
  then-Ends : (r : Run m Bool) (again : Run m End) → Keeps r → Ends again → Ends (r >> again)
  then-Ends r again keeps ends d =
      After-bind (λ _ d'. Onward d d') (Ended d) r (λ _. again) d (keeps d)
        λ _ d' f.
          After-map (Ended d') (Ended d) (again d') (λ end d'' g. (Onward-trans f g.0, g.1))
            (ends d')

  run_callback-Ends :
      (again : Run m End) (c : Callback) → Ends again → Ends (run_callback m fuel again c)
  unfolding run_callback
  run_callback-Ends again Callback.quit ends d = (Onward-refl d, (λ e. absurd (cc)))
  run_callback-Ends again Callback.info ends d = check_running-Ends again ends d
  run_callback-Ends again Callback.print_back_trace ends d = check_running-Ends again ends d
  run_callback-Ends again Callback.resume ends d =
      then-Ends (resume m fuel) (check_running m fuel again) (resume-Keeps m fuel)
        (check_running-Ends again ends) d
  run_callback-Ends again Callback.step ends d =
      then-Ends (step m fuel 0) (check_running m fuel again) (step-Keeps m fuel 0)
        (check_running-Ends again ends) d
  run_callback-Ends again Callback.profile ends d = check_running-Ends again ends d

  run_command-Ends :
      (again : Run m End) (line : List ℕ) → Ends again → Ends (run_command m fuel again line)
  unfolding run_command
  run_command-Ends again line ends d = go (find_callback commands line)
    where
      go :
          (o : Option Callback)
          → After (Ended d) (
              (elim o as (λ _. Run m End) [
                | none ↦ check_running m fuel again
                | some c ↦ run_callback m fuel again c
              ])
                d)
      go none = check_running-Ends again ends d
      go (some c) = run_callback-Ends again c ends d

  run_lines-Ends :
      (lines : List (List ℕ)) (last : Option (List ℕ)) → Ends (run_lines m fuel last lines)
  unfolding run_lines
  run_lines-Ends [] last d = tt
  run_lines-Ends (line ∷ lines) last d =
      go (λ kept. run_lines-Ends lines (some kept)) (line_or_last last line)
    where
      runs :
          ((kept : List ℕ) → Ends (run_lines m fuel (some kept) lines))
          → (line : List ℕ) (o : Option (List ℕ))
          → After (Ended d) (elim o [
            | none ↦ none
            | some kept ↦ run_command m fuel (run_lines m fuel (some kept) lines) line d
          ])
      runs later line none = tt
      runs later line (some kept) =
          run_command-Ends (run_lines m fuel (some kept) lines) line (later kept) d

      go :
          ((kept : List ℕ) → Ends (run_lines m fuel (some kept) lines))
          → (o : Option (List ℕ))
          → After (Ended d) (elim o [
            | none ↦ none
            | some command_line ↦ elim (last_command command_line) [
              | none ↦ none
              | some kept ↦ run_command m fuel (run_lines m fuel (some kept) lines) command_line d
            ]
          ])
      go later none = tt
      go later (some line) = runs later line (last_command line)

  -- Where there is no process, the only end is that of `quit`.
  abbrev ExitsOnly : Option End → Type 0
  ExitsOnly none = Unit {0}
  ExitsOnly (some end) = end ≡ exits

  run_unattached-ExitsOnly : (lines : List (List ℕ)) → ExitsOnly (run_unattached m fuel lines)
  unfolding run_unattached
  run_unattached-ExitsOnly [] = tt
  run_unattached-ExitsOnly (line ∷ lines) = go (line_or_last none line)
    where
      by_callback :
          (o : Option Callback)
          → ExitsOnly (elim o [ none ↦ none | some Callback.quit ↦ some exits | some _ ↦ none ])
      by_callback none = tt
      by_callback (some Callback.quit) = refl
      by_callback (some Callback.info) = tt
      by_callback (some Callback.print_back_trace) = tt
      by_callback (some Callback.resume) = tt
      by_callback (some Callback.step) = tt
      by_callback (some Callback.profile) = tt

      runs :
          (line : List ℕ) (o : Option (List ℕ))
          → ExitsOnly (elim o [
            | none ↦ none
            | some kept ↦ elim (find_callback commands line) [
              | none ↦ none
              | some Callback.quit ↦ some exits
              | some _ ↦ none
            ]
          ])
      runs line none = tt
      runs line (some kept) = by_callback (find_callback commands line)

      go :
          (o : Option (List ℕ))
          → ExitsOnly (elim o [
            | none ↦ none
            | some command_line ↦ elim (last_command command_line) [
              | none ↦ none
              | some kept ↦ elim (find_callback commands command_line) [
                | none ↦ none
                | some Callback.quit ↦ some exits
                | some _ ↦ none
              ]
            ]
          ])
      go none = tt
      go (some line) = runs line (last_command line)

  -- What a run of the program leaves, if it ends: with a process, the invariant of `Session`, and the
  -- end of the process where `run` returns; with none, the exit of `quit`.
  abbrev pub LeftSound : Option (Left m fuel) → Type 0
  LeftSound none = Unit {0}
  LeftSound (some left) = elim left.debugger [
    | none ↦ left.end ≡ exits
    | some d ↦ IsSound d × (left.end ≡ returns → d.process.running ≡ false)
  ]

  unattached_left-LeftSound :
      (files : List MachFile) (o : Option End)
      → ExitsOnly o
      → LeftSound (unattached_left m fuel files o)
  unattached_left-LeftSound files none e = tt
  unattached_left-LeftSound files (some end) e = e

  attached_left-LeftSound :
      (files : List MachFile) (d : Debugger m) (o : Option (End × Debugger m))
      → IsSound d
      → After (Ended d) o
      → LeftSound (attached_left m fuel files o)
  attached_left-LeftSound files d none sound ended = tt
  attached_left-LeftSound files d (some (end, d')) sound ended = (ended.0.sound sound, ended.1)

  module _ (s : System m) (k : MemoryMap m) (l : Layout) (junk : Region) (on_library_loaded : ℕ)
      (parse : Binaries) where
    -- However a run of the console ends. With a process: the lists of MDBDebugger that nothing fills
    -- are empty, the process is marked as 64 bits, its list has no thread twice, and where `run` has
    -- returned, the process is marked as not running. With none: by the command `quit`.
    pub run-LeftSound :
        (depth : ℕ) (file_name : List ℕ) (lines : List (List ℕ)) (w : m.World)
        → LeftSound (run m fuel s k l junk on_library_loaded parse depth file_name lines w)
    unfolding run new_debugger
    run-LeftSound depth file_name lines w =
        go (create_process s k l fuel junk on_library_loaded new_debugger w)
          (create_process-Started s k l fuel junk on_library_loaded new_debugger w (refl, refl))
      where
        outcome :
            (files : List MachFile) (o : Outcome m)
            → Started s k l fuel junk on_library_loaded (some o)
            → LeftSound (run_outcome m fuel lines files o)
        outcome files (no_process answer w') started =
            unattached_left-LeftSound files (run_unattached m fuel lines)
              (run_unattached-ExitsOnly lines)
        outcome files (with_process answer d) started =
            attached_left-LeftSound files d (run_lines m fuel none lines d) started.1
              (run_lines-Ends lines none d)

        loaded :
            (o : Outcome m) (r : Option (Bool × List MachFile))
            → Started s k l fuel junk on_library_loaded (some o)
            → LeftSound
                (elim r [ none ↦ none | some (_, files) ↦ run_outcome m fuel lines files o ])
        loaded o none started = tt
        loaded o (some (_, files)) started = outcome files o started

        go :
            (o : Option (Outcome m))
            → Started s k l fuel junk on_library_loaded o
            → LeftSound (elim o [
              | none ↦ none
              | some outcome ↦ elim (load_symbols parse depth [] file_name) [
                | none ↦ none
                | some (_, files) ↦ run_outcome m fuel lines files outcome
              ]
            ])
        go none started = tt
        go (some o) started = loaded o (load_symbols parse depth [] file_name) started
