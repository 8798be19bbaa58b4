-- ===== src/Attach/Listing.antt =====
-- What `logMemoryState` prints, for a memory map that is a list of regions.
use rustdbg.Prelude.{
  ℕ, zero, suc, ◌+◌, ◌≤◌, ◌<◌, ◌≡◌, sym, ap, ◌∙◌, subst, true, Option, none, some, List, [], ◌∷◌,
  ◌++◌, arith, ltb, if◌then◌else◌, if_true, if_false, length,
}
use rustdbg.Mach.{Mach}
use rustdbg.MachReader.{Layout}
use rustdbg.Attach.{Region, RegionAnswer, region, MemoryMap, out_of, is_invalid, end_of}
use rustdbg.Attach.Search.{next_region, Ascending, MapLaws}
use rustdbg.Attach.Dylinker.{Line, log_region, log_regions, log_memory_state}

module _ {m : Mach} (k : MemoryMap m) (l : Layout) where
  -- One round of lines for each region, in order; none where a round reads outside of its image.
  abbrev pub log_each : m.World → List Region → Option (List Line)
  log_each w [] = some []
  log_each w (r ∷ rs) = elim (log_region k l w r) [
    | none ↦ none
    | some lines ↦ elim (log_each w rs) [ none ↦ none | some rest ↦ some (lines ++ rest) ]
  ]

  log_from :
      (w : m.World) (fuel : ℕ) (rs : List Region) (old : Region)
      → Ascending old.address rs
      → ((a : ℕ) → old.address ≤ a → k.vm_region w a ≡ next_region a rs)
      → length rs < fuel
      → log_regions k l fuel w old ≡ log_each w rs
  unfolding log_regions
  log_from w zero rs old up next enough = elim enough [ ]
  log_from w (suc fuel) [] old up next enough =
      if_true _ _ (ap is_invalid (next old.address (omega arith)))
  log_from w (suc fuel) (r ∷ rs) old up next enough =
      let (first, filled, bound, up') = up in
      let inside : ltb old.address (r.address + r.size) ≡ true = ground arith in
      let there : k.vm_region w old.address ≡ region r =
        next old.address (omega arith) ∙ if_true _ _ inside in
      let e : end_of r ≡ r.address + r.size = omega arith in
      let after =
        log_from w fuel rs (record r { address = end_of r })
          (subst (λ a. Ascending a rs) (sym e) up')
          (λ a past.
            next a (omega arith) ∙ if_false {b = ltb a (r.address + r.size)} _ _ (ground arith))
          (omega arith) in
      ap (round fuel) there ∙ ap (lines_of r) after
    where
      lines_of : Region → Option (List Line) → Option (List Line)
      lines_of r more = elim (log_region k l w r) [
        | none ↦ none
        | some lines ↦ elim more [ none ↦ none | some rest ↦ some (lines ++ rest) ]
      ]

      round : ℕ → RegionAnswer → Option (List Line)
      round fuel answer =
          let r = out_of answer old in
          if is_invalid answer
          then some []
          else lines_of r (log_regions k l fuel w (record r { address = end_of r }))

  -- `logMemoryState` ends within one round for each region and one more, whatever its variables hold
  -- at first, and prints the lines of each region once, in the order of the addresses.
  pub log_memory_state-each :
      (laws : MapLaws k) (w : m.World) (junk : Region) (fuel : ℕ)
      → length (laws.regions w) < fuel
      → log_memory_state k l fuel w junk ≡ log_each w (laws.regions w)
  unfolding log_memory_state
  log_memory_state-each laws w junk fuel enough =
      log_from w fuel (laws.regions w) (record junk { address = 0 }) (laws.ascending w)
        (λ a _. laws.lookup w a) enough
