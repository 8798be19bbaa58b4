-- ===== src/Attach/Hooked.antt =====
-- What `initializeDylinkerHooks` does.
use rustdbg.Prelude.{
  ℕ, ◌+◌, ◌%◌, ◌^◌, ◌≤◌, ◌<◌, ◌≡◌, ◌≢◌, refl, ◌∙◌, inl, inr, true, false, none, some, List, arith,
  ◌==◌, if_true, if_false, Bool-cases, Option-cases, length,
}
use rustdbg.Mach.{Mach}
use rustdbg.Mach.Laws.{MemoryLaws}
use rustdbg.Debugger.{Debugger}
use rustdbg.Breakpoint.{create_breakpoint, enable}
use rustdbg.MachReader.{Layout}
use rustdbg.Attach.{Region, MemoryMap}
use rustdbg.Attach.Search.{MapLaws, word, u32_at-word, first_image, find_address-first_image}
use rustdbg.Attach.Hooks.{
  size_dyld_all_image_infos, infos_notification, locate_infos, hook, initialize_dylinker_hooks,
}

module _ {m : Mach} (k : MemoryMap m) (l : Layout) where
  -- The debugger with a breakpoint on the function that the dynamic linker calls.
  abbrev pub hooked : Debugger m → ℕ → ℕ → Debugger m
  hooked d notification callback =
      let (r, d') = create_breakpoint d notification (some callback) in enable d' r true

  -- The image of the dynamic linker, or 0.
  abbrev pub linker : MapLaws k → Debugger m → ℕ
  linker laws d = first_image k l d.world l.mh_dylinker (laws.regions d.world)

  -- What becomes of the debugger, with the reason. Each case rules the ones above it out.
  pub data HookCases (laws : MapLaws k) (callback : ℕ) (d : Debugger m) : Debugger m → Type 0 where
    wide : d.process.is_64_bit ≡ true → HookCases laws callback d d
    not_loaded : d.process.is_64_bit ≡ false → linker laws d ≡ 0 → HookCases laws callback d d
    no_offset :
        (address : ℕ)
        → d.process.is_64_bit ≡ false
        → linker laws d ≡ address
        → address ≢ 0
        → m.vm_read_overwrite d.world ((address + k.all_image_infos_offset) % 2 ^ 64) 4 ≡ none
        → HookCases laws callback d d
    no_infos :
        (address : ℕ) (offset : List ℕ)
        → d.process.is_64_bit ≡ false
        → linker laws d ≡ address
        → address ≢ 0
        → m.vm_read_overwrite d.world ((address + k.all_image_infos_offset) % 2 ^ 64) 4
          ≡ some offset
        → k.vm_read d.world ((address + word offset 0) % 2 ^ 64) size_dyld_all_image_infos ≡ none
        → HookCases laws callback d d
    hooks :
        (address : ℕ) (offset infos : List ℕ)
        → d.process.is_64_bit ≡ false
        → linker laws d ≡ address
        → address ≢ 0
        → m.vm_read_overwrite d.world ((address + k.all_image_infos_offset) % 2 ^ 64) 4
          ≡ some offset
        → k.vm_read d.world ((address + word offset 0) % 2 ^ 64) size_dyld_all_image_infos
          ≡ some infos
        → HookCases laws callback d (hooked d (word infos infos_notification) callback)

  -- `initializeDylinkerHooks` ends within one round for each region and one more, and always answers
  -- false: also where it has read the infos of the dynamic linker and has enabled a breakpoint on its
  -- notification, which it only does on a process that is not marked as 64 bits and with a dynamic
  -- linker in memory. On a process marked as 64 bits, with no dynamic linker in memory, or behind a
  -- failed read, nothing changes.
  pub initialize_dylinker_hooks-HookCases :
      (laws : MapLaws k) (memory : MemoryLaws m) (fuel : ℕ) (junk : Region) (callback : ℕ)
      (d : Debugger m)
      → 4 ≤ l.size_mach_header
      → l.filetype + 4 ≤ l.size_mach_header
      → length (laws.regions d.world) < fuel
      → (d' : Debugger m) × (initialize_dylinker_hooks k l fuel junk callback d ≡ some (false, d'))
        × HookCases laws callback d d'
  unfolding initialize_dylinker_hooks locate_infos hook
  initialize_dylinker_hooks-HookCases laws memory fuel junk callback d h h' enough =
      let found = find_address-first_image k l laws d.world l.mh_dylinker junk fuel h h' enough in
      elim (Bool-cases d.process.is_64_bit) [
        | inl on ↦ (d, if_true _ _ on, wide on)
        | inr narrow ↦ elim (Bool-cases (address == 0)) [
          | inl zero_address ↦ (
            d,
            if_false _ _ narrow
                ∙ rw (found, zero_address, initialize_dylinker_hooks, locate_infos, hook) refl,
            not_loaded narrow (ground arith),
          )
          | inr at ↦
              let there : address ≢ 0 = grind (arith, at) in
              elim (Option-cases (m.vm_read_overwrite d.world offset_address 4)) [
                | inl e ↦ (
                  d,
                  if_false _ _ narrow
                      ∙ rw (found, at, e, initialize_dylinker_hooks, locate_infos, hook) refl,
                  no_offset address narrow refl there e,
                )
                | inr (offset, e) ↦
                    let size = memory.read_length d.world offset_address 4 e in
                    let first = u32_at-word offset 0 (omega (arith, size)) in
                    let infos_address = (address + word offset 0) % 2 ^ 64 in
                    elim (Option-cases
                      (k.vm_read d.world infos_address size_dyld_all_image_infos)) [
                        | inl e' ↦ (
                          d,
                          if_false _ _ narrow
                              ∙ rw
                                  (
                                    found, at, e, first, e', initialize_dylinker_hooks,
                                    locate_infos, hook,
                                  )
                                  refl,
                          no_infos address offset narrow refl there e e',
                        )
                        | inr (infos, e') ↦
                            let size' =
                              laws.read_length d.world infos_address size_dyld_all_image_infos e' in
                            let notified =
                              u32_at-word infos infos_notification (omega (arith, size')) in
                            (
                              hooked d (word infos infos_notification) callback,
                              if_false _ _ narrow
                                  ∙ rw
                                      (
                                        found, at, e, first, e', notified,
                                        initialize_dylinker_hooks, locate_infos, hook,
                                      )
                                      refl,
                              hooks address offset infos narrow refl there e e',
                            )
                      ]
              ]
        ]
      ]
    where
      address : ℕ
      address = linker laws d

      offset_address : ℕ
      offset_address = (address + k.all_image_infos_offset) % 2 ^ 64
