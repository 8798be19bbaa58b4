-- ===== src/Attach/Hooks.antt =====
-- lib/src/MDBProcess.cpp: the constructor, and `initializeDylinkerHooks`.
use rustdbg.Prelude.{
  ℕ, ◌+◌, ◌%◌, ◌^◌, Bool, true, false, Option, none, some, List, [], ◌==◌, if◌then◌else◌,
}
use rustdbg.Mach.{Mach}
use rustdbg.Debugger.{Process, Run}
use rustdbg.Breakpoint.{create_breakpoint, enable}
use rustdbg.MachReader.{Layout, u32_at}
use rustdbg.Attach.{MemoryMap, Region, find_address}

-- `machIs64Bit`.
unfoldable pub mach_is_64_bit : Bool
mach_is_64_bit = true

-- The constructor. The errors of its calls on the port for profiling are only reported.
unfoldable pub new_process : ℕ → Process
new_process pid = record { running = true; is_64_bit = mach_is_64_bit; pid = pid; threads = [] }

-- `sizeof (struct MDBDyldAllImageInfos32)`, whose last field is a `uintptr_t` of 8 bytes, and the
-- offsets of the fields that the code reads.
abbrev pub size_dyld_all_image_infos : ℕ
size_dyld_all_image_infos = 56

abbrev pub infos_version : ℕ
infos_version = 0

abbrev pub infos_info_array_count : ℕ
infos_info_array_count = 4

abbrev pub infos_info_array : ℕ
infos_info_array = 8

abbrev pub infos_notification : ℕ
infos_notification = 12

-- What the code gets to see of the infos of the dynamic linker.
pub data Located : Type 0 where
  not_loaded : Located
  no_offset : Located
  no_infos : Located
  at_infos : (infos : List ℕ) → Located

module _ {m : Mach} (k : MemoryMap m) (l : Layout) where
  -- The part that `logDylinkerState` and `initializeDylinkerHooks` begin with.
  unfoldable pub locate_infos : ℕ → m.World → Region → Option Located
  locate_infos fuel w junk = elim (find_address k l fuel w l.mh_dylinker none junk) [
    | none ↦ none
    | some address ↦
        if address == 0
        then some not_loaded
        else elim (m.vm_read_overwrite w ((address + k.all_image_infos_offset) % 2 ^ 64) 4) [
          | none ↦ some no_offset
          | some word ↦ elim (u32_at word 0) [
            | none ↦ none
            | some offset ↦
                elim (k.vm_read w ((address + offset) % 2 ^ 64) size_dyld_all_image_infos) [
                  | none ↦ some no_infos
                  | some infos ↦ some (at_infos infos)
                ]
          ]
        ]
  ]

  -- The breakpoint on the notification; `on_library_loaded` is the callback on this process.
  unfoldable pub hook : ℕ → Located → Run m Bool
  hook on_library_loaded (at_infos infos) d = elim (u32_at infos infos_notification) [
    | none ↦ none
    | some notification ↦
        let (r, d') = create_breakpoint d notification (some on_library_loaded) in
        some (false, enable d' r true)
  ]
  hook on_library_loaded _ d = some (false, d)

  unfoldable pub initialize_dylinker_hooks : ℕ → Region → ℕ → Run m Bool
  initialize_dylinker_hooks fuel junk on_library_loaded d =
      if d.process.is_64_bit then some (false, d) else elim (locate_infos fuel d.world junk) [
        | none ↦ none
        | some located ↦ hook on_library_loaded located d
      ]
