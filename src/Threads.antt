-- ===== src/Threads.antt =====
-- The thread list of the process: MDBThread.cpp, and `findThread`, `gatherThreads`, `machUpdateThread`
-- and `machCommitThread` of lib/src/MDBProcess.cpp. A thread is its place in the list.
pub mod Wrap
pub mod Gather
use Prim.Native.Nat.{bit_and, bit_or}
use rustdbg.Prelude.{
  ℕ, zero, suc, ◌+◌, Bool, true, false, Option, none, some, List, [], ◌∷◌, ◌++◌, if◌then◌else◌,
  ◌==◌, get_elem?, set, to_u32, ℤ, pos, negsuc, sub_u32,
}
use rustdbg.Mach.{
  Mach, Kern, success, aborted, failure, ThreadInfo, ThreadState32, ThreadState64, ThreadRunState,
}
use rustdbg.Debugger.{Thread, Debugger, Run, pure, ◌>>=◌, ◌>>◌}

-- The constructor: nothing but the port is initialised, and zeros stand for what the rest holds.
abbrev pub new_thread : ℕ → Thread
new_thread port = record {
  thread = port;
  info = record { run_state = ThreadRunState.other; suspend_count = 0 };
  state32 = record { esp = 0; ebp = 0; eip = 0; eflags = 0; others = [] };
  state64 = record { registers = [] };
}

-- `findThread`: the first place, from `i` on, of a thread with the port.
unfoldable pub find_thread : List Thread → ℕ → ℕ → Option ℕ
find_thread [] port i = none
find_thread (t ∷ ts) port i =
    let rest = find_thread ts port (i + 1) in if t.thread == port then some i else rest

-- `__eflags |= 0x100UL` and `__eflags &= ~0x100UL` on 32 bits.
unfoldable pub set_trap : ℕ → ℕ
set_trap eflags = bit_or eflags 0x100

unfoldable pub clear_trap : ℕ → ℕ
clear_trap eflags = bit_and eflags 0xffff_feff

-- `__eip += offset`, for an offset of 32 bits.
unfoldable pub add_i32 : ℕ → ℤ → ℕ
add_i32 a (pos n) = to_u32 (a + n)
add_i32 a (negsuc n) = sub_u32 a (suc n)

-- A call that hands nothing over.
abbrev pub setting : {W : Type 0} → (W → Kern × W) → W → Kern × Unit {0} × W
setting call w = let (kr, w') = call w in (kr, tt, w')

abbrev pub succeeded : {A : Type 0} → Option A → Bool
succeeded none = false
succeeded (some _) = true

abbrev pub put_info : Thread → Option ThreadInfo → Thread
put_info t none = t
put_info t (some i) = record t { info = i }

abbrev pub put_state64 : Thread → Option ThreadState64 → Thread
put_state64 t none = t
put_state64 t (some s) = record t { state64 = s }

abbrev pub put_state32 : Thread → Option ThreadState32 → Thread
put_state32 t none = t
put_state32 t (some s) = record t { state32 = s }

module _ {m : Mach} where
  abbrev pub set_world : Debugger m → m.World → Debugger m
  set_world d w = record d { world = w }

  abbrev pub set_threads : Debugger m → List Thread → Debugger m
  set_threads d ts = record d { process = record (d.process) { threads = ts } }

module _ (m : Mach) where
  -- `WRAP_MACH`: the call again while it is aborted; what it hands over, or `none` where it failed.
  unfoldable pub wrap_mach : {A : Type 0} → ℕ → (m.World → Kern × A × m.World) → Run m (Option A)
  wrap_mach zero call d = none
  wrap_mach (suc fuel) call d =
      let (kr, a, w) = call d.world in
      elim kr [
        | success ↦ some (some a, set_world d w)
        | failure ↦ some (none, set_world d w)
        | aborted ↦ wrap_mach fuel call (set_world d w)
      ]

  -- `machCommitThread`.
  unfoldable pub mach_commit_thread : ℕ → Thread → Run m Bool
  mach_commit_thread fuel t = do
    r ← wrap_mach fuel (setting (λ w. m.thread_set_state w t.thread t.state32))
    pure (succeeded r)

  -- `machUpdateThread` on the thread's values: the info, then the state of the process's width.
  -- `onStateUpdated` does nothing.
  unfoldable pub mach_update_thread : ℕ → Thread → Run m Thread
  mach_update_thread fuel t d =
      let t' = put_info t (m.thread_info d.world t.thread) in
      if d.process.is_64_bit
      then (do s ← wrap_mach fuel (λ w. m.thread_get_state64 w t.thread); pure (put_state64 t' s)) d
      else (do s ← wrap_mach fuel (λ w. m.thread_get_state w t.thread); pure (put_state32 t' s)) d

  -- One round of the loop of `gatherThreads`.
  unfoldable pub gather_thread : ℕ → ℕ → Run m (Unit {0})
  gather_thread fuel port d = elim (find_thread d.process.threads port 0) [
    | none ↦
        (do
          t ← mach_update_thread fuel (new_thread port)
          λ d'. some (tt, set_threads d' (d'.process.threads ++ t ∷ [])))
          d
    | some i ↦ elim (get_elem? d.process.threads i) [
      | none ↦ none
      | some old ↦
          (do
            t ← mach_update_thread fuel old
            λ d'. some (tt, set_threads d' (set d'.process.threads i t)))
            d
    ]
  ]

  unfoldable pub gather_each : ℕ → List ℕ → Run m (Unit {0})
  gather_each fuel [] d = some (tt, d)
  gather_each fuel (port ∷ ports) d = (gather_thread fuel port >> gather_each fuel ports) d

  unfoldable pub gather_threads : ℕ → Run m Bool
  gather_threads fuel d = elim (m.task_threads d.world) [
    | none ↦ some (false, d)
    | some ports ↦
        (do
          gather_each fuel ports
          λ d'. let (done, w) = m.vm_deallocate d'.world in some (done, set_world d' w))
          d
  ]
