-- ===== src/Debugger/Memory.antt =====
-- lib/src/MDBDebugger.cpp: reading and writing the memory of the debuggee.
use rustdbg.Prelude.{
  ℕ, ◌^◌, Bool, false, ◌&&◌, Option, none, some, List, [], ◌∷◌, ltb, if◌then◌else◌, length, set,
  drop, ◌++◌, ℤ, pos, negsuc, to_i32, sub_u64,
}
use rustdbg.Mach.{Mach}
use rustdbg.Debugger.State.{Breakpoint, Debugger}

-- `offset < (int) size` for an offset that is not negative.
abbrev pub below_int : ℕ → ℤ → Bool
below_int offset (pos n) = ltb offset n
below_int offset (negsuc n) = false

-- The body of the loop: the patch of an enabled breakpoint replaces its byte in the buffer.
unfoldable pub unpatch : Breakpoint → ℕ → ℕ → List ℕ → List ℕ
unpatch b src size buffer =
    let offset = sub_u64 b.address src in
    if b.enabled && (ltb offset (2 ^ 63) && below_int offset (to_i32 size))
    then set buffer offset b.patch
    else buffer

unfoldable pub unpatch_all : List Breakpoint → ℕ → ℕ → List ℕ → List ℕ
unfolding unpatch
unpatch_all [] src size buffer = buffer
unpatch_all (b ∷ bs) src size buffer = unpatch_all bs src size (unpatch b src size buffer)

-- What the system call leaves in the buffer, and its result.
abbrev pub fill : List ℕ → Option (List ℕ) → List ℕ
fill buffer none = buffer
fill buffer (some bytes) = bytes ++ drop (length bytes) buffer

abbrev pub bytes_read : Option (List ℕ) → ℤ
bytes_read none = negsuc 0
bytes_read (some bytes) = to_i32 (length bytes)

-- The first write, and on failure the protection and the second one.
unfoldable pub poke : (m : Mach) → m.World → ℕ → List ℕ → m.World
poke m w dst src =
    let (done, w') = m.vm_write w dst src in
    if done then w' else (m.vm_write (m.vm_protect w' dst (length src)).1 dst src).1

module _ {m : Mach} where
  -- `read`: the result, and the buffer behind it. It does not use its `ignoreBreakpoints`.
  unfoldable pub read : Debugger m → (dst : List ℕ) → (src size : ℕ) → ℤ × List ℕ
  read d dst src size =
      let got = m.vm_read_overwrite d.world src size in
      (bytes_read got, unpatch_all d.breakpoints src size (fill dst got))

  unfoldable pub write : Debugger m → ℕ → List ℕ → ℤ × Debugger m
  write d dst src = (to_i32 (length src), record d { world = poke m d.world dst src })
