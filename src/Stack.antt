-- ===== src/Stack.antt =====
-- lib/src/MDBStack.cpp: the walk over the frames of a thread. A frame is its place in the list.
pub mod Walk
use rustdbg.Prelude.{
  ℕ, zero, suc, ◌+◌, ◌*◌, ◌/◌, ◌%◌, ◌^◌, Bool, not, ◌&&◌, Option, none, some, List, [], ◌∷◌, ltb,
  leb, ◌==◌, if◌then◌else◌, length, ℤ, to_u64, sub_u64,
}
use rustdbg.Mach.{Mach}
use rustdbg.Debugger.{Thread, Debugger, read}
use rustdbg.Code.{Code, get_region, add_i64}

-- `MDBStackFrame`.
pub record StackFrame : Type 0 where
  pub parent : Option ℕ
  pub address : ℕ
  pub code_address : ℕ
  pub code_region : Option ℕ
  pub size : ℕ

-- `MDBStack`.
pub record Stack : Type 0 where
  pub frame : Option ℕ
  pub frames : List StackFrame

abbrev pub max_stack_size : ℕ
max_stack_size = 64 * 1024

-- The bytes of a `uint32_t` in memory, and its value.
abbrev pub to_bytes : ℕ → List ℕ
to_bytes n = n % 256 ∷ n / 256 % 256 ∷ n / 65536 % 256 ∷ n / 16777216 % 256 ∷ []

abbrev pub of_bytes : List ℕ → ℕ
of_bytes [] = 0
of_bytes (b ∷ bs) = b + 256 * of_bytes bs

-- `frameSize > 256 ? 256 : frameSize`.
abbrev pub cap : ℕ → ℕ
cap size = if ltb 256 size then 256 else size

-- `isInteriorPointer`.
unfoldable pub is_interior_pointer : Thread → ℕ → Bool
is_interior_pointer t address =
    let frame_address = t.state32.ebp in
    let base_address = to_u64 (frame_address + max_stack_size) in
    leb base_address address && leb address frame_address

-- The loop that links the frames, from place `i` on.
unfoldable pub link : ℕ → List StackFrame → List StackFrame
link i [] = []
link i (f ∷ []) = f ∷ []
link i (f ∷ g ∷ fs) = record f { parent = some (i + 1) } ∷ link (i + 1) (g ∷ fs)

module _ {m : Mach} where
  -- A read of a `uint32_t` that holds `old` before.
  unfoldable pub read_word : Debugger m → (old src : ℕ) → ℕ
  read_word d old src = of_bytes (read d (to_bytes old) src 4).1

  -- `readU32`; its variable is not initialised, and 0 stands for what it holds.
  unfoldable pub read_u32 : Debugger m → StackFrame → ℤ → ℕ
  read_u32 d f offset = read_word d 0 (add_i64 f.address offset)

  -- `previousFrameAddress` and `previousFrameAddressOffset`.
  unfoldable pub previous_frame : Debugger m → Thread → ℕ → ℕ × ℕ
  previous_frame d t frame_address =
      let first = read_word d 0 frame_address in
      if not (is_interior_pointer t first)
      then (read_word d first (to_u64 (frame_address + 12)), 12)
      else (first, 0)

  -- The read of four bytes into `codeAddress`, which has eight.
  unfoldable pub previous_code : Debugger m → (code_address src : ℕ) → ℕ
  previous_code d code_address src =
      code_address / 2 ^ 32 * 2 ^ 32 + read_word d (code_address % 2 ^ 32) src

  -- The loop; `left` is how many frames may still be pushed before the list has more than 64.
  unfoldable pub walk : Debugger m → Code → Thread → (left : ℕ) → ℕ → ℕ → ℕ → List StackFrame
  walk d c t zero code_address frame_address size = []
  walk d c t (suc left) code_address frame_address size =
      let (previous, offset) = previous_frame d t frame_address in
      let next = previous_code d code_address (to_u64 (frame_address + offset + 4)) in
      let rest = walk d c t left next previous (cap (sub_u64 previous frame_address)) in
      if frame_address == 0
      then []
      else record {
        parent = none;
        address = frame_address;
        code_address = code_address;
        code_region = get_region c code_address;
        size = size;
      }
        ∷ rest

  -- `updateState`.
  unfoldable pub update_state : Debugger m → Code → Thread → Stack
  update_state d c t =
      let frames = link 0 (walk d c t 65 t.state32.eip t.state32.ebp 128) in
      record { frame = if ltb 0 (length frames) then some 0 else none; frames = frames }
