-- ===== src/Breakpoint/Read.antt =====
-- `MDBDebugger::read` shows the memory under the breakpoints, and `write` stores a byte.
use rustdbg.Prelude.{
  ℕ, ◌+◌, ◌^◌, ◌≤◌, ◌<◌, ◌≡◌, ap, ◌∙◌, ◌≢◌, inl, inr, some, List, [], ◌∷◌, ◌++◌, arith, Bool-cases,
  length, get_elem?, drop, length-append, get_elem?-append_left, All, pos, to_i32_small,
}
use rustdbg.Mach.{Mach}
use rustdbg.Mach.Laws.{MemoryLaws}
use rustdbg.Debugger.{Debugger, read, poke}
use rustdbg.Breakpoint.View.{overlay, overlay-cases, IsAddress, unpatch_all-get, view}

module _ {m : Mach} (laws : MemoryLaws m) where
  open laws use {
    byte, read_length, read_bytes, read_mapped, write_at, write_other, write_failed, protect_keeps,
    protect_opens,
  }

  -- A read that the system grants answers the size, and fills the buffer with the view.
  pub read-view :
      (d : Debugger m) (dst : List ℕ) (src size i : ℕ) {bytes : List ℕ}
      → m.vm_read_overwrite d.world src size ≡ some bytes
      → All IsAddress d.breakpoints
      → src + size ≤ 2 ^ 64
      → size < 2 ^ 31
      → i < size
      → ((read d dst src size).0 ≡ pos size)
        × (get_elem? (read d dst src size).1 i ≡ view laws d (src + i))
  unfolding read
  read-view d dst src size i {bytes} got valid fits small h =
      let n : length bytes ≡ size = read_length d.world src size got in
      let there = get_elem?-append_left bytes (drop (length bytes) dst) i (omega arith) in
      rw got (
        ground (arith, n, to_i32_small (length bytes)),
        unpatch_all-get d.breakpoints src size i (bytes ++ drop (length bytes) dst) valid fits small
              (omega (arith, length-append bytes (drop (length bytes) dst))) h
            ∙ ap (overlay d.breakpoints (src + i)) (there ∙ read_bytes d.world src size i got h),
      )

  pub view-mapped :
      (d : Debugger m) (x : ℕ) {y : ℕ}
      → byte d.world x ≡ some y
      → (p : ℕ) × (view laws d x ≡ some p)
  view-mapped d x {y} e = elim (overlay-cases d.breakpoints x) [
    | inl h ↦ (y, h (byte d.world x) ∙ e)
    | inr (q, h) ↦ (q, h (byte d.world x))
  ]

  -- One byte, at an address that is mapped.
  pub poke-at :
      (w : m.World) (a b : ℕ) {y : ℕ} → byte w a ≡ some y → byte (poke m w a (b ∷ [])) a ≡ some b
  unfolding poke
  poke-at w a b e = elim (Bool-cases (m.vm_write w a (b ∷ [])).0) [
    | inl done ↦ rw done (write_at w a b done)
    | inr denied ↦ rw denied (
        write_at _ a b
          (protect_opens (m.vm_write w a (b ∷ [])).1 a b (write_failed w a b a denied ∙ e)))
  ]

  pub poke-other : (w : m.World) (a b x : ℕ) → a ≢ x → byte (poke m w a (b ∷ [])) x ≡ byte w x
  unfolding poke
  poke-other w a b x ne = elim (Bool-cases (m.vm_write w a (b ∷ [])).0) [
    | inl done ↦ rw done (write_other w a b x ne)
    | inr denied ↦
        rw denied (write_other _ a b x ne ∙ protect_keeps _ a 1 x ∙ write_failed w a b x denied)
  ]
