-- ===== src/MachReader/Fat.antt =====
-- The choice of the image of a fat file.
use rustdbg.Prelude.{
  ℕ, zero, suc, ◌+◌, ◌<◌, ◌≡◌, refl, ◌⊎◌, inl, inr, true, false, Option, none, some, List, arith,
  ◌==◌, Bool-cases, Option-cases,
}
use rustdbg.MachReader.{Layout, swap_endian, u32_at, find_arch}

module _ (l : Layout) (buffer : List ℕ) where
  -- The entry `k` of the table that starts at a place.
  abbrev pub entry_at : ℕ → ℕ → ℕ
  entry_at curr zero = curr
  entry_at curr (suc k) = entry_at (curr + l.size_fat_arch) k

  -- The processor of an entry.
  abbrev pub cpu_at : ℕ → ℕ → Option ℕ
  cpu_at curr k = u32_at buffer (entry_at curr k + l.cputype)

  -- The entries below `k` can be read, and none of them is for the processor.
  abbrev pub NoneBelow : ℕ → ℕ → Type 0
  NoneBelow curr k =
      (j : ℕ)
      → j < k
      → (cpu : ℕ) × (cpu_at curr j ≡ some cpu) × ((swap_endian cpu == l.cpu_type_x86) ≡ false)

  -- What the loop over `n` entries may answer: the offset of the first entry for the processor, that
  -- there is none, or that an entry lies outside of the buffer.
  pub data ArchCases (curr n : ℕ) : Option (Option ℕ) → Type 0 where
    found :
        (k cpu offset : ℕ) {o : Option (Option ℕ)}
        → o ≡ some (some (swap_endian offset))
        → k < n
        → cpu_at curr k ≡ some cpu
        → (swap_endian cpu == l.cpu_type_x86) ≡ true
        → u32_at buffer (entry_at curr k + l.arch_offset) ≡ some offset
        → NoneBelow curr k
        → ArchCases curr n o
    absent : {o : Option (Option ℕ)} → o ≡ some none → NoneBelow curr n → ArchCases curr n o
    outside :
        (k : ℕ) {o : Option (Option ℕ)}
        → o ≡ none
        → k < n
        → (cpu_at curr k ≡ none) ⊎ (u32_at buffer (entry_at curr k + l.arch_offset) ≡ none)
        → NoneBelow curr k
        → ArchCases curr n o

  NoneBelow-suc :
      (curr k cpu : ℕ)
      → cpu_at curr 0 ≡ some cpu
      → (swap_endian cpu == l.cpu_type_x86) ≡ false
      → NoneBelow (curr + l.size_fat_arch) k
      → NoneBelow curr (suc k)
  NoneBelow-suc curr k cpu e off below zero h = (cpu, e, off)
  NoneBelow-suc curr k cpu e off below (suc j) h = below j (omega arith)

  -- The loop over the images of a fat file answers the offset of the first entry for the processor,
  -- or that there is none, or it comes to an entry outside of the buffer before.
  pub find_arch-ArchCases : (curr n : ℕ) → ArchCases curr n (find_arch l buffer curr n)
  unfolding find_arch
  find_arch-ArchCases curr zero = absent refl (λ j h. elim h [ ])
  find_arch-ArchCases curr (suc n) = elim (Option-cases (u32_at buffer (curr + l.cputype))) [
    | inl e ↦ outside 0 (rw (e, find_arch)) (omega arith) (inl e) (λ j h. elim h [ ])
    | inr (cpu, e) ↦ elim (Bool-cases (swap_endian cpu == l.cpu_type_x86)) [
      | inl on ↦ elim (Option-cases (u32_at buffer (curr + l.arch_offset))) [
        | inl f ↦ outside 0 (rw (e, on, f, find_arch)) (omega arith) (inr f) (λ j h. elim h [ ])
        | inr (offset, f) ↦
            found 0 cpu offset (rw (e, on, f, find_arch)) (omega arith) e on f (λ j h. elim h [ ])
      ]
      | inr off ↦ elim (find_arch-ArchCases (curr + l.size_fat_arch) n) [
        | found k cpu' offset o h at on f below ↦
            found (suc k) cpu' offset (rw (e, off, find_arch) o) (omega arith) at on f
              (NoneBelow-suc curr k cpu e off below)
        | absent o below ↦ absent (rw (e, off, find_arch) o) (NoneBelow-suc curr n cpu e off below)
        | outside k o h why below ↦
            outside (suc k) (rw (e, off, find_arch) o) (omega arith) why
              (NoneBelow-suc curr k cpu e off below)
      ]
    ]
  ]
