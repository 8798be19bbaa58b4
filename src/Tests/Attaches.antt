-- ===== src/Tests/Attaches.antt =====
-- The search for images at concrete inputs.
use rustdbg.Prelude.{
  ℕ, zero, ◌≤◌, ◌≡◌, refl, sym, ap, ◌∙◌, inl, inr, Bool, true, false, ◌&&◌, Option, none, some,
  List, [], ◌∷◌, ◌++◌, arith, ltb, leb, ◌==◌, if◌then◌else◌, if_true, if_false, Bool-cases, length,
  take, replicate, length-append, length-replicate, length-take,
}
use rustdbg.Debugger.{Debugger}
use rustdbg.Attach.{Inherit, Behavior, RegionInfo, Region, invalid_address, MemoryMap, find_address}
use rustdbg.Attach.Search.{next_region, MapLaws, first_image, find_address-first_image}
use rustdbg.Attach.Hooks.{initialize_dylinker_hooks}
use rustdbg.Attach.Hooked.{HookCases, hooks, hooked, initialize_dylinker_hooks-HookCases}
use rustdbg.MachReader.{u32_at}
use rustdbg.Tests.Files.{layout}
use rustdbg.Tests.Controls.{calm, calm_memory, start, world}

abbrev with_access : Bool → RegionInfo
with_access readable = record {
  readable = readable;
  writable = false;
  executable = true;
  max_readable = true;
  max_writable = true;
  max_executable = true;
  inheritance = Inherit.copy;
  shared = false;
  behavior = Behavior.default;
  user_wired_count = 0;
  reserved = 0;
}

-- A region that cannot be read, one with the dynamic linker, and one with its infos.
abbrev three_regions : List Region
three_regions =
    record { address = 0x1000; size = 64; info = with_access false }
    ∷ record { address = 0x2000; size = 40; info = with_access true }
    ∷ record { address = 0x3000; size = 256; info = with_access true }
    ∷ []

-- The header of a file of the type 7.
abbrev image : List ℕ
image = (0xce ∷ 0xfa ∷ 0xed ∷ 0xfe ∷ []) ++ replicate 8 0 ++ (7 ∷ 0 ∷ 0 ∷ 0 ∷ []) ++ replicate 24 0

abbrev vm_read : ℕ → ℕ → Option (List ℕ)
vm_read a n =
    if a == 0x2000
    then some (take n (image ++ replicate n 0))
    else if leb 0x3000 a && ltb a 0x3100
    then some (replicate n 0)
    else none

abbrev pub memory_map : MemoryMap calm
memory_map = record {
  vm_region = λ w a. next_region a three_regions;
  vm_read = λ w a n. vm_read a n;
  mh_cigam = 0xcefa_edfe;
  all_image_infos_offset = 0x1010;
}

image-long : (n : ℕ) → n ≤ length (image ++ replicate n 0)
image-long n = omega (arith, length-append image (replicate n 0), length-replicate n zero)

some-injective : {A : Type 0} {x y : A} → some x ≡ some y → x ≡ y
some-injective e = cc

vm_read-length : (a n : ℕ) {bytes : List ℕ} → vm_read a n ≡ some bytes → length bytes ≡ n
vm_read-length a n e = elim (Bool-cases (a == 0x2000)) [
  | inl first ↦
      let same = some-injective (sym (if_true _ _ first) ∙ e) in
      ap length (sym same) ∙ length-take n (image ++ replicate n 0) ∙ omega (arith, image-long n)
  | inr other ↦ elim (Bool-cases (leb 0x3000 a && ltb a 0x3100)) [
    | inl last ↦
        let same = some-injective (sym (if_true _ _ last) ∙ sym (if_false _ _ other) ∙ e) in
        ap length (sym same) ∙ length-replicate n zero
    | inr none_of ↦ absurd (cc (if_false _ _ none_of, if_false _ _ other, e))
  ]
]

vm_read-unmapped : (a n : ℕ) → next_region a three_regions ≡ invalid_address → vm_read a n ≡ none
vm_read-unmapped a n e = ground arith

abbrev map_laws : MapLaws memory_map
map_laws = record {
  regions = λ w. three_regions;
  ascending = λ w. (
    omega arith,
    omega arith,
    omega arith,
    (omega arith, omega arith, omega arith, (omega arith, omega arith, omega arith, tt)),
  );
  lookup = λ w a. refl;
  read_length = λ w a n e. vm_read-length a n e;
  unmapped = λ w a n e. vm_read-unmapped a n e;
}

abbrev pub junk : Region
junk = record { address = 0; size = 1; info = with_access false }

find_address-first_image_example :
    find_address memory_map layout 4 world 7 none junk
    ≡ some (first_image memory_map layout world 7 three_regions)
find_address-first_image_example =
    find_address-first_image memory_map layout map_laws world 7 junk 4 (omega arith) (omega arith)
      (omega arith)

found_address : first_image memory_map layout world 7 three_regions ≡ 0x2000
unfolding u32_at
found_address = refl

-- A debugger with a process of 32 bits, whose dynamic linker says that its infos are at 0x3040.
abbrev narrow : Debugger calm
narrow = record start {
  world = record world {
    memory = λ x.
        if x == 0x3010
        then some 0x40
        else if x == 0x3011
        then some 0x10
        else if leb 0x3012 x && leb x 0x3013
        then some 0
        else world.memory x;
  };
  process = record { running = true; is_64_bit = false; pid = 1; threads = [] };
}

initialize_dylinker_hooks-HookCases_example :
    (d' : Debugger calm) × (initialize_dylinker_hooks memory_map layout 4 junk 9 narrow
      ≡ some (false, d'))
    × HookCases memory_map layout map_laws 9 narrow d'
initialize_dylinker_hooks-HookCases_example =
    initialize_dylinker_hooks-HookCases memory_map layout map_laws calm_memory 4 junk 9 narrow
      (omega arith) (omega arith) (omega arith)

hooked_at : HookCases memory_map layout map_laws 9 narrow (hooked memory_map layout narrow 0 9)
unfolding u32_at
hooked_at =
    hooks 0x2000 (0x40 ∷ 0x10 ∷ 0 ∷ 0 ∷ []) (replicate 56 0) refl refl (λ e. grind (arith, e)) refl
      refl
