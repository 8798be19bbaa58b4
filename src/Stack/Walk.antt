-- ===== src/Stack/Walk.antt =====
-- What a walk over the stack leaves.
use rustdbg.Prelude.{
  ℕ, zero, suc, ◌+◌, ◌^◌, ◌≤◌, ◌<◌, ◌≡◌, refl, sym, ap, ◌∙◌, subst, ◌≢◌, inl, inr, false, Option,
  none, some, List, [], ◌∷◌, arith, ltb, ◌==◌, if◌then◌else◌, Bool-cases, length, to_u64, sub_u64,
}
use rustdbg.Mach.{Mach}
use rustdbg.Debugger.{Thread, Debugger}
use rustdbg.Code.{Code, get_region}
use rustdbg.Stack.{
  StackFrame, cap, is_interior_pointer, link, read_word, previous_frame, previous_code, walk,
  update_state,
}

interior_never : (t : Thread) (a : ℕ) → t.state32.ebp < 2 ^ 32 → is_interior_pointer t a ≡ false
unfolding is_interior_pointer
interior_never t a low = ground arith

-- No address is an interior pointer of a 32-bit frame: the test wants it above the frame's end and
-- below its start. So the word at offset 12 is taken for the saved frame in any case.
pub previous_frame-twelve :
    {m : Mach} (d : Debugger m) (t : Thread) (frame_address : ℕ)
    → t.state32.ebp < 2 ^ 32
    → previous_frame d t frame_address
      ≡ (read_word d (read_word d 0 frame_address) (to_u64 (frame_address + 12)), 12)
unfolding previous_frame
previous_frame-twelve d t frame_address low = rw (interior_never t _ low, previous_frame)

module _ {m : Mach} (d : Debugger m) (c : Code) (t : Thread) where
  -- How a frame follows from the one above it.
  pub record Follows (f g : StackFrame) : Type 0 where
    pub address : g.address ≡ (previous_frame d t f.address).0
    pub code_address :
        g.code_address
        ≡ previous_code d f.code_address (to_u64 (f.address + (previous_frame d t f.address).1 + 4))
    pub size : g.size ≡ cap (sub_u64 g.address f.address)

  abbrev pub Next : ℕ → StackFrame → List StackFrame → Type 0
  Next i f [] = f.parent ≡ none
  Next i f (g ∷ gs) = (f.parent ≡ some (i + 1)) × Follows f g

  -- Frames from a place on: none at address 0 or larger than 256, each with the region of its code,
  -- linked to the next one, which follows from it.
  abbrev pub Chain : ℕ → List StackFrame → Type 0
  Chain i [] = Unit
  Chain i (f ∷ fs) =
      (f.address ≢ 0)
      × (f.size ≤ 256)
      × (f.code_region ≡ get_region c f.code_address)
      × Next i f fs
      × Chain (i + 1) fs

  -- The first frame of a walk.
  abbrev pub Starts : ℕ → ℕ → ℕ → List StackFrame → Type 0
  Starts code address size [] = Unit
  Starts code address size (f ∷ fs) =
      (f.address ≡ address) × (f.code_address ≡ code) × (f.size ≡ size) × (f.parent ≡ none)

  walk-Starts :
      (left code address size : ℕ) → Starts code address size (walk d c t left code address size)
  unfolding walk
  walk-Starts zero code address size = tt
  walk-Starts (suc left) code address size = elim (Bool-cases (address == 0)) [
    | inl stop ↦ rw stop tt
    | inr on ↦ rw on (refl, refl, refl, refl)
  ]

  -- Linking changes nothing but the parent of the first frame.
  link-head :
      (i : ℕ) (g : StackFrame) (gs : List StackFrame)
      → (p : Option ℕ) × (hs : List StackFrame) × (link i (g ∷ gs) ≡ record g { parent = p } ∷ hs)
  unfolding link
  link-head i g [] = (g.parent, [], refl)
  link-head i g (h ∷ hs) = (some (i + 1), link (i + 1) (h ∷ hs), refl)

  -- A frame before a chain.
  Chain-before :
      (i : ℕ) (f : StackFrame) (rest : List StackFrame)
      → f.parent ≡ none
      → f.address ≢ 0
      → f.size ≤ 256
      → f.code_region ≡ get_region c f.code_address
      → (let previous = previous_frame d t f.address in
          Starts
            (previous_code d f.code_address (to_u64 (f.address + previous.1 + 4)))
            previous.0
            (cap (sub_u64 previous.0 f.address))
            rest)
      → Chain (i + 1) (link (i + 1) rest)
      → Chain i (link i (f ∷ rest))
  unfolding link
  Chain-before i f [] parent nonzero small region starts chain =
      (nonzero, small, region, parent, tt)
  Chain-before i f (g ∷ gs) parent nonzero small region (at, code, size, _) chain =
      let (p, hs, head) = link-head (i + 1) g gs in
      let follows : Follows (record f { parent = some (i + 1) }) (record g { parent = p }) =
        record {
          address = at;
          code_address = code;
          size = size ∙ ap (λ a. cap (sub_u64 a f.address)) (sym at);
        } in
      (
        nonzero,
        small,
        region,
        subst (λ fs. Next i (record f { parent = some (i + 1) }) fs) (sym head) (refl, follows),
        chain,
      )

  walk-Chain :
      (left code address size i : ℕ)
      → size ≤ 256
      → Chain i (link i (walk d c t left code address size))
  unfolding walk link
  walk-Chain zero code address size i small = tt
  walk-Chain (suc left) code address size i small = elim (Bool-cases (address == 0)) [
    | inl stop ↦ rw stop tt
    | inr on ↦
        let (previous, offset) = previous_frame d t address in
        let next = previous_code d code (to_u64 (address + offset + 4)) in
        let after = cap (sub_u64 previous address) in
        rw on (
          Chain-before i
            (record {
              parent = none;
              address = address;
              code_address = code;
              code_region = get_region c code;
              size = size;
            })
            (walk d c t left next previous after) refl (ground arith) small refl
            (walk-Starts left next previous after)
            (walk-Chain left next previous after (i + 1) (ground arith)))
  ]

  length-link : (i : ℕ) (fs : List StackFrame) → length (link i fs) ≡ length fs
  unfolding link
  length-link i [] = refl
  length-link i (f ∷ []) = refl
  length-link i (f ∷ g ∷ fs) = ap suc (length-link (i + 1) (g ∷ fs))

  length-walk : (left code address size : ℕ) → length (walk d c t left code address size) ≤ left
  unfolding walk
  length-walk zero code address size = omega arith
  length-walk (suc left) code address size =
      let (previous, offset) = previous_frame d t address in
      let next = previous_code d code (to_u64 (address + offset + 4)) in
      ground (arith, length-walk left next previous (cap (sub_u64 previous address)))

  -- A walk that may push a frame pushes none only from a frame pointer of zero.
  walk-stops :
      (left code address size : ℕ) → walk d c t (suc left) code address size ≡ [] → address ≡ 0
  unfolding walk
  walk-stops left code address size e = elim (Bool-cases (address == 0)) [
    | inl stop ↦ ground arith
    | inr on ↦ absurd (cc (e, on))
  ]

  some_frame :
      (f : StackFrame) (fs : List StackFrame)
      → ◌≡◌ {A = Option ℕ} (if ltb 0 (length (f ∷ fs)) then some 0 else none) (some 0)
  some_frame f fs = ground arith

  -- The innermost frame: where the registers say, or none where the frame pointer is zero.
  abbrev pub Innermost : Option ℕ → List StackFrame → Type 0
  Innermost top [] = (top ≡ none) × (t.state32.ebp ≡ 0)
  Innermost top (f ∷ fs) =
      (top ≡ some 0)
      × (f.address ≡ t.state32.ebp)
      × (f.code_address ≡ t.state32.eip)
      × (f.size ≡ 128)

  link-Innermost :
      (fs : List StackFrame)
      → Starts t.state32.eip t.state32.ebp 128 fs
      → (fs ≡ [] → t.state32.ebp ≡ 0)
      → Innermost (if ltb 0 (length (link 0 fs)) then some 0 else none) (link 0 fs)
  unfolding link
  link-Innermost [] starts empty = (refl, empty refl)
  link-Innermost (f ∷ []) (at, code, size, _) empty = (some_frame f [], at, code, size)
  link-Innermost (f ∷ g ∷ fs) (at, code, size, _) empty =
      (some_frame f (link 1 (g ∷ fs)), at, code, size)

  -- `updateState` leaves at most 65 frames: the first is that of the registers, and is the frame of
  -- the stack; each other one is the saved frame of the one before it, to which that is linked as
  -- its parent; no frame is at address 0, none is larger than 256, and each has the region of its
  -- code.
  pub update_state-Chain :
      let s = update_state d c t in
      (length s.frames ≤ 65) × Innermost s.frame s.frames × Chain 0 s.frames
  unfolding update_state
  update_state-Chain =
      let eip = t.state32.eip in
      let ebp = t.state32.ebp in
      (
        ground (arith, length-link 0 (walk d c t 65 eip ebp 128), length-walk 65 eip ebp 128),
        link-Innermost (walk d c t 65 eip ebp 128) (walk-Starts 65 eip ebp 128)
            (walk-stops 64 eip ebp 128),
        walk-Chain 65 eip ebp 128 0 (omega arith),
      )
