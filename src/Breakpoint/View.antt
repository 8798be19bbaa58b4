-- ===== src/Breakpoint/View.antt =====
-- The memory of the program under the breakpoints: what the debuggee would hold without the traps.
use rustdbg.Prelude.{
  ℕ, zero, suc, ◌+◌, ◌^◌, ◌≤◌, ◌<◌, ◌≡◌, refl, sym, ap, ◌∙◌, ◌⊎◌, inl, inr, Bool, true, false, ◌&&◌,
  Option, some, List, [], ◌∷◌, arith, ◌==◌, if◌then◌else◌, if_true, if_false, Bool-cases, length,
  get_elem?, set, length-set, get_elem?-set_self, get_elem?-set_ne, All, sub_u64,
}
use rustdbg.Mach.{Mach}
use rustdbg.Mach.Laws.{MemoryLaws}
use rustdbg.Debugger.{Breakpoint, Debugger, unpatch, unpatch_all}

-- The patch of an enabled breakpoint at the address stands for the byte; a later one counts.
unfoldable pub hides : Breakpoint → ℕ → Bool
hides b x = b.enabled && (b.address == x)

abbrev pub overlay : List Breakpoint → ℕ → Option ℕ → Option ℕ
overlay [] x c = c
overlay (b ∷ bs) x c = overlay bs x (if hides b x then some b.patch else c)

-- Either no breakpoint hides the address, or the answer is the same whatever is under them.
pub overlay-cases :
    (bs : List Breakpoint) (x : ℕ)
    → ((c : Option ℕ) → overlay bs x c ≡ c) ⊎ ((q : ℕ) × ((c : Option ℕ) → overlay bs x c ≡ some q))
overlay-cases [] x = inl (λ c. refl)
overlay-cases (b ∷ bs) x = elim (overlay-cases bs x) [
  | inr (q, h) ↦ inr (q, λ c. h _)
  | inl h ↦ elim (Bool-cases (hides b x)) [
    | inl here ↦ inr (b.patch, λ c. rw here (h _))
    | inr there ↦ inl (λ c. rw there (h c))
  ]
]

pub overlay-again :
    (bs : List Breakpoint) (x p : ℕ) (c : Option ℕ)
    → overlay bs x c ≡ some p
    → overlay bs x (some p) ≡ some p
overlay-again bs x p c e = elim (overlay-cases bs x) [
  | inl h ↦ h (some p)
  | inr (q, h) ↦ h (some p) ∙ sym (h c) ∙ e
]

-- Changing a breakpoint elsewhere does not show.
pub overlay-set_other :
    (bs : List Breakpoint) (i x : ℕ) (b b' : Breakpoint) (c : Option ℕ)
    → get_elem? bs i ≡ some b
    → hides b x ≡ false
    → hides b' x ≡ false
    → overlay (set bs i b') x c ≡ overlay bs x c
overlay-set_other [] i x b b' c at old new = refl
overlay-set_other (h ∷ bs) zero x b b' c at old new =
    let e : hides h x ≡ false = let same : h ≡ b = cc in ap (λ k. hides k x) same ∙ old in
    ap (overlay bs x) (if_false _ c new ∙ sym (if_false _ c e))
overlay-set_other (h ∷ bs) (suc i) x b b' c at old new = overlay-set_other bs i x b b' _ at old new

-- Enabling a breakpoint over the byte that shows does not change what shows.
pub overlay-set_enabled :
    (bs : List Breakpoint) (i x p : ℕ) (b b' : Breakpoint) (c c' : Option ℕ)
    → get_elem? bs i ≡ some b
    → hides b x ≡ false
    → hides b' x ≡ true
    → b'.patch ≡ p
    → overlay bs x c ≡ some p
    → overlay (set bs i b') x c' ≡ some p
overlay-set_enabled [] i x p b b' c c' at old new same shows = cc
overlay-set_enabled (h ∷ bs) zero x p b b' c c' at old new same shows =
    let e : hides h x ≡ false = let here : h ≡ b = cc in ap (λ k. hides k x) here ∙ old in
    ap (overlay bs x) (if_true _ c' new ∙ ap some same)
    ∙ overlay-again bs x p c (ap (overlay bs x) (sym (if_false _ c e)) ∙ shows)
overlay-set_enabled (h ∷ bs) (suc i) x p b b' c c' at old new same shows =
    overlay-set_enabled bs i x p b b' _ _ at old new same shows

-- Where all that hide an address keep the same byte, it shows through them.
pub overlay-agree :
    (bs : List Breakpoint) (x p : ℕ)
    → ((j : ℕ) (b : Breakpoint) → get_elem? bs j ≡ some b → hides b x ≡ true → b.patch ≡ p)
    → overlay bs x (some p) ≡ some p
overlay-agree [] x p agree = refl
overlay-agree (b ∷ bs) x p agree = elim (Bool-cases (hides b x)) [
  | inl here ↦
      rw (here, agree 0 b refl here) (overlay-agree bs x p (λ j b' at e. agree (suc j) b' at e))
  | inr there ↦ rw there (overlay-agree bs x p (λ j b' at e. agree (suc j) b' at e))
]

-- What the program's memory holds at an address, as the debugger shows it.
abbrev pub view : {m : Mach} → MemoryLaws m → Debugger m → ℕ → Option ℕ
view laws d x = overlay d.breakpoints x (laws.byte d.world x)

-- An address that a 64-bit pointer can hold.
abbrev pub IsAddress : Breakpoint → Type 0
IsAddress b = b.address < 2 ^ 64

unpatch-get :
    (b : Breakpoint) (src size i : ℕ) (buffer : List ℕ)
    → IsAddress b
    → src + size ≤ 2 ^ 64
    → size < 2 ^ 31
    → size ≤ length buffer
    → i < size
    → get_elem? (unpatch b src size buffer) i
      ≡ (if hides b (src + i) then some b.patch else get_elem? buffer i)
unfolding unpatch hides
unpatch-get b src size i buffer a fits small room h = ground (
  arith,
  get_elem?-set_self buffer i b.patch,
  get_elem?-set_ne buffer {i = sub_u64 b.address src} {j = i} b.patch,
)

length-unpatch :
    (b : Breakpoint) (src size : ℕ) (buffer : List ℕ)
    → length (unpatch b src size buffer) ≡ length buffer
unfolding unpatch
length-unpatch b src size buffer = ground (arith, length-set buffer (sub_u64 b.address src) b.patch)

-- The loop over the breakpoints shows what lies under them.
pub length-unpatch_all :
    (bs : List Breakpoint) (src size : ℕ) (buffer : List ℕ)
    → length (unpatch_all bs src size buffer) ≡ length buffer
unfolding unpatch_all
length-unpatch_all [] src size buffer = refl
length-unpatch_all (b ∷ bs) src size buffer =
    length-unpatch_all bs src size (unpatch b src size buffer) ∙ length-unpatch b src size buffer

pub unpatch_all-get :
    (bs : List Breakpoint) (src size i : ℕ) (buffer : List ℕ)
    → All IsAddress bs
    → src + size ≤ 2 ^ 64
    → size < 2 ^ 31
    → size ≤ length buffer
    → i < size
    → get_elem? (unpatch_all bs src size buffer) i ≡ overlay bs (src + i) (get_elem? buffer i)
unfolding unpatch_all
unpatch_all-get [] src size i buffer valid fits small room h = refl
unpatch_all-get (b ∷ bs) src size i buffer valid fits small room h =
    unpatch_all-get bs src size i (unpatch b src size buffer) valid.1 fits small
      (omega (arith, length-unpatch b src size buffer)) h
    ∙ ap (overlay bs (src + i)) (unpatch-get b src size i buffer valid.0 fits small room h)
