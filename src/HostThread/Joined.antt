-- ===== src/HostThread/Joined.antt =====
-- What holds of an MBThread that is only started while it is not running.
use rustdbg.Prelude.{
  ℕ, ◌≡◌, refl, ap, ◌∙◌, subst, ◌≢◌, inl, inr, true, false, not, none, some, [], ◌∷◌, arith, ◌==◌,
  if◌then◌else◌, if_true, if_false, Bool-cases,
}
use rustdbg.HostThread.{
  new_mb_thread, start, join, Host, is_alive, without, HasReturned, HostStep, starts, returns,
  joins, HostReach, created, followed,
}

-- At most the thread of the handle lives, and none where the object is not running.
data Tracked : Host → Type 0 where
  idle : {h : Host} → h.alive ≡ [] → (h.object.is_running ≡ false → h.object.thread ≡ 0) → Tracked h
  busy :
      {h : Host}
      → h.alive ≡ h.object.thread ∷ []
      → h.object.is_running ≡ true
      → h.object.thread ≢ 0
      → Tracked h

without-Tracked :
    (h : Host) (id : ℕ) → Tracked h → Tracked (record h { alive = without id h.alive })
without-Tracked h id (idle none_of zero_if) = idle (ap (without id) none_of) zero_if
without-Tracked h id (busy one on ne) = elim (Bool-cases (h.object.thread == id)) [
  | inl same ↦ idle (ap (without id) one ∙ if_true _ _ same) (λ off. absurd (cc (on, off)))
  | inr other ↦ busy (ap (without id) one ∙ if_false _ _ other) on ne
]

step-Tracked : {h h' : Host} → HostStep h h' → Tracked h → Tracked h'
unfolding start join
step-Tracked {h} (starts none off handle) (idle none_of zero_if) =
    idle none_of (λ off'. absurd (cc (off')))
step-Tracked {h} (starts (some id) off handle) (idle none_of zero_if) =
    busy (ap (λ xs. id ∷ xs) none_of) refl handle
step-Tracked {h} (starts c off handle) (busy one on ne) = absurd (cc (on, off))
step-Tracked {h} (returns id) tracked = without-Tracked h id tracked
step-Tracked {h} (joins returned) (idle none_of zero_if) = idle none_of (λ _. refl)
step-Tracked {h} (joins returned) (busy one on ne) =
    let t = h.object.thread in
    let handle : (t == 0) ≡ false = ground (arith, ne) in
    let ended : is_alive t h.alive ≡ false =
      subst (λ b. HasReturned (if not b then some t else none) h.alive) handle returned in
    let alive : is_alive t h.alive ≡ true = ap (is_alive t) one ∙ ground arith in
    absurd (cc (ended, alive))

HostReach-Tracked : {h : Host} → HostReach h → Tracked h
unfolding new_mb_thread
HostReach-Tracked created = idle refl (λ _. refl)
HostReach-Tracked (followed reached step) = step-Tracked step (HostReach-Tracked reached)

-- Where an MBThread is only started while it is not running, whatever happens: an object that is not
-- running has no thread left, and no handle; and otherwise no thread lives but the one it can join.
pub HostReach-joined :
    {h : Host}
    → HostReach h
    → (h.object.is_running ≡ false → (h.alive ≡ []) × (h.object.thread ≡ 0))
      × ((id : ℕ) → is_alive id h.alive ≡ true → h.object.thread ≡ id)
HostReach-joined {h} reached = go h (HostReach-Tracked reached)
  where
    go :
        (h : Host)
        → Tracked h
        → (h.object.is_running ≡ false → (h.alive ≡ []) × (h.object.thread ≡ 0))
          × ((id : ℕ) → is_alive id h.alive ≡ true → h.object.thread ≡ id)
    go h (idle none_of zero_if) = (
      (λ off. (none_of, zero_if off)),
      (λ id there. absurd (cc (ap (is_alive id) none_of, there))),
    )
    go h (busy one on ne) =
        ((λ off. absurd (cc (on, off))), (λ id there. ground (arith, ap (is_alive id) one, there)))
