-- ===== src/Tests/Hosts.antt =====
-- An MBThread at concrete inputs.
use rustdbg.Prelude.{ℕ, ◌≡◌, refl, true, false, some, [], ◌∷◌, arith}
use rustdbg.HostThread.{
  new_mb_thread, start, join, Host, is_alive, HostReach, created, followed, starts, returns, joins,
}
use rustdbg.HostThread.Joined.{HostReach-joined}

-- Started, ended and joined, and started again.
abbrev again : Host
again = record { object = start (some 8) (join (start (some 7) new_mb_thread)).1; alive = 8 ∷ [] }

again-HostReach : HostReach again
unfolding start join new_mb_thread
again-HostReach =
    followed
      (followed (followed (followed created (starts (some 7) refl (λ e. grind arith))) (returns 7))
        (joins refl))
      (starts (some 8) refl (λ e. grind arith))

HostReach-joined_example :
    (again.object.is_running ≡ false → (again.alive ≡ []) × (again.object.thread ≡ 0))
    × ((id : ℕ) → is_alive id (8 ∷ []) ≡ true → again.object.thread ≡ id)
HostReach-joined_example = HostReach-joined again-HostReach
