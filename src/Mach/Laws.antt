-- ===== src/Mach/Laws.antt =====
-- The documented behaviour of the system calls that the theorems rely on, through what can be
-- observed of the debugged task: its memory, and the suspend counts of its threads and of itself.
use rustdbg.Prelude.{
  ap, refl, none, suc, ℕ, ◌+◌, ◌<◌, ◌≡◌, ◌≢◌, true, false, Option, some, List, [], ◌∷◌, length,
  get_elem?,
}
use mathlib.Core.Option
use rustdbg.Mach.{Mach, ThreadInfo}

-- The memory calls, over the bytes of the task; `none` is an address that is not mapped.
pub record MemoryLaws (m : Mach) : Type 1 where
  pub byte : m.World → ℕ → Option ℕ
  pub read_length :
      (w : m.World) (a n : ℕ) {bs : List ℕ} → m.vm_read_overwrite w a n ≡ some bs → length bs ≡ n
  pub read_bytes :
      (w : m.World) (a n i : ℕ) {bs : List ℕ}
      → m.vm_read_overwrite w a n ≡ some bs
      → i < n
      → get_elem? bs i ≡ byte w (a + i)
  -- A mapped byte can be read.
  pub read_mapped :
      (w : m.World) (a : ℕ) {x : ℕ} → byte w a ≡ some x → m.vm_read_overwrite w a 1 ≡ some (x ∷ [])
  -- Writing one byte: a call that succeeds stores it and changes no other byte, one that fails
  -- changes nothing.
  pub write_at :
      (w : m.World) (a b : ℕ)
      → (m.vm_write w a (b ∷ [])).0 ≡ true
      → byte (m.vm_write w a (b ∷ [])).1 a ≡ some b
  pub write_other :
      (w : m.World) (a b x : ℕ) → a ≢ x → byte (m.vm_write w a (b ∷ [])).1 x ≡ byte w x
  pub write_failed :
      (w : m.World) (a b x : ℕ)
      → (m.vm_write w a (b ∷ [])).0 ≡ false
      → byte (m.vm_write w a (b ∷ [])).1 x ≡ byte w x
  -- Changing the protection changes no byte, and a mapped byte can then be written.
  pub protect_keeps : (w : m.World) (a n x : ℕ) → byte (m.vm_protect w a n).1 x ≡ byte w x
  pub protect_opens :
      (w : m.World) (a b : ℕ) {x : ℕ}
      → byte w a ≡ some x
      → (m.vm_write (m.vm_protect w a 1).1 a (b ∷ [])).0 ≡ true

-- The suspend count that `thread_info` answers for a thread; none for a thread that is gone.
abbrev pub suspend_count : (m : Mach) → m.World → ℕ → Option ℕ
suspend_count m w t = Option.map (λ (i : ThreadInfo). i.suspend_count) (m.thread_info w t)

-- The suspend counts: each call moves the count of its own thread by one, and no other.
pub record SuspendLaws (m : Mach) : Type 0 where
  pub abort_keeps :
      (w : m.World) (t u : ℕ) → suspend_count m (m.thread_abort w t) u ≡ suspend_count m w u
  pub suspend_own :
      (w : m.World) (t c : ℕ)
      → suspend_count m w t ≡ some c
      → suspend_count m (m.thread_suspend w t).1 t ≡ some (suc c)
  pub suspend_other :
      (w : m.World) (t u : ℕ)
      → t ≢ u
      → suspend_count m (m.thread_suspend w t).1 u ≡ suspend_count m w u
  pub resume_own :
      (w : m.World) (t c : ℕ)
      → suspend_count m w t ≡ some (suc c)
      → suspend_count m (m.thread_resume w t).1 t ≡ some c
  pub resume_other :
      (w : m.World) (t u : ℕ)
      → t ≢ u
      → suspend_count m (m.thread_resume w t).1 u ≡ suspend_count m w u
  -- The task has a count of its own, which only `task_resume` moves here.
  pub task_resume_own :
      (w : m.World) (c : ℕ) → m.task_info w ≡ some (suc c) → m.task_info (m.task_resume w) ≡ some c
  pub task_resume_keeps :
      (w : m.World) (u : ℕ) → suspend_count m (m.task_resume w) u ≡ suspend_count m w u
  -- Giving back a list of threads frees memory of the debugger, and touches no thread.
  pub deallocate_keeps :
      (w : m.World) (u : ℕ) → suspend_count m (m.vm_deallocate w).1 u ≡ suspend_count m w u
  pub abort_task : (w : m.World) (t : ℕ) → m.task_info (m.thread_abort w t) ≡ m.task_info w
  pub suspend_task : (w : m.World) (t : ℕ) → m.task_info (m.thread_suspend w t).1 ≡ m.task_info w
  pub resume_task : (w : m.World) (t : ℕ) → m.task_info (m.thread_resume w t).1 ≡ m.task_info w

-- A thread with a count has an answer of `thread_info`.
pub suspend_count-info :
    (m : Mach) (w : m.World) (t c : ℕ)
    → suspend_count m w t ≡ some c
    → (info : ThreadInfo) × (m.thread_info w t ≡ some info) × (info.suspend_count ≡ c)
suspend_count-info m w t c e = go (m.thread_info w t) refl
  where
    go :
        (o : Option ThreadInfo)
        → m.thread_info w t ≡ o
        → (info : ThreadInfo) × (m.thread_info w t ≡ some info) × (info.suspend_count ≡ c)
    go none gone = absurd (cc (ap (Option.map (λ (i : ThreadInfo). i.suspend_count)) gone, e))
    go (some info) got =
        (info, got, cc (ap (Option.map (λ (i : ThreadInfo). i.suspend_count)) got, e))
