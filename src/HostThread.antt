-- ===== src/HostThread.antt =====
-- lib/src/MBShared.cpp: MBThread, a thread of the debugger itself. The threads of the host are the
-- handles of those whose `run` has not returned.
pub mod Joined
use rustdbg.Prelude.{
  ℕ, ◌≡◌, ◌≢◌, Bool, true, false, not, ◌||◌, Option, none, some, List, [], ◌∷◌, ◌==◌, if◌then◌else◌,
}

-- `MBThread`; the handle 0 is none.
pub record MbThread : Type 0 where
  pub is_running : Bool
  pub thread : ℕ

-- The constructor.
unfoldable pub new_mb_thread : MbThread
new_mb_thread = record { is_running = false; thread = 0 }

-- The handle behind `pthread_create`, which sets it where it succeeds.
abbrev pub handle_after : Option ℕ → ℕ → ℕ
handle_after none old = old
handle_after (some id) old = id

-- `start`, for what `pthread_create` gives.
unfoldable pub start : Option ℕ → MbThread → MbThread
start created t = record { is_running = true; thread = handle_after created t.thread }

-- `join`: the handle that it waits for, and the object behind it.
unfoldable pub join : MbThread → Option ℕ × MbThread
join t =
    (if not (t.thread == 0) then some t.thread else none, record { is_running = false; thread = 0 })

-- The object and the threads whose `run` has not returned.
pub record Host : Type 0 where
  pub object : MbThread
  pub alive : List ℕ

abbrev pub is_alive : ℕ → List ℕ → Bool
is_alive id [] = false
is_alive id (x ∷ xs) = (x == id) || is_alive id xs

abbrev pub without : ℕ → List ℕ → List ℕ
without id [] = []
without id (x ∷ xs) = if x == id then xs else x ∷ without id xs

abbrev pub with_created : Option ℕ → List ℕ → List ℕ
with_created none alive = alive
with_created (some id) alive = id ∷ alive

abbrev pub IsHandle : Option ℕ → Type 0
IsHandle none = Unit
IsHandle (some id) = id ≢ 0

abbrev pub HasReturned : Option ℕ → List ℕ → Type 0
HasReturned none alive = Unit
HasReturned (some id) alive = is_alive id alive ≡ false

-- What can happen where a client only starts an object that is not running. `pthread_join` returns
-- once the thread has.
pub data HostStep (h : Host) : Host → Type 0 where
  starts :
      (created : Option ℕ)
      → h.object.is_running ≡ false
      → IsHandle created
      → HostStep h
          (record { object = start created h.object; alive = with_created created h.alive })
  returns : (id : ℕ) → HostStep h (record h { alive = without id h.alive })
  joins :
      HasReturned (join h.object).0 h.alive → HostStep h (record h { object = (join h.object).1 })

pub data HostReach : Host → Type 0 where
  created : HostReach (record { object = new_mb_thread; alive = [] })
  followed : {h h' : Host} → HostReach h → HostStep h h' → HostReach h'
