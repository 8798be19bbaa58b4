-- ===== src/Threads/Wrap.antt =====
-- `WRAP_MACH` ends, and what the updates of a thread and its commits leave.
use rustdbg.Prelude.{
  ℕ, zero, suc, ◌≤◌, ◌<◌, ◌≡◌, refl, ◌∙◌, ◌≢◌, inl, inr, Bool, true, Option, none, some, arith,
  if_true, if_false, Bool-cases,
}
use rustdbg.Mach.{Mach, Kern, success, aborted, failure, ThreadState32}
use rustdbg.Debugger.{Thread, Debugger, bind_some}
use rustdbg.Threads.{
  setting, succeeded, put_info, put_state64, put_state32, set_world, wrap_mach, mach_commit_thread,
  mach_update_thread,
}

-- A call is aborted fewer than `patience` times in a row.
pub record IsPatient {W A : Type 0} (patience : ℕ) (call : W → Kern × A × W) : Type 0 where
  pub aborts : W → ℕ
  pub below : (w : W) → aborts w < patience
  pub falls : (w : W) → (call w).0 ≡ aborted → aborts (call w).2 < aborts w

-- The calls that the code wraps are.
pub record PatienceLaws (m : Mach) (patience : ℕ) : Type 0 where
  pub get_state : (t : ℕ) → IsPatient patience (λ w. m.thread_get_state w t)
  pub get_state64 : (t : ℕ) → IsPatient patience (λ w. m.thread_get_state64 w t)
  pub set_state :
      (t : ℕ) (s : ThreadState32) → IsPatient patience (setting (λ w. m.thread_set_state w t s))
  pub find_pid : IsPatient patience (setting m.pid_for_task)

abbrev pub answer : {A : Type 0} → Kern → A → Option A
answer success a = some a
answer aborted a = none
answer failure a = none

-- What `WRAP_MACH` hands over: the answer of its last call, which was not aborted.
pub record IsLast {W A : Type 0} (call : W → Kern × A × W) (r : Option A) (w' : W) : Type 0 where
  pub before : W
  pub world : (call before).2 ≡ w'
  pub result : r ≡ answer (call before).0 (call before).1
  pub settled : (call before).0 ≢ aborted

module _ (m : Mach) where
  wrap_mach-ends :
      {A : Type 0} {patience : ℕ} (call : m.World → Kern × A × m.World)
      (p : IsPatient patience call) (fuel : ℕ) (d : Debugger m)
      → p.aborts d.world < fuel
      → (r : Option A) × (w' : m.World) × (wrap_mach m fuel call d ≡ some (r, set_world d w'))
        × IsLast call r w'
  unfolding wrap_mach
  wrap_mach-ends call p zero d h = elim h [ ]
  wrap_mach-ends {A} call p (suc fuel) d h = go (call d.world).0 refl λ e.
      wrap_mach-ends call p fuel (set_world d (call d.world).2) (omega (arith, p.falls d.world e))
    where
      go :
          (kr : Kern)
          → (call d.world).0 ≡ kr
          → ((call d.world).0 ≡ aborted
              → (r : Option A) × (w' : m.World) × (wrap_mach m fuel call
                    (set_world d (call d.world).2)
                  ≡ some (r, set_world d w'))
                × IsLast call r w')
          → (r : Option A) × (w' : m.World) × (wrap_mach m (suc fuel) call d
              ≡ some (r, set_world d w'))
            × IsLast call r w'
      go success e rest = (
        some (call d.world).1,
        (call d.world).2,
        rw (e, wrap_mach),
        record { before = d.world; world = refl; result = rw e; settled = ground arith },
      )
      go failure e rest = (
        none,
        (call d.world).2,
        rw (e, wrap_mach),
        record { before = d.world; world = refl; result = rw e; settled = ground arith },
      )
      go aborted e rest = let (r, w', runs, last) = rest e in (r, w', rw (e, wrap_mach) runs, last)

  -- With fuel for the caller's patience the loop ends, and changes nothing but the world.
  pub wrap_mach-IsLast :
      {A : Type 0} {patience : ℕ} (call : m.World → Kern × A × m.World)
      → IsPatient patience call
      → (fuel : ℕ) (d : Debugger m) → patience ≤ fuel
      → (r : Option A) × (w' : m.World) × (wrap_mach m fuel call d ≡ some (r, set_world d w'))
        × IsLast call r w'
  wrap_mach-IsLast call p fuel d h = wrap_mach-ends call p fuel d (omega (arith, p.below d.world))

  module _ {patience : ℕ} (laws : PatienceLaws m patience) where
    -- A commit ends, and changes nothing but the world.
    pub mach_commit_thread-ends :
        (fuel : ℕ) (t : Thread) (d : Debugger m)
        → patience ≤ fuel
        → (done : Bool) × (w' : m.World) × (mach_commit_thread m fuel t d
            ≡ some (done, set_world d w'))
    unfolding mach_commit_thread
    mach_commit_thread-ends fuel t d h =
        let (r, w', runs, _) =
          wrap_mach-IsLast (setting (λ w. m.thread_set_state w t.thread t.state32))
            (laws.set_state t.thread t.state32) fuel d h in
        (
          succeeded r,
          w',
          bind_some (wrap_mach m fuel (setting (λ w. m.thread_set_state w t.thread t.state32))) _ d
              runs,
        )

    -- An update ends, keeps the port, and changes the registers of the process's width only: for a
    -- process marked as 64 bits, `state32` stays what it was.
    pub mach_update_thread-ends :
        (fuel : ℕ) (t : Thread) (d : Debugger m)
        → patience ≤ fuel
        → (t' : Thread) × (w' : m.World) × (mach_update_thread m fuel t d
            ≡ some (t', set_world d w'))
          × (t'.thread ≡ t.thread)
          × (d.process.is_64_bit ≡ true → t'.state32 ≡ t.state32)
    unfolding mach_update_thread
    mach_update_thread-ends fuel t d h = elim (Bool-cases d.process.is_64_bit) [
      | inl wide ↦
          let (r, w', runs, _) =
            wrap_mach-IsLast (λ w. m.thread_get_state64 w t.thread) (laws.get_state64 t.thread) fuel
              d h in
          let t' = put_info t (m.thread_info d.world t.thread) in
          (
            put_state64 t' r,
            w',
            if_true _ _ wide
                ∙ bind_some (wrap_mach m fuel (λ w. m.thread_get_state64 w t.thread)) _ d runs,
            ground arith,
            λ _. ground arith,
          )
      | inr narrow ↦
          let (r, w', runs, _) =
            wrap_mach-IsLast (λ w. m.thread_get_state w t.thread) (laws.get_state t.thread) fuel d
              h in
          let t' = put_info t (m.thread_info d.world t.thread) in
          (
            put_state32 t' r,
            w',
            if_false _ _ narrow
                ∙ bind_some (wrap_mach m fuel (λ w. m.thread_get_state w t.thread)) _ d runs,
            ground arith,
            λ wide. absurd (cc),
          )
    ]
