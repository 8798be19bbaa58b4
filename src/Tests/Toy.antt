-- ===== src/Tests/Toy.antt =====
-- A small operating system: a memory that may be sealed against writing, threads with suspend counts,
-- and a list of statuses for `waitpid`.
use rustdbg.Prelude.{
  ℕ, zero, suc, ◌+◌, ◌-◌, ◌<◌, ◌≡◌, refl, sym, ap, ◌∙◌, ◌≢◌, Bool, true, false, not, ◌&&◌, Option,
  none, some, List, [], ◌∷◌, arith, ltb, leb, ◌==◌, if◌then◌else◌, length, get_elem?,
}
use mathlib.Core.Option
use rustdbg.Mach.{Mach, success, aborted, ThreadState32, ThreadRunState, Wait}
use rustdbg.Mach.Laws.{MemoryLaws, suspend_count, SuspendLaws}
use rustdbg.Threads.Wrap.{PatienceLaws}

pub record ToyWorld : Type 0 where
  pub memory : ℕ → Option ℕ
  pub sealed : Bool
  pub counts : ℕ → Option ℕ
  pub ports : List ℕ
  pub task_count : ℕ
  pub registers : ℕ → ThreadState32
  pub waits : List Wait

abbrev pub consed : Option ℕ → Option (List ℕ) → Option (List ℕ)
consed none _ = none
consed (some x) none = none
consed (some x) (some xs) = some (x ∷ xs)

abbrev pub collect : (ℕ → Option ℕ) → ℕ → ℕ → Option (List ℕ)
collect f a zero = some []
collect f a (suc n) = consed (f a) (collect f (a + 1) n)

abbrev pub written : (ℕ → Option ℕ) → ℕ → List ℕ → ℕ → Option ℕ
written f a bs x = if leb a x && ltb (x - a) (length bs) then get_elem? bs (x - a) else f x

abbrev pub is_mapped : Option ℕ → Bool
is_mapped none = false
is_mapped (some _) = true

abbrev pub write_toy : ToyWorld → ℕ → List ℕ → Bool × ToyWorld
write_toy w a bs =
    if not w.sealed && is_mapped (w.memory a)
    then (true, record w { memory = written w.memory a bs })
    else (false, w)

abbrev pub move : (ℕ → ℕ) → ToyWorld → ℕ → ToyWorld
move f w t = record w { counts = λ x. if t == x then Option.map f (w.counts x) else w.counts x }

abbrev pub next_wait : ToyWorld → Wait × ToyWorld
next_wait w = elim w.waits [ [] ↦ (Wait.failed, w) | e ∷ es ↦ (e, record w { waits = es }) ]

abbrev pub toy : Mach
toy = record {
  World = ToyWorld;
  vm_read_overwrite = λ w a n. collect w.memory a n;
  vm_write = write_toy;
  vm_protect = λ w a n. (true, record w { sealed = false });
  task_threads = λ w. some w.ports;
  vm_deallocate = λ w. (true, w);
  thread_info = λ w t.
      Option.map (λ c. record { run_state = ThreadRunState.waiting; suspend_count = c })
        (w.counts t);
  thread_abort = λ w t. w;
  thread_suspend = λ w t. (true, move suc w t);
  thread_resume = λ w t. (true, move (λ n. n - 1) w t);
  thread_get_state = λ w t. (success, w.registers t, w);
  thread_get_state64 = λ w t. (success, record { registers = [] }, w);
  thread_set_state =
      λ w t s. (success, record w { registers = λ x. if t == x then s else w.registers x });
  task_info = λ w. some w.task_count;
  task_resume = λ w. record w { task_count = w.task_count - 1 };
  pid_for_task = λ w. (success, w);
  waitpid = next_wait;
  pt_continue = λ w s. (0, w);
  sigtrap = 5;
}

consed-some :
    (o : Option ℕ) (r : Option (List ℕ)) {bs : List ℕ}
    → consed o r ≡ some bs
    → (x : ℕ) × (xs : List ℕ) × (o ≡ some x) × (r ≡ some xs) × (bs ≡ x ∷ xs)
consed-some none r e = cc
consed-some (some x) none e = cc
consed-some (some x) (some xs) e = (x, xs, refl, refl, cc)

pub length-collect :
    (f : ℕ → Option ℕ) (a n : ℕ) {bs : List ℕ} → collect f a n ≡ some bs → length bs ≡ n
length-collect f a zero {bs} e = let nothing : [] ≡ bs = cc in ap length (sym nothing)
length-collect f a (suc n) e =
    let (x, xs, _, rest, same) = consed-some (f a) (collect f (a + 1) n) e in
    ap length same ∙ ap suc (length-collect f (a + 1) n rest)

pub collect-get :
    (f : ℕ → Option ℕ) (a n i : ℕ) {bs : List ℕ}
    → collect f a n ≡ some bs
    → i < n
    → get_elem? bs i ≡ f (a + i)
collect-get f a zero i e h = elim h [ ]
collect-get f a (suc n) zero e h =
    let (x, xs, first, rest, same) = consed-some (f a) (collect f (a + 1) n) e in
    ap (λ bs. get_elem? bs 0) same ∙ sym first ∙ ap f (omega arith)
collect-get f a (suc n) (suc i) e h =
    let (x, xs, first, rest, same) = consed-some (f a) (collect f (a + 1) n) e in
    ap (λ bs. get_elem? bs (suc i)) same
    ∙ collect-get f (a + 1) n i rest (omega arith)
    ∙ ap f (omega arith)

pub toy_write_at :
    (w : ToyWorld) (a b : ℕ)
    → (write_toy w a (b ∷ [])).0 ≡ true
    → (write_toy w a (b ∷ [])).1.memory a ≡ some b
toy_write_at w a b e = ground arith

pub toy_write_other :
    (w : ToyWorld) (a b x : ℕ) → a ≢ x → (write_toy w a (b ∷ [])).1.memory x ≡ w.memory x
toy_write_other w a b x ne = ground arith

pub toy_write_failed :
    (w : ToyWorld) (a b x : ℕ)
    → (write_toy w a (b ∷ [])).0 ≡ false
    → (write_toy w a (b ∷ [])).1.memory x ≡ w.memory x
toy_write_failed w a b x e = ground arith

-- Every law of the memory holds of it.
abbrev pub toy_memory : MemoryLaws toy
toy_memory = record {
  byte = λ w. w.memory;
  read_length = λ w a n e. length-collect w.memory a n e;
  read_bytes = λ w a n i e h. collect-get w.memory a n i e h;
  read_mapped = λ w a e. rw e;
  write_at = λ w a b e. toy_write_at w a b e;
  write_other = λ w a b x ne. toy_write_other w a b x ne;
  write_failed = λ w a b x e. toy_write_failed w a b x e;
  protect_keeps = λ w a n x. refl;
  protect_opens = λ w a b e. rw e;
}

pub counted : (w : ToyWorld) (t c : ℕ) → suspend_count toy w t ≡ some c → w.counts t ≡ some c
counted w t c e = ground arith

pub moved_own :
    (f : ℕ → ℕ) (w : ToyWorld) (t c : ℕ)
    → w.counts t ≡ some c
    → suspend_count toy (move f w t) t ≡ some (f c)
moved_own f w t c e = ground arith

pub moved_other :
    (f : ℕ → ℕ) (w : ToyWorld) (t u : ℕ)
    → t ≢ u
    → suspend_count toy (move f w t) u ≡ suspend_count toy w u
moved_other f w t u ne = ground arith

pub task_moved :
    (w : ToyWorld) (c : ℕ)
    → ◌≡◌ {A = Option ℕ} (some w.task_count) (some (suc c))
    → ◌≡◌ {A = Option ℕ} (some (w.task_count - 1)) (some c)
task_moved w c e = ground arith

-- Every law of the suspend counts, too.
abbrev pub toy_suspend : SuspendLaws toy
toy_suspend = record {
  abort_keeps = λ w t u. refl;
  suspend_own = λ w t c e. moved_own suc w t c (counted w t c e);
  suspend_other = λ w t u ne. moved_other suc w t u ne;
  resume_own =
      λ w t c e. moved_own (λ n. n - 1) w t (suc c) (counted w t (suc c) e) ∙ ap some (omega arith);
  resume_other = λ w t u ne. moved_other (λ n. n - 1) w t u ne;
  task_resume_own = λ w c e. task_moved w c e;
  task_resume_keeps = λ w u. refl;
  deallocate_keeps = λ w u. refl;
  abort_task = λ w t. refl;
  suspend_task = λ w t. refl;
  resume_task = λ w t. refl;
}

pub success-ne-aborted : success ≢ aborted
success-ne-aborted = grind arith

abbrev pub toy_patience : PatienceLaws toy 1
toy_patience = record {
  get_state = λ t. record {
    aborts = λ w. 0;
    below = λ w. omega arith;
    falls = λ w e. absurd (success-ne-aborted e);
  };
  get_state64 = λ t. record {
    aborts = λ w. 0;
    below = λ w. omega arith;
    falls = λ w e. absurd (success-ne-aborted e);
  };
  set_state = λ t s. record {
    aborts = λ w. 0;
    below = λ w. omega arith;
    falls = λ w e. absurd (success-ne-aborted e);
  };
  find_pid = record {
    aborts = λ w. 0;
    below = λ w. omega arith;
    falls = λ w e. absurd (success-ne-aborted e);
  };
}
