-- ===== src/Session/Post.antt =====
-- Postconditions of calls that may still be running, and their rules.
use rustdbg.Prelude.{◌≡◌, refl, ◌∙◌, subst, Bool, true, false, Option, none, some, if◌then◌else◌}
use rustdbg.Mach.{Mach}
use rustdbg.Debugger.{Debugger, Run, pure, ◌>>=◌}
use rustdbg.Threads.{set_world}
use rustdbg.Session.{Onward}

module _ {m : Mach} where
  -- Of a call that has returned.
  abbrev pub After : {A : Type 0} → (A → Debugger m → Type 0) → Option (A × Debugger m) → Type 0
  After post none = Unit {0}
  After post (some (a, d)) = post a d

  pub After-bind :
      {A B : Type 0} (post : A → Debugger m → Type 0) (post' : B → Debugger m → Type 0)
      (r : Run m A) (k : A → Run m B) (d : Debugger m)
      → After post (r d)
      → ((a : A) (d' : Debugger m) → post a d' → After post' (k a d'))
      → After post' ((r >>= k) d)
  After-bind {A} {B} post post' r k d h next = go (r d) h
    where
      go :
          (o : Option (A × Debugger m))
          → After post o
          → After post' (elim o [ none ↦ none | some (a, d') ↦ k a d' ])
      go none h = tt
      go (some (a, d')) h = next a d' h

  pub After-returned :
      {A : Type 0} (post : A → Debugger m → Type 0) (o : Option (A × Debugger m)) {a : A}
      {d' : Debugger m}
      → o ≡ some (a, d')
      → After post o
      → post a d'
  After-returned post o e h = subst (After post) e h

  pub After-map :
      {A : Type 0} (post post' : A → Debugger m → Type 0) (o : Option (A × Debugger m))
      → ((a : A) (d : Debugger m) → post a d → post' a d)
      → After post o
      → After post' o
  After-map post post' none f h = tt
  After-map post post' (some (a, d)) f h = f a d h

  pub Onward-refl : (d : Debugger m) → Onward d d
  Onward-refl d = record {
    sound = λ s. s;
    threads = λ i p at. at;
    breakpoints = λ i b at. (b, at, refl, refl);
  }

  pub Onward-trans : {d d' d'' : Debugger m} → Onward d d' → Onward d' d'' → Onward d d''
  Onward-trans f g = record {
    sound = λ s. g.sound (f.sound s);
    threads = λ i p at. g.threads i p (f.threads i p at);
    breakpoints = λ i b at.
        let (b', at', address, callback) = f.breakpoints i b at in
        let (b'', at'', address', callback') = g.breakpoints i b' at' in
        (b'', at'', address' ∙ address, callback' ∙ callback);
  }

  -- The invariant says nothing of the world.
  pub Onward-world : (d : Debugger m) (w : m.World) → Onward d (set_world d w)
  Onward-world d w = record {
    sound = λ s. record {
      no_transient = s.no_transient;
      no_threads = s.no_threads;
      wide = s.wide;
      distinct = s.distinct;
    };
    threads = λ i p at. at;
    breakpoints = λ i b at. (b, at, refl, refl);
  }

  abbrev pub Keeps : {A : Type 0} → Run m A → Type 0
  Keeps r = (d : Debugger m) → After (λ _ d'. Onward d d') (r d)

  pub Keeps-pure : {A : Type 0} (a : A) → Keeps (pure a)
  Keeps-pure a d = Onward-refl d

  pub Keeps-bind :
      {A B : Type 0} (r : Run m A) (k : A → Run m B)
      → Keeps r
      → ((a : A) → Keeps (k a))
      → Keeps (r >>= k)
  Keeps-bind r k p q d =
      After-bind (λ _ d'. Onward d d') (λ _ d'. Onward d d') r k d (p d)
        λ a d' f.
          After-map (λ _ d''. Onward d' d'') (λ _ d''. Onward d d'') (k a d')
            (λ _ d'' g. Onward-trans f g) (q a d')

  -- Behind a change that keeps, a call that keeps.
  pub After-Onward :
      {A : Type 0} {d d' : Debugger m} (r : Run m A)
      → Onward d d'
      → Keeps r
      → After (λ _ d''. Onward d d'') (r d')
  After-Onward {d = d} {d' = d'} r f p =
      After-map (λ _ d''. Onward d' d'') (λ _ d''. Onward d d'') (r d')
        (λ _ d'' g. Onward-trans f g) (p d')

  pub Keeps-if :
      {A : Type 0} (b : Bool) (r k : Run m A) → Keeps r → Keeps k → Keeps (if b then r else k)
  Keeps-if true r k p q = p
  Keeps-if false r k p q = q
