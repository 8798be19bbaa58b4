-- ===== src/Code/Settle.antt =====
-- `loadSymbols` settles the dylibs of every file it loads, and ends where finitely many names can be
-- parsed.
use rustdbg.Prelude.{
  ℕ, zero, suc, ◌≤◌, ◌<◌, ◌≡◌, refl, sym, ap, ◌∙◌, subst, ◌⊎◌, inl, inr, Bool, true, false, Option,
  none, some, List, [], ◌∷◌, ◌++◌, arith, ltb, ◌==◌, Bool-cases, Option-cases, length, get_elem?,
  length-append, get_elem?-append_left, get_elem?-append_length, get_elem?-lt, All,
}
use mathlib.Core.List.{append_assoc, append-nil}
use rustdbg.Code.{MachFile, named, Binaries, is_loaded, load_each, load_symbols}
use rustdbg.Code.Load.{
  Extends, Extends-append, names_have, missing, missing-length, missing-Extends, missing-fewer,
  strcmp_equal_refl, is_loaded-append,
}

module _ (parse : Binaries) where
  -- A dylib is settled if it is loaded or cannot be parsed.
  abbrev pub Settled : List MachFile → List ℕ → Type 0
  Settled fs n = (is_loaded fs n ≡ true) ⊎ (parse n ≡ none)

  -- What a load leaves of a list of files: the files of before in their places, and behind them new
  -- ones whose dylibs are settled.
  pub record Loaded (fs fs' : List MachFile) : Type 0 where
    pub added : List MachFile
    pub grows : fs' ≡ fs ++ added
    pub settled :
        (i : ℕ) (f : MachFile)
        → length fs ≤ i
        → get_elem? fs' i ≡ some f
        → All (Settled fs') f.dylibs

  Loaded-Extends : (fs fs' : List MachFile) → Loaded fs fs' → Extends fs fs'
  Loaded-Extends fs fs' l = subst (λ gs. Extends fs gs) (sym l.grows) (Extends-append fs l.added)

  All-Settled :
      (fs fs' : List MachFile)
      → Extends fs fs'
      → (ns : List (List ℕ)) → All (Settled fs) ns
      → All (Settled fs') ns
  All-Settled fs fs' more [] h = tt
  All-Settled fs fs' more (n ∷ ns) (inl e, hs) = (inl (more n e), All-Settled fs fs' more ns hs)
  All-Settled fs fs' more (n ∷ ns) (inr e, hs) = (inr e, All-Settled fs fs' more ns hs)

  Loaded-refl : (fs : List MachFile) → Loaded fs fs
  Loaded-refl fs = record {
    added = [];
    grows = sym (append-nil fs);
    settled = λ i f past at. absurd (omega (arith, get_elem?-lt fs i at));
  }

  Loaded-trans : (fs fs' fs'' : List MachFile) → Loaded fs fs' → Loaded fs' fs'' → Loaded fs fs''
  Loaded-trans fs fs' fs'' l k = record {
    added = l.added ++ k.added;
    grows = k.grows ∙ ap (λ gs. gs ++ k.added) l.grows ∙ append_assoc fs l.added k.added;
    settled = λ i f past at. split i f past at;
  }
    where
      split :
          (i : ℕ) (f : MachFile)
          → length fs ≤ i
          → get_elem? fs'' i ≡ some f
          → All (Settled fs'') f.dylibs
      split i f past at = elim (Bool-cases (ltb i (length fs'))) [
        | inl old ↦
            let at' : get_elem? fs' i ≡ some f =
              sym (get_elem?-append_left fs' k.added i (ground arith))
              ∙ ap (λ gs. get_elem? gs i) (sym k.grows)
              ∙ at in
            All-Settled fs' fs'' (Loaded-Extends fs' fs'' k) f.dylibs (l.settled i f past at')
        | inr new ↦ k.settled i f (ground arith) at
      ]

  -- What a load of a name leaves, and that it is then settled.
  abbrev Settles : Option (Bool × List MachFile) → List MachFile → List ℕ → Type 0
  Settles o fs name =
      (done : Bool) × (fs' : List MachFile) × (o ≡ some (done, fs'))
      × Loaded fs fs'
      × Settled fs' name

  -- The loop, around a load that does so on lists with few enough missing names.
  load_each-Settles :
      (us : List (List ℕ)) (bound : ℕ)
      (load : List MachFile → List ℕ → Option (Bool × List MachFile))
      → ((fs : List MachFile) (name : List ℕ)
          → is_loaded fs name ≡ false
          → missing us fs < bound
          → Settles (load fs name) fs name)
      → (names : List (List ℕ)) (fs : List MachFile) → missing us fs < bound
      → (fs' : List MachFile) × (load_each load fs names ≡ some fs')
        × Loaded fs fs'
        × All (Settled fs') names
  unfolding load_each
  load_each-Settles us bound load step [] fs few = (fs, refl, Loaded-refl fs, tt)
  load_each-Settles us bound load step (name ∷ names) fs few =
      elim (Bool-cases (is_loaded fs name)) [
        | inl old ↦
            let (fs', runs, loaded, all) = load_each-Settles us bound load step names fs few in
            (fs', rw old runs, loaded, (inl (Loaded-Extends fs fs' loaded name old), all))
        | inr new ↦
            let (done, fs1, runs1, loaded1, settled1) = step fs name new few in
            let more = Loaded-Extends fs fs1 loaded1 in
            let (fs', runs, loaded, all) =
              load_each-Settles us bound load step names fs1
                (omega (arith, missing-Extends us fs fs1 more)) in
            (
              fs',
              rw (new, runs1) runs,
              Loaded-trans fs fs1 fs' loaded1 loaded,
              (
                (All-Settled fs1 fs' (Loaded-Extends fs1 fs' loaded) (name ∷ []) (settled1, tt)).0,
                all,
              ),
            )
      ]

  -- The file that a load adds first, and the ones its loop adds.
  Loaded-first :
      (fs fs' : List MachFile) (f : MachFile)
      → Loaded (fs ++ f ∷ []) fs'
      → All (Settled fs') f.dylibs
      → Loaded fs fs'
  Loaded-first fs fs' f l all = record {
    added = f ∷ l.added;
    grows = l.grows ∙ append_assoc fs (f ∷ []) l.added;
    settled = λ i g past at. split i g past at;
  }
    where
      split :
          (i : ℕ) (g : MachFile)
          → length fs ≤ i
          → get_elem? fs' i ≡ some g
          → All (Settled fs') g.dylibs
      split i g past at = elim (Bool-cases (length fs == i)) [
        | inl same ↦
            let here : get_elem? fs' (length fs) ≡ some f =
              ap (λ gs. get_elem? gs (length fs)) (l.grows ∙ append_assoc fs (f ∷ []) l.added)
              ∙ get_elem?-append_length fs f l.added in
            let place : length fs ≡ i = ground arith in
            let fg : f ≡ g = cc (here, ap (λ j. get_elem? fs' j) place, at) in
            subst (λ (h : MachFile). All (Settled fs') h.dylibs) fg all
        | inr differs ↦ l.settled i g (ground (arith, length-append fs (f ∷ []))) at
      ]

  -- Where every name that can be parsed is one of a list, a load of a name that is not loaded, on
  -- fuel above the number of those that are missing, ends; the files of before stay in their places,
  -- and the dylibs of the new ones are loaded or cannot be parsed, and so is the name.
  load_symbols-Settles :
      (us : List (List ℕ))
      → ((n : List ℕ) → (parse n ≡ none) ⊎ (names_have us n ≡ true))
      → (depth : ℕ) (fs : List MachFile) (name : List ℕ) → is_loaded fs name ≡ false
      → missing us fs < depth
      → Settles (load_symbols parse depth fs name) fs name
  unfolding load_symbols
  load_symbols-Settles us covers zero fs name new few = elim few [ ]
  load_symbols-Settles us covers (suc depth) fs name new few = elim (Option-cases (parse name)) [
    | inl e ↦ (false, fs, rw (e, load_symbols), Loaded-refl fs, inr e)
    | inr (file, e) ↦
        let f = named name file in
        let more = Extends-append fs (f ∷ []) in
        let there : is_loaded (fs ++ f ∷ []) name ≡ true =
          is_loaded-append fs f name ∙ ground (arith, strcmp_equal_refl name) in
        let listed : names_have us name ≡ true = known name e in
        let fewer = missing-fewer us name fs (fs ++ f ∷ []) more listed new there in
        let (fs', runs, loaded, all) =
          load_each-Settles us depth (load_symbols parse depth)
            (λ gs n. load_symbols-Settles us covers depth gs n) file.dylibs (fs ++ f ∷ [])
            (omega arith) in
        (
          true,
          fs',
          rw (e, runs, load_symbols),
          Loaded-first fs fs' f loaded all,
          inl (Loaded-Extends (fs ++ f ∷ []) fs' loaded name there),
        )
  ]
    where
      known : (name : List ℕ) {file : MachFile} → parse name ≡ some file → names_have us name ≡ true
      known name e = elim (covers name) [ inl gone ↦ absurd (cc (e, gone)) | inr there ↦ there ]

  -- Where every name that can be parsed is one of a list, a load of a name that is not loaded ends,
  -- on fuel above the length of the list. The files of before stay in their places; each dylib of a
  -- new file is loaded or cannot be parsed, and so is the name.
  pub load_symbols-Loaded :
      (us : List (List ℕ)) (depth : ℕ) (fs : List MachFile) (name : List ℕ)
      → ((n : List ℕ) → (parse n ≡ none) ⊎ (names_have us n ≡ true))
      → length us < depth
      → is_loaded fs name ≡ false
      → (done : Bool) × (fs' : List MachFile) × (load_symbols parse depth fs name
          ≡ some (done, fs'))
        × Loaded fs fs'
        × Settled fs' name
  load_symbols-Loaded us depth fs name covers enough new =
      load_symbols-Settles us covers depth fs name new (omega (arith, missing-length us fs))
