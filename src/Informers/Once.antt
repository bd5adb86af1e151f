-- ===== src/Informers/Once.antt =====
-- Which informers run, and how often.
use fs_lib.Prelude.{
  ℕ, inl, inr, ◌≢◌, member-append, suc, ◌≤◌, List, [], ◌∷◌, ◌++◌, ◌≡◌, refl, sym, ap, ◌∙◌, subst,
  true, false, ◌||◌, Option, none, some, if◌then◌else◌, arith, Bytes, equal_iff, lookup, insert,
  keys, member, distinct, length, length-append, lookup-insert, Bool-cases,
}
use fs_lib.Informers.{
  or_default, with_custom_resync_config, with_tweak_list_options, with_namespace, Factory,
  FactoryOption, apply_option, apply_all, new_factory, is_started, start_informer, start_all, start,
  shutdown, run_ends, make_informer, informer_for, Call, asks, starts, shuts, ends, take_call, run,
}
use fs_lib.Informers.Appended.{distinct-snoc, keys-snoc, lookup-snoc, flag-insert}

module _ {I D T : Type 0} where
  pub record Sound (f : Factory I D T) : Type 0 where
    pub once : distinct (keys f.runs) ≡ true
    pub flagged : (k : Bytes) → member k (keys f.runs) ≡ is_started k f
    pub registered : (k : Bytes) (i : I) → lookup k f.runs ≡ some i → lookup k f.informers ≡ some i
    pub waited : f.waits ≤ length f.runs

  -- One more informer runs.
  runs-Sound :
      (k : Bytes) (i : I) (f : Factory I D T)
      → lookup k f.informers ≡ some i
      → is_started k f ≡ false
      → Sound f
      → Sound (record f {
        started_informers = insert k true f.started_informers;
        waits = suc f.waits;
        runs = f.runs ++ (k, i) ∷ [];
      })
  unfolding is_started
  runs-Sound k i f at new v = record {
    once =
        ap distinct (keys-snoc k i f.runs)
        ∙ distinct-snoc k (keys f.runs) v.once (v.flagged k ∙ new);
    flagged = λ j.
        ap (member j) (keys-snoc k i f.runs)
        ∙ member-append j (keys f.runs) (k ∷ [])
        ∙ ap (λ b. b || member j (k ∷ [])) (v.flagged j)
        ∙ flag-insert j k f.started_informers;
    registered = λ j w h. elim (lookup-snoc j k i w f.runs h) [
      | inl old ↦ v.registered j w old
      | inr (same, value) ↦ ap (λ x. lookup x f.informers) (sym same) ∙ at ∙ ap some value
    ];
    waited = let few = v.waited in omega (arith, length-append f.runs ((k, i) ∷ []));
  }

  start_informer-Sound :
      (k : Bytes) (o : Option I) (f : Factory I D T)
      → lookup k f.informers ≡ o
      → Sound f
      → Sound (start_informer k o f)
  unfolding start_informer
  start_informer-Sound k none f at v = v
  start_informer-Sound k (some i) f at v = elim (Bool-cases (is_started k f)) [
    | inl old ↦ rw old v
    | inr new ↦ rw new (runs-Sound k i f at new v)
  ]

  start_all-Sound : (ks : List Bytes) (f : Factory I D T) → Sound f → Sound (start_all ks f)
  unfolding start_all
  start_all-Sound [] f v = v
  start_all-Sound (k ∷ ks) f v =
      start_all-Sound ks (start_informer k (lookup k f.informers) f)
        (start_informer-Sound k (lookup k f.informers) f refl v)

  pub start_down :
      (order : List Bytes → List Bytes) (f : Factory I D T)
      → f.shutting_down ≡ true
      → start order f ≡ f
  unfolding start
  start_down order f down = ap (λ b. if b then f else start_all (order (keys f.informers)) f) down

  pub start_up :
      (order : List Bytes → List Bytes) (f : Factory I D T)
      → f.shutting_down ≡ false
      → start order f ≡ start_all (order (keys f.informers)) f
  unfolding start
  start_up order f up = ap (λ b. if b then f else start_all (order (keys f.informers)) f) up

  start-Sound :
      (order : List Bytes → List Bytes) (f : Factory I D T) → Sound f → Sound (start order f)
  start-Sound order f v = elim (Bool-cases f.shutting_down) [
    | inl down ↦ subst Sound (sym (start_down order f down)) v
    | inr up ↦
        subst Sound (sym (start_up order f up)) (start_all-Sound (order (keys f.informers)) f v)
  ]

  -- A type that has an informer keeps it, and a new one's is only its own.
  make_informer-Sound :
      (k : Bytes) (new_func : ℕ → D → I) (o : Option I) (f : Factory I D T)
      → lookup k f.informers ≡ o
      → Sound f
      → Sound (make_informer k new_func o f).0
  unfolding make_informer is_started
  make_informer-Sound k new_func (some i) f at v = v
  make_informer-Sound k new_func none f at v = record {
    once = v.once;
    flagged = v.flagged;
    registered = λ j w h.
        let old = v.registered j w h in
        let other : k ≢ j = λ same. cc in
        let made =
          new_func f.made_informers (or_default f.default_resync (lookup k f.custom_resync)) in
        ground (arith, lookup-insert k j made f.informers, equal_iff k j);
    waited = v.waited;
  }

  take_call-Sound : (call : Call I D) (f : Factory I D T) → Sound f → Sound (take_call call f)
  unfolding take_call informer_for shutdown run_ends is_started
  take_call-Sound (asks k new_func) f v =
      make_informer-Sound k new_func (lookup k f.informers) f refl v
  take_call-Sound (starts order) f v = start-Sound order f v
  take_call-Sound shuts f v = record {
    once = v.once;
    flagged = v.flagged;
    registered = v.registered;
    waited = v.waited;
  }
  take_call-Sound ends f v = record {
    once = v.once;
    flagged = v.flagged;
    registered = v.registered;
    waited = let few = v.waited in omega arith;
  }

  run-Sound : (calls : List (Call I D)) (f : Factory I D T) → Sound f → Sound (run calls f)
  unfolding run
  run-Sound [] f v = v
  run-Sound (call ∷ calls) f v = run-Sound calls (take_call call f) (take_call-Sound call f v)

  apply_all-Sound :
      (options : List (FactoryOption D T)) (f : Factory I D T)
      → Sound f
      → Sound (apply_all options f)
  unfolding apply_all apply_option is_started
  apply_all-Sound [] f v = v
  apply_all-Sound (with_custom_resync_config config ∷ options) f v =
      apply_all-Sound options _ (record {
        once = v.once;
        flagged = v.flagged;
        registered = v.registered;
        waited = v.waited;
      })
  apply_all-Sound (with_tweak_list_options tweak ∷ options) f v =
      apply_all-Sound options _ (record {
        once = v.once;
        flagged = v.flagged;
        registered = v.registered;
        waited = v.waited;
      })
  apply_all-Sound (with_namespace namespace ∷ options) f v =
      apply_all-Sound options _ (record {
        once = v.once;
        flagged = v.flagged;
        registered = v.registered;
        waited = v.waited;
      })

  new_factory-Sound :
      (default_resync : D) (options : List (FactoryOption D T))
      → Sound (new_factory default_resync options)
  unfolding new_factory is_started distinct member lookup
  new_factory-Sound default_resync options =
      apply_all-Sound options _ (record {
        once = refl;
        flagged = λ k. refl;
        registered = λ k i h. cc;
        waited = omega arith;
      })

  -- Nothing starts once the factory is shutting down.
  asks-runs :
      (k : Bytes) (new_func : ℕ → D → I) (o : Option I) (f : Factory I D T)
      → ((make_informer k new_func o f).0.runs ≡ f.runs)
        × ((make_informer k new_func o f).0.shutting_down ≡ f.shutting_down)
  unfolding make_informer
  asks-runs k new_func none f = (refl, refl)
  asks-runs k new_func (some i) f = (refl, refl)

  run-down :
      (calls : List (Call I D)) (f : Factory I D T)
      → f.shutting_down ≡ true
      → (run calls f).runs ≡ f.runs
  unfolding run take_call informer_for shutdown run_ends
  run-down [] f down = refl
  run-down (asks k new_func ∷ calls) f down =
      let (same, still) = asks-runs k new_func (lookup k f.informers) f in
      run-down calls (informer_for k new_func f).0 (still ∙ down) ∙ same
  run-down (starts order ∷ calls) f down =
      ap (λ (g : Factory I D T). (run calls g).runs) (start_down order f down)
      ∙ run-down calls f down
  run-down (shuts ∷ calls) f down = run-down calls (shutdown f) refl
  run-down (ends ∷ calls) f down = run-down calls (run_ends f) down

-- Whatever is called on a new factory, and in whatever order Start visits the informers: no type's
-- informer is run twice, the types whose informers run are those marked as started, each of them
-- runs the informer that the factory gives out for it, and Shutdown waits for no more than these.
-- After a Shutdown no call starts an informer.
pub informers_run_once :
    {I D T : Type 0} (default_resync : D) (options : List (FactoryOption D T))
    (calls later : List (Call I D))
    → Sound (run calls (new_factory default_resync options))
      × ((run later (shutdown (run calls (new_factory default_resync options)))).runs
          ≡ (run calls (new_factory default_resync options)).runs)
unfolding shutdown
informers_run_once default_resync options calls later =
    let f = run calls (new_factory default_resync options) in
    (
      run-Sound calls (new_factory default_resync options)
          (new_factory-Sound default_resync options),
      run-down later (shutdown f) refl,
    )
