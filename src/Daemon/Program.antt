-- ===== src/Daemon/Program.antt =====
-- The main function of k8s/cmd/fsnotify-daemon over its informer factory and its controller. Flags,
-- configuration and cobra are left out.
use fs_lib.Prelude.{
  ℕ, List, [], ◌∷◌, ◌≡◌, refl, sym, ap, ◌∙◌, Bool, true, false, Option, none, some, arith, Bytes,
  codes, equal, insert, Map, lookup, keys, distinct, IsRangeOrder, is_some, member-lookup,
  Option-cases, inl, inr,
}
use fs_lib.Informers.{
  Factory, new_factory, make_informer, informer_for, start, shutdown, is_started, Call, asks,
  starts, run,
}
use fs_lib.Informers.{flag, take_call}
use fs_lib.Informers.Started.{start-marks}
use fs_lib.Informers.Once.{Sound, informers_run_once}
use fs_lib.Daemon.Controller.{RunResult, run_controller}

-- reflect.TypeOf(&sysv1alpha1.FSWatcher{})
abbrev pub watcher_type : Bytes
watcher_type = codes "*v1alpha1.FSWatcher"

-- What main has set up: the informers behind the app's lister, the controller's lister, its
-- HasSynced and its handlers.
pub record Program (I D T : Type 0) : Type 0 where
  pub factory : Factory I D T
  pub app_lister : I
  pub controller_lister : I
  pub controller_synced : I
  pub handlers : I

module _ {I D T : Type 0} where
  -- NewSharedInformerFactory with no resync, appv2.New and NewController
  unfoldable pub set_up : D → (ℕ → D → I) → Program I D T
  set_up no_resync new_func =
      let (f1, app_lister) = informer_for watcher_type new_func (new_factory no_resync []) in
      let (f2, controller_lister) = informer_for watcher_type new_func f1 in
      let (f3, controller_synced) = informer_for watcher_type new_func f2 in
      let (f4, handlers) = informer_for watcher_type new_func f3 in
      record {
        factory = f4;
        app_lister = app_lister;
        controller_lister = controller_lister;
        controller_synced = controller_synced;
        handlers = handlers;
      }

  -- The command: Start, then Run of the controller with one worker, and Shutdown behind both of its
  -- outcomes; an error of Run is a panic.
  unfoldable pub run_command :
      (List Bytes → List Bytes) → (I → Bool) → Program I D T → Factory I D T × RunResult
  run_command order has_synced p =
      (shutdown (start order p.factory), run_controller (has_synced p.controller_synced) 1)

none_of : {A : Type 0} (o : Option A) → is_some o ≡ false → o ≡ none
none_of none h = refl
none_of (some a) h = absurd (ground (arith, h))

module _ {I D : Type 0} (T : Type 0) (no_resync : D) (new_func : ℕ → D → I) where
  abbrev program : Program I D T
  program = set_up no_resync new_func

  -- The one informer that there is
  abbrev only : Map I
  only = (watcher_type, new_func 0 no_resync) ∷ []

  shares :
      (program.app_lister ≡ new_func 0 no_resync)
      × (program.controller_lister ≡ new_func 0 no_resync)
      × (program.controller_synced ≡ new_func 0 no_resync)
      × (program.handlers ≡ new_func 0 no_resync)
  unfolding set_up informer_for make_informer new_factory lookup insert equal
  shares = (refl, refl, refl, refl)

  has_only :
      (program.factory.informers ≡ only)
      × (program.factory.shutting_down ≡ false)
      × (program.factory.started_informers ≡ [])
  unfolding set_up informer_for make_informer new_factory lookup insert equal
  has_only = (refl, refl, refl)

  started-Sound : (order : List Bytes → List Bytes) → Sound (start order program.factory)
  unfolding set_up run take_call
  started-Sound order =
      let ask : Call I D = asks watcher_type new_func in
      (informers_run_once {T = T} no_resync [] (ask ∷ ask ∷ ask ∷ ask ∷ starts order ∷ []) []).0

  marked :
      (order : List Bytes → List Bytes) (k : Bytes)
      → IsRangeOrder order
      → is_started k (start order program.factory) ≡ is_some (lookup k only)
  unfolding is_started lookup
  marked order k range =
      let (some_informer, up, none_started) = has_only in
      let (same, marks) = start-marks order k program.factory range up in
      ground (
        arith,
        marks,
        ap (λ m. flag (lookup k m)) none_started,
        ap (λ m. is_some (lookup k m)) some_informer,
      )

  runs_only :
      (order : List Bytes → List Bytes) (k : Bytes)
      → IsRangeOrder order
      → lookup k (start order program.factory).runs ≡ lookup k only
  runs_only order k range =
      let f = start order program.factory in
      let v = started-Sound order in
      let there : is_some (lookup k f.runs) ≡ is_some (lookup k only) =
        sym (member-lookup k f.runs) ∙ v.flagged k ∙ marked order k range in
      let informers : f.informers ≡ only =
        (start-marks order k program.factory range has_only.1).0 ∙ has_only.0 in
      elim (Option-cases (lookup k f.runs)) [
        | inl unknown ↦ unknown ∙ sym (none_of (lookup k only) (sym there ∙ ap is_some unknown))
        | inr (i, known) ↦ known ∙ sym (v.registered k i known) ∙ ap (lookup k) informers
      ]

  -- In the daemon's main function the app's lister and the controller's lister, its HasSynced and
  -- its handlers stand on one informer, the first that the factory makes, and the command runs that
  -- one once and no other, in whatever order Start visits the informers.
  pub daemon_runs_one_informer :
      (order : List Bytes → List Bytes) (has_synced : I → Bool)
      → IsRangeOrder order
      → (program.app_lister ≡ new_func 0 no_resync)
        × (program.controller_lister ≡ new_func 0 no_resync)
        × (program.controller_synced ≡ new_func 0 no_resync)
        × (program.handlers ≡ new_func 0 no_resync)
        × (distinct (keys (run_command order has_synced program).0.runs) ≡ true)
        × ((k : Bytes) → lookup k (run_command order has_synced program).0.runs ≡ lookup k only)
  unfolding run_command shutdown
  daemon_runs_one_informer order has_synced range =
      let (a, b, c, d) = shares in
      (a, b, c, d, (started-Sound order).once, λ k. runs_only order k range)
