-- ===== src/Informers.antt =====
-- The informer factory of k8s/pkg/generated/informers/externalversions: which informers it makes,
-- starts and waits for. The informers themselves are client-go's. A reflect.Type is its name.
pub mod Appended
pub mod Once
pub mod Started
pub mod Synced
use fs_lib.Prelude.{
  ℕ, suc, ◌-◌, List, [], ◌∷◌, ◌++◌, Bool, true, false, Option, none, some, ◌==◌, if◌then◌else◌, map,
  Bytes, equal, Map, lookup, insert, keys,
}

-- sharedInformerFactory, without its client and its lock: I is a shared informer, D a duration, T a
-- tweak of list options. `waits` is the count of wg, and `runs` has the informers for which a
-- goroutine was started, in order. `made_informers` counts the informers made so far: a constructor
-- gets it, so that the informers of two calls of it are two objects.
pub record Factory (I D T : Type 0) : Type 0 where
  pub namespace : Bytes
  pub tweak_list_options : Option T
  pub default_resync : D
  pub custom_resync : Map D
  pub informers : Map I
  pub made_informers : ℕ
  pub started_informers : Map Bool
  pub waits : ℕ
  pub shutting_down : Bool
  pub runs : Map I

insert_all : {D : Type 0} → List (Bytes × D) → Map D → Map D
insert_all [] m = m
insert_all ((k, v) ∷ rest) m = insert_all rest (insert k v m)

-- An entry of startedInformers, false if there is none
abbrev pub flag : Option Bool → Bool
flag none = false
flag (some b) = b

abbrev pub or_default : {D : Type 0} → D → Option D → D
or_default d none = d
or_default d (some custom) = custom

-- WaitForCacheSync behind that copy: `has_synced` is what cache.WaitForCacheSync returns for an informer.
unfoldable pub sync_all : {I : Type 0} → (I → Bool) → List Bytes → Map I → Map Bool → Map Bool
sync_all has_synced [] m answers = answers
sync_all has_synced (key ∷ rest) m answers = sync_all has_synced rest m (elim (lookup key m) [
  | none ↦ answers
  | some informer ↦ insert key (has_synced informer) answers
])

-- SharedInformerOption: WithCustomResyncConfig with its map in the order of the visits,
-- WithTweakListOptions and WithNamespace
pub data FactoryOption (D T : Type 0) : Type 0 where
  with_custom_resync_config : List (Bytes × D) → FactoryOption D T
  with_tweak_list_options : T → FactoryOption D T
  with_namespace : Bytes → FactoryOption D T

module _ {I D T : Type 0} where
  unfoldable pub apply_option : FactoryOption D T → Factory I D T → Factory I D T
  unfolding insert_all
  apply_option (with_custom_resync_config config) f = record f {
    custom_resync = insert_all config f.custom_resync;
  }
  apply_option (with_tweak_list_options tweak) f = record f { tweak_list_options = some tweak }
  apply_option (with_namespace namespace) f = record f { namespace = namespace }

  unfoldable pub apply_all : List (FactoryOption D T) → Factory I D T → Factory I D T
  unfolding apply_option
  apply_all [] f = f
  apply_all (opt ∷ options) f = apply_all options (apply_option opt f)

  -- NewSharedInformerFactoryWithOptions
  unfoldable pub new_factory : D → List (FactoryOption D T) → Factory I D T
  unfolding apply_all
  new_factory default_resync options = apply_all options (record {
    namespace = [];
    tweak_list_options = none;
    default_resync = default_resync;
    custom_resync = [];
    informers = [];
    made_informers = 0;
    started_informers = [];
    waits = 0;
    shutting_down = false;
    runs = [];
  })

  unfoldable pub is_started : Bytes → Factory I D T → Bool
  is_started key f = flag (lookup key f.started_informers)

  -- The body of Start's loop, for the informer at the key
  unfoldable pub start_informer : Bytes → Option I → Factory I D T → Factory I D T
  unfolding is_started
  start_informer key none f = f
  start_informer key (some informer) f = if is_started key f then f else record f {
    started_informers = insert key true f.started_informers;
    waits = suc f.waits;
    runs = f.runs ++ (key, informer) ∷ [];
  }

  unfoldable pub start_all : List Bytes → Factory I D T → Factory I D T
  unfolding start_informer
  start_all [] f = f
  start_all (key ∷ rest) f = start_all rest (start_informer key (lookup key f.informers) f)

  -- Start; `order` is that of the range over the informers
  unfoldable pub start : (List Bytes → List Bytes) → Factory I D T → Factory I D T
  unfolding start_all
  start order f = if f.shutting_down then f else start_all (order (keys f.informers)) f

  -- Shutdown up to its wait, and whether the wait is over
  unfoldable pub shutdown : Factory I D T → Factory I D T
  shutdown f = record f { shutting_down = true }

  unfoldable pub shutdown_returns : Factory I D T → Bool
  shutdown_returns f = f.waits == 0

  -- The goroutine of an informer: its Run has returned.
  unfoldable pub run_ends : Factory I D T → Factory I D T
  run_ends f = record f { waits = f.waits - 1 }

  -- InternalInformerFor behind its test for an informer of the type
  unfoldable pub make_informer : Bytes → (ℕ → D → I) → Option I → Factory I D T → Factory I D T × I
  make_informer key new_func (some informer) f = (f, informer)
  make_informer key new_func none f =
      let informer =
        new_func f.made_informers (or_default f.default_resync (lookup key f.custom_resync)) in
      (
        record f {
          informers = insert key informer f.informers;
          made_informers = suc f.made_informers;
        },
        informer,
      )

  -- InformerFor
  unfoldable pub informer_for : Bytes → (ℕ → D → I) → Factory I D T → Factory I D T × I
  unfolding make_informer
  informer_for key new_func f = make_informer key new_func (lookup key f.informers) f

  -- The informers that WaitForCacheSync copies under the lock
  unfoldable pub copy_started : List Bytes → Factory I D T → Map I → Map I
  unfolding is_started
  copy_started [] f m = m
  copy_started (key ∷ rest) f m = copy_started rest f (elim (lookup key f.informers) [
    | none ↦ m
    | some informer ↦ if is_started key f then insert key informer m else m
  ])

  -- WaitForCacheSync
  unfoldable pub wait_for_cache_sync :
      (List Bytes → List Bytes) → (I → Bool) → Factory I D T → Map Bool
  unfolding copy_started sync_all
  wait_for_cache_sync order has_synced f =
      let started = copy_started (order (keys f.informers)) f [] in
      sync_all has_synced (order (keys started)) started []

-- What happens to a factory.
pub data Call (I D : Type 0) : Type 0 where
  asks : Bytes → (ℕ → D → I) → Call I D
  starts : (List Bytes → List Bytes) → Call I D
  shuts : Call I D
  ends : Call I D

unfoldable pub take_call : {I D T : Type 0} → Call I D → Factory I D T → Factory I D T
unfolding informer_for start shutdown run_ends
take_call (asks key new_func) f = (informer_for key new_func f).0
take_call (starts order) f = start order f
take_call shuts f = shutdown f
take_call ends f = run_ends f

unfoldable pub run : {I D T : Type 0} → List (Call I D) → Factory I D T → Factory I D T
unfolding take_call
run [] f = f
run (call ∷ calls) f = run calls (take_call call f)
