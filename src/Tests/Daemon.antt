-- ===== src/Tests/Daemon.antt =====
-- The daemon of k8s/cmd/fsnotify-daemon and the controller of k8s/pkg/fswatchers.
use fs_lib.Prelude.{
  List, [], ◌∷◌, ◌≡◌, ◌⊎◌, inl, inr, Bool, true, Option, none, some, Bytes, codes, ok,
}
use fs_lib.Api.{FsWatcher, empty_status}
use fs_lib.Daemon.Controller.{Action, delete, EnqueueObj, run_worker}
use fs_lib.Daemon.Controller.Worker.{
  handed_items, done_items, retried_items, failed_items, run_worker-items,
}
use fs_lib.Daemon.Inotify.Watched.{Turn, drops, handles}

abbrev object : Bytes → Bytes → List Bytes → FsWatcher
object name pod paths = record {
  name = name;
  namespace = codes "ns";
  spec = record { description = []; pod = pod; container = codes "c"; paths = paths };
  status = empty_status;
}

abbrev first_object : FsWatcher
first_object = object (codes "p-c-w") (codes "p") (codes "/a" ∷ codes "/b" ∷ [])

abbrev other_object : FsWatcher
other_object = object (codes "q-c-w") (codes "q") (codes "/b" ∷ [])

abbrev fails_on_delete : Action → Bytes → Option Bool
fails_on_delete delete obj = some true
fails_on_delete _ obj = none

abbrev handed : List (Option (Bytes ⊎ EnqueueObj Bytes))
handed =
    some (inr (record { action = delete; obj = codes "w" })) ∷ some (inl (codes "junk")) ∷ none ∷ []

run_worker-items_example :
    (done_items (run_worker fails_on_delete handed) ≡ handed_items handed)
    × (retried_items (run_worker fails_on_delete handed)
        ≡ failed_items fails_on_delete (handed_items handed))
run_worker-items_example = run_worker-items fails_on_delete handed

abbrev takes_all : Bytes → Bool
takes_all p = true

-- Two objects, one that goes, and a path that fsnotify drops.
abbrev inotify_turns : List (Turn Unit)
inotify_turns =
    handles takes_all true (ok (other_object ∷ []))
    ∷ handles takes_all true (ok (first_object ∷ []))
    ∷ handles takes_all true (ok [])
    ∷ drops (codes "/a")
    ∷ []
