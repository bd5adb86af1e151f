-- ===== src/Jfs/FsBackend.antt =====
-- newFSWatcher of jfsnotify/backend_jfs.go: the goroutine that takes the events of fsnotify to the
-- caller's channel. Its events have no key. The
-- channel of fsnotify is taken to stay open.
use fs_lib.Prelude.{ℕ, ◌%◌, ◌^◌, List, [], ◌∷◌, ◌++◌, ◌≡◌, refl, ap, map, Option, none, some, Bytes}
use fs_lib.Event.{Event}
use fs_lib.Jfs.Watcher.{Watcher, close_watcher}

-- What the select finds: the context done, or an event of fsnotify with its name and mask.
pub data FsSignal : Type 0 where
  cancelled : FsSignal
  fs_event : Bytes → ℕ → FsSignal

-- newEvent
unfoldable pub new_event : Bytes → ℕ → Event
new_event name op = record { name = name; op = op % 2 ^ 32; key = [] }

-- The goroutine: what it sends on Events, if the caller takes all of it.
unfoldable pub forward : List FsSignal → List Event
unfolding new_event
forward [] = []
forward (cancelled ∷ rest) = []
forward (fs_event name op ∷ rest) = new_event name op ∷ forward rest

-- The Close of newFSWatcher; `answer` is that of fsnotify's Close, `none` for nil. After an error of
-- that the goroutine goes on.
unfoldable pub close_fs : {E : Type 0} → Option E → Watcher → Watcher × Option E
close_fs (some e) w = (w, some e)
close_fs none w = (close_watcher w, none)

abbrev all_events : List (Bytes × ℕ) → List FsSignal
all_events = map (λ (e : Bytes × ℕ). fs_event e.0 e.1)

-- All events of fsnotify before the context is done are sent, in their order, and none after it.
pub forward_lem :
    (events : List (Bytes × ℕ)) (rest : List FsSignal)
    → forward (all_events events ++ cancelled ∷ rest)
      ≡ map (λ (e : Bytes × ℕ). new_event e.0 e.1) events
unfolding forward
forward_lem [] rest = refl
forward_lem ((name, op) ∷ events) rest = ap (λ l. new_event name op ∷ l) (forward_lem events rest)
