-- ===== src/Daemon/Inotify.antt =====
-- k8s/cmd/fsnotify-daemon/app/v2/app.go: the app over fsnotify, its event loop and SyncWatches.
-- The JSON encoder and the answers of fsnotify and of the lister are parameters.
pub mod Watched
use fs_lib.Prelude.{
  ℕ, ◌+◌, List, [], ◌∷◌, ◌++◌, ◌≡◌, refl, ap, ◌∙◌, Bool, true, false, not, Option, none, some,
  if◌then◌else◌, Bytes, Result, ok, ◌>>=◌,
}
use fs_lib.Event.{Op, Event}
use fs_lib.Strings.{split, join, contains}
use fs_lib.Strings.Laws.{join-split, split-concat}
use fs_lib.Api.{FsWatcher}

-- nameTokenized[:len(nameTokenized)-1]
unfoldable pub but_last : List Bytes → List Bytes
but_last [] = []
but_last (t ∷ []) = []
but_last (t ∷ u ∷ ts) = t ∷ but_last (u ∷ ts)

-- The event that is published for one of fsnotify's: its key is its directory.
unfoldable pub event_of : Bytes → Op → Event
unfolding but_last
event_of name op = record { name = name; op = op; key = join b'/' (but_last (split b'/' name)) }

-- What the select of `run` finds.
pub data Signal : Type 0 where
  fs_event : Bytes → Op → Signal
  events_closed : Signal
  fs_error : Signal
  errors_closed : Signal
  stop : Signal

-- `run`: whether it exits for good, and the payloads that it publishes. An event that cannot be
-- encoded is skipped, and an error of Pub is logged. The end of the list is a wait.
unfoldable pub run : (List Event → Option Bytes) → List Signal → Option Bool × List Bytes
unfolding event_of
run encode [] = (none, [])
run encode (fs_event name op ∷ rest) =
    let (exit, later) = run encode rest in
    (exit, elim (encode (event_of name op ∷ [])) [ none ↦ later | some payload ↦ payload ∷ later ])
run encode (events_closed ∷ rest) = (some false, [])
run encode (fs_error ∷ rest) = run encode rest
run encode (errors_closed ∷ rest) = (some false, [])
run encode (stop ∷ rest) = (some true, [])

-- The loop of New over the signals of one fsnotify watcher after the other: it starts a new
-- watcher until `run` exits for good.
unfoldable pub restarts : (List Event → Option Bytes) → List (List Signal) → ℕ
restarts encode [] = 0
restarts encode (signals ∷ rest) =
    let later = restarts encode rest in
    elim (run encode signals).0 [ none ↦ 1 | some true ↦ 1 | some false ↦ 1 + later ]

unfoldable pub paths_of : List FsWatcher → List Bytes
paths_of [] = []
paths_of (l ∷ ls) = l.spec.paths ++ paths_of ls

-- SyncWatches: the paths that it adds to the fsnotify watcher, or the lister's error. The object
-- may be of another type, and the watcher nil.
unfoldable pub sync_watches :
    {E : Type 0} → Bool → Bool → Result E (List FsWatcher) → Result E (List Bytes)
unfolding paths_of
sync_watches is_fs_watcher has_watchers listed =
    if not is_fs_watcher
    then ok []
    else if not has_watchers
    then ok []
    else (do list ← listed; ok (paths_of list))

but_last-append : (ts : List Bytes) (t : Bytes) → but_last (ts ++ t ∷ []) ≡ ts
unfolding but_last
but_last-append [] t = refl
but_last-append (u ∷ []) t = refl
but_last-append (u ∷ v ∷ ts) t = ap (λ l. u ∷ l) (but_last-append (v ∷ ts) t)

split-dir_file :
    (dir file : Bytes)
    → contains b'/' file ≡ false
    → split b'/' (dir ++ b'/' ∷ file) ≡ split b'/' dir ++ file ∷ []
split-dir_file dir file h = split-concat b'/' dir file h

-- An event of a file in a directory is published under the directory as its key, also when the
-- directory is a path of several names, and with its name and mask unchanged.
pub event_of-key :
    (dir file : Bytes) (op : Op)
    → contains b'/' file ≡ false
    → event_of (dir ++ b'/' ∷ file) op ≡ record { name = dir ++ b'/' ∷ file; op = op; key = dir }
unfolding event_of
event_of-key dir file op h =
    ap (λ k. record { name = dir ++ b'/' ∷ file; op = op; key = k })
      (ap (λ ts. join b'/' (but_last ts)) (split-dir_file dir file h)
        ∙ ap (join b'/') (but_last-append (split b'/' dir) file)
        ∙ join-split b'/' dir)
