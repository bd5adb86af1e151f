-- ===== src/Daemon/Inotify/Watched.antt =====
-- What the fsnotify watcher of k8s/cmd/fsnotify-daemon/app/v2/app.go watches, over the watchers that
-- New makes one after the other and the changes that SyncWatches handles.
use fs_lib.Prelude.{
  equal, List, [], ◌∷◌, ◌++◌, ◌≡◌, Bool, true, false, ◌&&◌, ◌||◌, Option, none, some, if◌then◌else◌,
  arith, Bytes, Result, ok, err, equal_iff, member, member-append,
}
use fs_lib.Api.{FsWatcher}
use fs_lib.Jfs.Watcher.{without}
use fs_lib.Daemon.Inotify.{paths_of, sync_watches}

-- One round of New's loop starts, with a new fsnotify watcher; the controller hands a change to
-- SyncWatches, where the object may be of another type, fsnotify takes some of the paths (none, once
-- it is closed), and the lister answers; or fsnotify drops a watch, since its path was deleted or
-- renamed.
pub data Turn (E : Type 0) : Type 0 where
  restarts : Turn E
  handles : (Bytes → Bool) → Bool → Result E (List FsWatcher) → Turn E
  drops : Bytes → Turn E

-- a.watchers.Add for each path; a path that fsnotify does not accept is logged.
unfoldable pub add_all : (Bytes → Bool) → List Bytes → List Bytes → List Bytes
add_all accepts [] watched = watched
add_all accepts (p ∷ ps) watched =
    add_all accepts ps (if accepts p then watched ++ p ∷ [] else watched)

abbrev pub has_watchers : Option (List Bytes) → Bool
has_watchers none = false
has_watchers (some watched) = true

unfoldable pub add_to : (Bytes → Bool) → List Bytes → Option (List Bytes) → Option (List Bytes)
unfolding add_all
add_to accepts ps none = none
add_to accepts ps (some watched) = some (add_all accepts ps watched)

-- What fsnotify itself takes out
unfoldable pub drop_from : Bytes → Option (List Bytes) → Option (List Bytes)
drop_from p none = none
drop_from p (some watched) = some (without p watched)

-- The state is what a.watchers watches, `none` while it is nil.
unfoldable pub take_turn : {E : Type 0} → Turn E → Option (List Bytes) → Option (List Bytes)
unfolding add_to drop_from
take_turn restarts w = some []
take_turn (handles accepts is_fs_watcher listed) w =
    elim (sync_watches is_fs_watcher (has_watchers w) listed) [
      | err e ↦ w
      | ok ps ↦ add_to accepts ps w
    ]
take_turn (drops p) w = drop_from p w

unfoldable pub run : {E : Type 0} → List (Turn E) → Option (List Bytes) → Option (List Bytes)
unfolding take_turn
run [] w = w
run (t ∷ ts) w = run ts (take_turn t w)

abbrev pub or_before : Option Bool → Bool → Bool
or_before none before = before
or_before (some b) before = b

-- What a turn says of a path: it is watched from now on, it is not, or nothing.
abbrev pub word : {E : Type 0} → Turn E → Bytes → Option Bool
word restarts p = some false
word (handles accepts true (ok ls)) p =
    if accepts p && member p (paths_of ls) then some true else none
word (handles accepts true (err e)) p = none
word (handles accepts false listed) p = none
word (drops q) p = if equal q p then some false else none

-- The last word of the turns on a path, if there is one, else what it was before
abbrev pub last_word : {E : Type 0} → List (Turn E) → Bytes → Bool → Bool
last_word [] p before = before
last_word (t ∷ ts) p before = last_word ts p (or_before (word t p) before)

pub add_all-member :
    (accepts : Bytes → Bool) (p : Bytes) (ps watched : List Bytes)
    → member p (add_all accepts ps watched) ≡ (member p watched || accepts p && member p ps)
unfolding add_all member
add_all-member accepts p [] watched = ground arith
add_all-member accepts p (q ∷ ps) watched = ground (
  arith,
  add_all-member accepts p ps (watched ++ q ∷ []),
  add_all-member accepts p ps watched,
  member-append p watched (q ∷ []),
  equal_iff q p,
)

abbrev Ends : Option (List Bytes) → (Bytes → Bool) → Type 0
Ends w on = (watched : List Bytes) × (w ≡ some watched) × ((p : Bytes) → member p watched ≡ on p)
