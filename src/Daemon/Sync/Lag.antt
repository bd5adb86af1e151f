-- ===== src/Daemon/Sync/Lag.antt =====
-- Objects that are added, updated and deleted while the handler lags behind: the controller's queue
-- holds the changes in their order, and the lister has all of them already when one is handled. Each
-- path belongs to one name and namespace, those of `owner`. A handler that panics ends the run: the
-- daemon starts anew.
use fs_lib.Prelude.{
  List, [], ◌∷◌, ◌++◌, ◌≡◌, refl, sym, ap, ◌∙◌, Bool, true, false, Option, none, some, inl, inr,
  Option-cases, if◌then◌else◌, Bytes, ok, member,
}
use fs_lib.Api.{FsWatcher}
use fs_lib.Jfs.Session.Told.{AllFit, or_else, or_else_assoc}
use fs_lib.Daemon.Controller.{Action, unknown, add, update, delete, EnqueueObj}
use fs_lib.Daemon.Sync.{IpcMessage, wrote, is_self, clear_all, watch_all, sync_watches}
use fs_lib.Daemon.Sync.Paths.{listed_self}
use fs_lib.Daemon.Sync.Follow.{now, hears, IsAbsent}

abbrev pub Owner : Type 0
Owner = Bytes → Bytes × Bytes

-- The paths of an object fit their fields and belong to it.
abbrev pub Owned : Owner → FsWatcher → Type 0
Owned owner w =
    AllFit w.spec.paths
    × ((p : Bytes) → member p w.spec.paths ≡ true → owner p ≡ (w.namespace, w.name))

abbrev pub Queue : Type 0
Queue = List (EnqueueObj FsWatcher)

abbrev pub item : Action → FsWatcher → EnqueueObj FsWatcher
item action w = record { action = action; obj = w }

-- Where addWatchers is, which a new connection runs beside the handler: not running, between its
-- CLEAR and its list, or between its list, which has these objects, and its WATCH.
pub data Phase : Type 0 where
  calm clearing : Phase
  writing : List FsWatcher → Phase

-- No list of addWatchers is waiting to be written.
abbrev pub NotWriting : Phase → Type 0
NotWriting calm = Unit
NotWriting clearing = Unit
NotWriting (writing ls) = ⊥

-- The listed objects, the queue, where addWatchers is, and what the peer watches. A change is
-- handled in one step, which does not fall between the list and the WATCH of addWatchers.
pub data Lag (owner : Owner) (order : List Bytes → List Bytes)
    : List FsWatcher → Queue → Phase → (Bytes → Bool) → Type 0 where
  starts :
      (watching : Bytes → Bool) → Lag owner order [] [] clearing (hears (clear_all ∷ []) watching)
  creates :
      (before after : List FsWatcher) (w : FsWatcher) {q : Queue} {at : Phase}
      {watching : Bytes → Bool}
      → Owned owner w
      → IsAbsent w before
      → IsAbsent w after
      → Lag owner order (before ++ after) q at watching
      → Lag owner order (before ++ w ∷ after) (q ++ item add w ∷ []) at watching
  deletes :
      (before after : List FsWatcher) (w : FsWatcher) {q : Queue} {at : Phase}
      {watching : Bytes → Bool}
      → IsAbsent w before
      → IsAbsent w after
      → Lag owner order (before ++ w ∷ after) q at watching
      → Lag owner order (before ++ after) (q ++ item delete w ∷ []) at watching
  updates :
      (before after : List FsWatcher) (w self : FsWatcher) {q : Queue} {at : Phase}
      {watching : Bytes → Bool}
      → Owned owner self
      → IsAbsent w before
      → IsAbsent w after
      → is_self w self ≡ true
      → Lag owner order (before ++ w ∷ after) q at watching
      → Lag owner order (before ++ self ∷ after) (q ++ item update w ∷ []) at watching
  clears :
      {ls : List FsWatcher} {q : Queue} {watching : Bytes → Bool}
      → Lag owner order ls q calm watching
      → Lag owner order ls q clearing (hears (clear_all ∷ []) watching)
  lists :
      {ls : List FsWatcher} {q : Queue} {watching : Bytes → Bool}
      → Lag owner order ls q clearing watching
      → Lag owner order ls q (writing ls) watching
  rewatches :
      (old : List FsWatcher) {ls : List FsWatcher} {q : Queue} {watching : Bytes → Bool}
      → Lag owner order ls q (writing old) watching
      → Lag owner order ls q calm (hears (watch_all order old ∷ []) watching)
  handles :
      (x : EnqueueObj FsWatcher) (ms : List IpcMessage) {ls : List FsWatcher} {q : Queue}
      {at : Phase} {watching : Bytes → Bool}
      → NotWriting at
      → sync_watches {E = Unit} x.action (some x.obj) (ok ls) ≡ wrote ms
      → Lag owner order ls (x ∷ q) at watching
      → Lag owner order ls q at (hears ms watching)

abbrev pub self_has : Option FsWatcher → Bytes → Bool
self_has none p = false
self_has (some s) p = member p s.spec.paths

-- What an item says of a path when it is handled: an UPDATE unwatches the old object's paths, then
-- watches those of the object that the lister has by then.
abbrev pub says_update : Bool → Bool → Option Bool
says_update listed old = if listed then some true else if old then some false else none

abbrev pub word_of : Action → FsWatcher → List FsWatcher → Bytes → Option Bool
word_of add w ls p = if member p w.spec.paths then some true else none
word_of delete w ls p = if member p w.spec.paths then some false else none
word_of update w ls p = says_update (self_has (listed_self w ls none) p) (member p w.spec.paths)
word_of unknown w ls p = none

abbrev pub word : EnqueueObj FsWatcher → List FsWatcher → Bytes → Option Bool
word x ls p = word_of x.action x.obj ls p

-- The last word of a queue, if it is handled with these objects listed.
abbrev pub verdict : Queue → List FsWatcher → Bytes → Option Bool
verdict [] ls p = none
verdict (x ∷ xs) ls p = or_else (verdict xs ls p) (word x ls p)

pub verdict-append :
    (xs : Queue) (x : EnqueueObj FsWatcher) (ls : List FsWatcher) (p : Bytes)
    → verdict (xs ++ x ∷ []) ls p ≡ or_else (word x ls p) (verdict xs ls p)
verdict-append [] x ls p = elim (Option-cases (word x ls p)) [
  | inl silent ↦ rw silent refl
  | inr (b, said) ↦ rw said refl
]
verdict-append (y ∷ ys) x ls p =
    ap (λ o. or_else o (word y ls p)) (verdict-append ys x ls p)
    ∙ sym (or_else_assoc (word x ls p) (verdict ys ls p) (word y ls p))

-- The queue says the same of a path over two lists, if their objects of one name agree on it.
abbrev pub SameSelf : List FsWatcher → List FsWatcher → Bytes → Type 0
SameSelf xs ys p =
    (x : FsWatcher) → self_has (listed_self x xs none) p ≡ self_has (listed_self x ys none) p

word_of-SameSelf :
    (a : Action) (w : FsWatcher) (xs ys : List FsWatcher) (p : Bytes)
    → SameSelf xs ys p
    → word_of a w xs p ≡ word_of a w ys p
word_of-SameSelf add w xs ys p h = refl
word_of-SameSelf delete w xs ys p h = refl
word_of-SameSelf update w xs ys p h = ap (λ b. says_update b (member p w.spec.paths)) (h w)
word_of-SameSelf unknown w xs ys p h = refl

pub verdict-SameSelf :
    (q : Queue) (xs ys : List FsWatcher) (p : Bytes)
    → SameSelf xs ys p
    → verdict q xs p ≡ verdict q ys p
verdict-SameSelf [] xs ys p h = refl
verdict-SameSelf (x ∷ q) xs ys p h =
    λ i. or_else (verdict-SameSelf q xs ys p h i) (word_of-SameSelf x.action x.obj xs ys p h i)

pub now-or_else : (a b : Option Bool) (c : Bool) → now (or_else a b) c ≡ now a (now b c)
now-or_else none b c = refl
now-or_else (some d) b c = refl
