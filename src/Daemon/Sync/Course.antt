-- ===== src/Daemon/Sync/Course.antt =====
-- What JuiceFS watches over a course of connections and changes.
use fs_lib.Prelude.{
  none, some, if◌then◌else◌, List, [], ◌∷◌, ◌≡◌, refl, sym, ap, ◌∙◌, Bool, true, inl, inr,
  Bool-cases, arith, Bytes, codes, ok, member, IsRangeOrder,
}
use fs_lib.Api.{FsWatcher}
use fs_lib.Wire.Codec.{Fits, fields}
use fs_lib.Wire.Message.{msg_watch}
use fs_lib.Jfs.Session.Told.{AllFit}
use fs_lib.Daemon.Sync.{clear_all, watch_all, IpcMessage, add_watchers}
use fs_lib.Daemon.Sync.Reconnect.{listed_path, add_watchers-paths}
use fs_lib.Daemon.Sync.Follow.{heard, hears, Watches, member-Fits, all_fit, heard-fields}
use fs_lib.Daemon.Sync.Changes.{Change, Change-Watches}

-- All paths fit their fields.
abbrev pub AllListedFit : List FsWatcher → Type 0
AllListedFit [] = Unit
AllListedFit (w ∷ ws) = AllFit w.spec.paths × AllListedFit ws

listed_path-Fits :
    (p : Bytes) (ws : List FsWatcher) → AllListedFit ws → listed_path ws p ≡ true → Fits 255 p
listed_path-Fits p [] h m = cc
listed_path-Fits p (w ∷ ws) h m = elim (Bool-cases (member p w.spec.paths)) [
  | inl here ↦ member-Fits p w.spec.paths h.0 here
  | inr other ↦ listed_path-Fits p ws h.1 (ground arith)
]

pub reconnect-Watches :
    (order : List Bytes → List Bytes) (ws : List FsWatcher) (watching : Bytes → Bool)
    → IsRangeOrder order
    → AllListedFit ws
    → Watches (hears (add_watchers {E = Unit} order (ok ws)) watching) ws
unfolding hears heard
reconnect-Watches order ws watching range fit p =
    let (paths, wrote_both, once, all) = add_watchers-paths Unit order ws range in
    let fits = all_fit paths (λ q m. listed_path-Fits q ws fit (sym (all q) ∙ m)) in
    let heard_it =
      heard-fields (record { msg_type = msg_watch; content = fields (codes "cluster" ∷ paths) })
        (codes "cluster") paths p refl fits in
    ap (λ ms. hears ms watching p) wrote_both ∙ ground (arith, heard_it, all p)

second : List IpcMessage → IpcMessage
second (m ∷ n ∷ ms) = n
second _ = clear_all

-- The WATCH of addWatchers, of the objects that it has listed
pub heard-watch_all :
    (order : List Bytes → List Bytes) (ws : List FsWatcher) (p : Bytes)
    → IsRangeOrder order
    → AllListedFit ws
    → heard (watch_all order ws) p ≡ (if listed_path ws p then some true else none)
unfolding add_watchers second
heard-watch_all order ws p range fit =
    let (paths, wrote_both, once, all) = add_watchers-paths Unit order ws range in
    let fits = all_fit paths (λ q m. listed_path-Fits q ws fit (sym (all q) ∙ m)) in
    ap (λ ms. heard (second ms) p) wrote_both
    ∙ heard-fields (record { msg_type = msg_watch; content = fields (codes "cluster" ∷ paths) })
        (codes "cluster") paths p refl fits
    ∙ ap (λ b. if b then some true else none) (all p)

-- The objects of the cluster and what JuiceFS watches: a connection to JuiceFS, then changes that
-- are handled one at a time, with new connections between them.
pub data Course (order : List Bytes → List Bytes) : List FsWatcher → (Bytes → Bool) → Type 0 where
  connected :
      (ws : List FsWatcher) (watching : Bytes → Bool)
      → AllListedFit ws
      → Course order ws (hears (add_watchers {E = Unit} order (ok ws)) watching)
  changed :
      {old : List FsWatcher} {watching : Bytes → Bool} (new : List FsWatcher) (ms : List IpcMessage)
      → Course order old watching
      → Change old new ms
      → Course order new (hears ms watching)

-- While the daemon handles each change of the objects before the next one, a peer that reads its
-- messages by their fields watches exactly the paths that some object lists: after each connection,
-- whatever it watched before, and after each object that is added, updated or deleted, if all paths
-- fit their fields.
pub juicefs_follows :
    (order : List Bytes → List Bytes) {ws : List FsWatcher} {watching : Bytes → Bool}
    → IsRangeOrder order
    → Course order ws watching
    → (p : Bytes) → watching p ≡ listed_path ws p
juicefs_follows order range (connected ws watching fit) p =
    reconnect-Watches order ws watching range fit p
juicefs_follows order range (changed {old} {watching} new ms c change) p =
    Change-Watches old new ms watching change (juicefs_follows order range c) p
