-- ===== src/Daemon/Sync/Changes.antt =====
-- Changes of the watcher objects that the daemon handles one at a time.
use fs_lib.Prelude.{List, ◌∷◌, ◌++◌, ◌≡◌, sym, ap, ◌∙◌, Bool, true, some, arith, Bytes, ok, subst}
use fs_lib.Api.{FsWatcher}
use fs_lib.Wire.Message.{msg_watch, msg_unwatch}
use fs_lib.Jfs.Session.Told.{AllFit}
use fs_lib.Daemon.Controller.{Action, add, update, delete}
use fs_lib.Daemon.Sync.{IpcMessage, is_self, sync_watches}
use fs_lib.Daemon.Sync.Paths.{sync_watches-add_delete, sync_watches-update}
use fs_lib.Daemon.Sync.Reconnect.{listed_path}
use fs_lib.Daemon.Sync.Follow.{
  hears, messages, Watches, own-AllFit, heard-Names, IsAbsent, is_self_refl, others, others_gone,
  with_self, self_listed,
}

-- What the daemon writes for an action on an object, with what the lister lists by then.
abbrev pub synced : Action → FsWatcher → List FsWatcher → List IpcMessage
synced action w ls = messages (sync_watches {E = Unit} action (some w) (ok ls))

-- The objects before and after a change, and the messages that are written for it.
pub data Change (old new : List FsWatcher) (ms : List IpcMessage) : Type 0 where
  added :
      (before after : List FsWatcher) (w : FsWatcher)
      → AllFit w.spec.paths
      → IsAbsent w before
      → IsAbsent w after
      → old ≡ before ++ after
      → new ≡ before ++ w ∷ after
      → ms ≡ synced add w new
      → Change old new ms
  deleted :
      (before after : List FsWatcher) (w : FsWatcher)
      → AllFit w.spec.paths
      → IsAbsent w before
      → IsAbsent w after
      → old ≡ before ++ w ∷ after
      → new ≡ before ++ after
      → ms ≡ synced delete w new
      → Change old new ms
  updated :
      (before after : List FsWatcher) (w self : FsWatcher)
      → AllFit w.spec.paths
      → AllFit self.spec.paths
      → IsAbsent w before
      → IsAbsent w after
      → is_self w self ≡ true
      → old ≡ before ++ w ∷ after
      → new ≡ before ++ self ∷ after
      → ms ≡ synced update w new
      → Change old new ms

module _ (before after : List FsWatcher) (w : FsWatcher) (fit : AllFit w.spec.paths)
    (no_before : IsAbsent w before) (no_after : IsAbsent w after) (watching : Bytes → Bool) where
  added-Watches :
      Watches watching (before ++ after)
      → Watches (hears (synced add w (before ++ w ∷ after)) watching) (before ++ w ∷ after)
  unfolding hears
  added-Watches same p =
      let ls = before ++ w ∷ after in
      let (paths, watched, _, wrote_add, _, names, _, own) =
        sync_watches-add_delete {E = Unit} w ls in
      let heard_it =
        heard-Names watched msg_watch w paths p names (own-AllFit w w ls paths fit own) in
      ap (λ r. hears (messages r) watching p) wrote_add
      ∙ ground (
        arith,
        heard_it,
        own p,
        others before after w no_before no_after w p (is_self_refl w),
        with_self before after w no_before no_after w p,
        same p,
      )

  deleted-Watches :
      Watches watching (before ++ w ∷ after)
      → Watches (hears (synced delete w (before ++ after)) watching) (before ++ after)
  unfolding hears
  deleted-Watches same p =
      let ls = before ++ after in
      let (paths, _, unwatched, _, wrote_delete, _, names, own) =
        sync_watches-add_delete {E = Unit} w ls in
      let heard_it =
        heard-Names unwatched msg_unwatch w paths p names (own-AllFit w w ls paths fit own) in
      ap (λ r. hears (messages r) watching p) wrote_delete
      ∙ ground (
        arith,
        heard_it,
        own p,
        others_gone before after w no_before no_after p,
        with_self before after w no_before no_after w p,
        same p,
      )

  updated-Watches :
      (self : FsWatcher)
      → AllFit self.spec.paths
      → is_self w self ≡ true
      → Watches watching (before ++ w ∷ after)
      → Watches (hears (synced update w (before ++ self ∷ after)) watching) (before ++ self ∷ after)
  unfolding hears
  updated-Watches self fit_self is_it same p =
      let ls = before ++ self ∷ after in
      let (old, new, unwatched, watched, wrote_both, names_old, names_new, own_old, own_new) =
        sync_watches-update {E = Unit} w self ls
          (self_listed before after w no_before no_after self is_it) in
      let heard_old =
        heard-Names unwatched msg_unwatch w old p names_old (own-AllFit w w ls old fit own_old) in
      let heard_new =
        heard-Names watched msg_watch self new p names_new
          (own-AllFit w self ls new fit_self own_new) in
      ap (λ r. hears (messages r) watching p) wrote_both
      ∙ ground (
        arith,
        heard_old,
        heard_new,
        own_old p,
        own_new p,
        others before after w no_before no_after self p is_it,
        with_self before after w no_before no_after w p,
        with_self before after w no_before no_after self p,
        same p,
      )

pub Change-Watches :
    (old new : List FsWatcher) (ms : List IpcMessage) (watching : Bytes → Bool)
    → Change old new ms
    → Watches watching old
    → Watches (hears ms watching) new
Change-Watches old new ms watching (added before after w fit no_b no_a from to sends) same p =
    (λ i. hears ((sends ∙ ap (synced add w) to) i) watching p)
    ∙ added-Watches before after w fit no_b no_a watching (subst (Watches watching) from same) p
    ∙ ap (λ ls. listed_path ls p) (sym to)
Change-Watches old new ms watching (deleted before after w fit no_b no_a from to sends) same p =
    (λ i. hears ((sends ∙ ap (synced delete w) to) i) watching p)
    ∙ deleted-Watches before after w fit no_b no_a watching (subst (Watches watching) from same) p
    ∙ ap (λ ls. listed_path ls p) (sym to)
Change-Watches old new ms watching
      (updated before after w self fit fit_s no_b no_a is_it from to sends) same p =
    (λ i. hears ((sends ∙ ap (synced update w) to) i) watching p)
    ∙ updated-Watches before after w fit no_b no_a watching self fit_s is_it
        (subst (Watches watching) from same) p
    ∙ ap (λ ls. listed_path ls p) (sym to)
