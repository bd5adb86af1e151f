-- ===== src/Daemon/Sync/Shared.antt =====
-- Two changes before the daemon handles the first: the lister has both objects by then.
use fs_lib.Prelude.{List, ◌∷◌, ◌++◌, ◌≡◌, ◌∙◌, Bool, true, false, arith, Bytes, member}
use fs_lib.Api.{FsWatcher}
use fs_lib.Wire.Message.{msg_watch}
use fs_lib.Jfs.Session.Told.{AllFit}
use fs_lib.Daemon.Controller.{add}
use fs_lib.Daemon.Sync.{is_self}
use fs_lib.Daemon.Sync.Paths.{sync_watches-add_delete}
use fs_lib.Daemon.Sync.Reconnect.{listed_path}
use fs_lib.Daemon.Sync.Follow.{hears, messages, own-AllFit, heard-Names, is_self_refl}
use fs_lib.Daemon.Sync.Changes.{synced}

-- Two objects of different names that both list a path, both added before either is handled: the
-- daemon writes the path in none of its two messages, so that a path that JuiceFS did not watch is
-- not watched, although both objects list it. This holds whatever else is listed.
pub shared_path_missed :
    (a b : FsWatcher) (ls : List FsWatcher) (p : Bytes) (watching : Bytes → Bool)
    → is_self a b ≡ false
    → is_self b a ≡ false
    → AllFit a.spec.paths
    → AllFit b.spec.paths
    → member p a.spec.paths ≡ true
    → member p b.spec.paths ≡ true
    → watching p ≡ false
    → (listed_path (a ∷ b ∷ ls) p ≡ true)
      × (hears (synced add a (a ∷ b ∷ ls) ++ synced add b (a ∷ b ∷ ls)) watching p ≡ false)
unfolding hears
shared_path_missed a b ls p watching not_b not_a fit_a fit_b in_a in_b unwatched =
    let all = a ∷ b ∷ ls in
    let (paths_a, watched_a, _, wrote_a, _, names_a, _, own_a) =
      sync_watches-add_delete {E = Unit} a all in
    let (paths_b, watched_b, _, wrote_b, _, names_b, _, own_b) =
      sync_watches-add_delete {E = Unit} b all in
    let heard_a =
      heard-Names watched_a msg_watch a paths_a p names_a
        (own-AllFit a a all paths_a fit_a own_a) in
    let heard_b =
      heard-Names watched_b msg_watch b paths_b p names_b
        (own-AllFit b b all paths_b fit_b own_b) in
    (
      ground arith,
      (λ i. hears (messages (wrote_a i) ++ messages (wrote_b i)) watching p)
          ∙ ground (arith, heard_a, heard_b, own_a p, own_b p, is_self_refl a, is_self_refl b),
    )
