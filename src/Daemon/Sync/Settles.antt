-- ===== src/Daemon/Sync/Settles.antt =====
-- What one more item in the queue of Lag does to its last words.
use fs_lib.Prelude.{List, [], ◌∷◌, ◌++◌, ◌≡◌, refl, ap, ◌∙◌, Bool, Option, none, some, Bytes}
use fs_lib.Api.{FsWatcher}
use fs_lib.Daemon.Controller.{EnqueueObj}
use fs_lib.Daemon.Sync.Follow.{now}
use fs_lib.Daemon.Sync.Lag.{
  Queue, word, verdict, verdict-append, SameSelf, verdict-SameSelf, now-or_else,
}

pub settles-append :
    (q : Queue) (x : EnqueueObj FsWatcher) (ls : List FsWatcher) (p : Bytes)
    (watching listed : Bool)
    → now (verdict q ls p) watching ≡ listed
    → now (verdict (q ++ x ∷ []) ls p) watching ≡ now (word x ls p) listed
settles-append q x ls p watching listed e =
    ap (λ o. now o watching) (verdict-append q x ls p)
    ∙ now-or_else (word x ls p) (verdict q ls p) watching
    ∙ ap (now (word x ls p)) e

-- The last word decides, or the lists agree on the path.
pub settles-said :
    (q : Queue) (x : EnqueueObj FsWatcher) (ls : List FsWatcher) (p : Bytes)
    (watching listed : Bool)
    → word x ls p ≡ some listed
    → now (verdict (q ++ x ∷ []) ls p) watching ≡ listed
settles-said q x ls p watching listed e =
    settles-append q x ls p watching (now (verdict q ls p) watching) refl
    ∙ ap (λ o. now o (now (verdict q ls p) watching)) e

pub settles-silent :
    (q : Queue) (x : EnqueueObj FsWatcher) (old new : List FsWatcher) (p : Bytes)
    (watching listed : Bool)
    → word x new p ≡ none
    → SameSelf new old p
    → now (verdict q old p) watching ≡ listed
    → now (verdict (q ++ x ∷ []) new p) watching ≡ listed
settles-silent q x old new p watching listed e same settled =
    settles-append q x new p watching listed
      (ap (λ o. now o watching) (verdict-SameSelf q new old p same) ∙ settled)
    ∙ ap (λ o. now o listed) e

pub settles_now :
    (o : Option Bool) (watching listed : Bool) → now o watching ≡ listed → now o listed ≡ listed
settles_now none watching listed e = refl
settles_now (some b) watching listed e = e
