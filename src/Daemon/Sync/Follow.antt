-- ===== src/Daemon/Sync/Follow.antt =====
-- What JuiceFS watches after the messages of SyncWatches and addWatchers, over a sequence of changes
-- of the watcher objects. A message is read by its fields, as the proxy reads such messages.
use fs_lib.Prelude.{
  ℕ, List, [], ◌∷◌, ◌++◌, ◌≡◌, refl, ap, ◌∙◌, Bool, true, false, ◌||◌, Option, none, some, inl, inr,
  Bool-cases, if◌then◌else◌, arith, Bytes, equal, equal_iff, equal_refl, member, subst,
}
use fs_lib.Api.{FsWatcher}
use fs_lib.Wire.Codec.{Fits, fields}
use fs_lib.Proxy.Channel.{parse_msg, parse_msg-fields}
use fs_lib.Jfs.Session.Told.{says, AllFit, map-AllFit}
use fs_lib.Daemon.Sync.{IpcMessage, Synced, wrote, is_self, get_chan_id}
use fs_lib.Daemon.Sync.Paths.{Names, OnlyOwn, watched_elsewhere, listed_self}
use fs_lib.Daemon.Sync.Reconnect.{listed_path}

-- What a message says of a path.
unfoldable pub heard : IpcMessage → Bytes → Option Bool
heard m p = says m.msg_type (parse_msg m.content).1 p

abbrev pub now : Option Bool → Bool → Bool
now none old = old
now (some b) old = b

-- The paths that are watched after the messages.
unfoldable pub hears : List IpcMessage → (Bytes → Bool) → Bytes → Bool
unfolding heard
hears [] watching p = watching p
hears (m ∷ ms) watching p = hears ms (λ q. now (heard m q) (watching q)) p

abbrev pub messages : {E : Type 0} → Synced E → List IpcMessage
messages (wrote ms) = ms
messages _ = []

-- JuiceFS watches what the objects list.
abbrev pub Watches : (Bytes → Bool) → List FsWatcher → Type 0
Watches watching ws = (p : Bytes) → watching p ≡ listed_path ws p

pub member-Fits : (p : Bytes) (ps : List Bytes) → AllFit ps → member p ps ≡ true → Fits 255 p
unfolding member
member-Fits p [] h m = cc
member-Fits p (q ∷ ps) h m = elim (Bool-cases (equal q p)) [
  | inl same ↦ subst (Fits 255) ((equal_iff q p).0 same) h.0
  | inr other ↦ member-Fits p ps h.1 (ground arith)
]

pub all_fit : (ps : List Bytes) → ((p : Bytes) → member p ps ≡ true → Fits 255 p) → AllFit ps
unfolding member
all_fit [] h = tt
all_fit (q ∷ ps) h = (h q (ground (arith, equal_refl q)), all_fit ps (λ p m. h p (ground arith)))

pub own-AllFit :
    (watcher source : FsWatcher) (ls : List FsWatcher) (paths : List Bytes)
    → AllFit source.spec.paths
    → OnlyOwn watcher ls source paths
    → AllFit paths
own-AllFit watcher source ls paths fit own =
    all_fit paths (λ p m. member-Fits p source.spec.paths fit (ground (arith, own p)))

pub heard-fields :
    (m : IpcMessage) (name : Bytes) (paths : List Bytes) (p : Bytes)
    → m.content ≡ fields (name ∷ paths)
    → AllFit paths
    → heard m p ≡ says m.msg_type paths p
unfolding heard
heard-fields m name paths p content fit =
    ap (λ c. says m.msg_type (parse_msg c).1 p) content
    ∙ ap (λ (r : Bytes × List Bytes). says m.msg_type r.1 p) (parse_msg-fields name paths)
    ∙ ap (λ ps. says m.msg_type ps p) (map-AllFit paths fit)

pub heard-Names :
    (m : IpcMessage) (t : ℕ) (w : FsWatcher) (paths : List Bytes) (p : Bytes)
    → Names m t w paths
    → AllFit paths
    → heard m p ≡ says t paths p
heard-Names m t w paths p (typed, content) fit =
    heard-fields m (get_chan_id w) paths p content fit ∙ ap (λ (k : ℕ). says k paths p) typed

-- The object is not in the list under its name and namespace.
abbrev pub IsAbsent : FsWatcher → List FsWatcher → Type 0
IsAbsent w [] = Unit
IsAbsent w (l ∷ ls) = (is_self w l ≡ false) × IsAbsent w ls

elsewhere_absent :
    (w : FsWatcher) (ls : List FsWatcher) (p : Bytes)
    → IsAbsent w ls
    → watched_elsewhere w ls p ≡ listed_path ls p
elsewhere_absent w [] p h = refl
elsewhere_absent w (l ∷ ls) p h = ground (arith, elsewhere_absent w ls p h.1)

elsewhere-append :
    (w : FsWatcher) (xs ys : List FsWatcher) (p : Bytes)
    → watched_elsewhere w (xs ++ ys) p ≡ (watched_elsewhere w xs p || watched_elsewhere w ys p)
elsewhere-append w [] ys p = refl
elsewhere-append w (x ∷ xs) ys p = ground (arith, elsewhere-append w xs ys p)

listed_path-append :
    (xs ys : List FsWatcher) (p : Bytes)
    → listed_path (xs ++ ys) p ≡ (listed_path xs p || listed_path ys p)
listed_path-append [] ys p = refl
listed_path-append (x ∷ xs) ys p = ground (arith, listed_path-append xs ys p)

pub listed_self-append :
    (w : FsWatcher) (xs ys : List FsWatcher) (o : Option FsWatcher)
    → listed_self w (xs ++ ys) o ≡ listed_self w ys (listed_self w xs o)
listed_self-append w [] ys o = refl
listed_self-append w (x ∷ xs) ys o = listed_self-append w xs ys (if is_self w x then some x else o)

pub listed_self_absent :
    (w : FsWatcher) (xs : List FsWatcher) (o : Option FsWatcher)
    → IsAbsent w xs
    → listed_self w xs o ≡ o
listed_self_absent w [] o h = refl
listed_self_absent w (x ∷ xs) o h = rw h.0 (listed_self_absent w xs o h.1)

pub is_self_refl : (w : FsWatcher) → is_self w w ≡ true
is_self_refl w = ground (arith, equal_refl w.name, equal_refl w.namespace)

module _ (before after : List FsWatcher) (w : FsWatcher) (no_before : IsAbsent w before)
    (no_after : IsAbsent w after) where
  -- The list with the object replaced by one of its name and namespace, seen from the object.
  pub others :
      (self : FsWatcher) (p : Bytes)
      → is_self w self ≡ true
      → watched_elsewhere w (before ++ self ∷ after) p ≡ listed_path (before ++ after) p
  others self p same =
      elsewhere-append w before (self ∷ after) p
      ∙ ground (
        arith,
        elsewhere_absent w before p no_before,
        elsewhere_absent w after p no_after,
        listed_path-append before after p,
      )

  pub others_gone :
      (p : Bytes) → watched_elsewhere w (before ++ after) p ≡ listed_path (before ++ after) p
  others_gone p =
      elsewhere-append w before after p
      ∙ ground (
        arith,
        elsewhere_absent w before p no_before,
        elsewhere_absent w after p no_after,
        listed_path-append before after p,
      )

  pub with_self :
      (self : FsWatcher) (p : Bytes)
      → listed_path (before ++ self ∷ after) p
        ≡ (member p self.spec.paths || listed_path (before ++ after) p)
  with_self self p =
      listed_path-append before (self ∷ after) p ∙ ground (arith, listed_path-append before after p)

  pub self_listed :
      (self : FsWatcher)
      → is_self w self ≡ true
      → listed_self w (before ++ self ∷ after) none ≡ some self
  self_listed self same =
      listed_self-append w before (self ∷ after) none
      ∙ rw same (listed_self_absent w after (some self) no_after)
