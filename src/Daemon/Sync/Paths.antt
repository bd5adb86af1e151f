-- ===== src/Daemon/Sync/Paths.antt =====
-- Which paths the daemon tells JuiceFS to watch and to forget.
use fs_lib.Prelude.{
  ℕ, List, [], ◌∷◌, ◌++◌, ◌≡◌, refl, sym, ap, ◌∙◌, inl, inr, Bool, true, false, not, ◌&&◌, ◌||◌,
  Option, none, some, Bool-cases, if◌then◌else◌, arith, Bytes, equal_iff, ok, append_assoc,
  append-nil, lookup, insert, lookup-insert, lookup-nil, member,
}
use fs_lib.Api.{FsWatcher}
use fs_lib.Wire.Codec.{field, fields}
use fs_lib.Wire.Message.{msg_watch, msg_unwatch}
use fs_lib.Daemon.Controller.{add, update, delete}
use fs_lib.Daemon.Sync.{
  IpcMessage, wrote, panics, PathSet, add_paths, is_self, scan, get_chan_id, own_paths,
  append_fields, watch_message, sync_action, sync_watches,
}

pub append_fields-fields : (b : Bytes) (ps : List Bytes) → append_fields b ps ≡ b ++ fields ps
unfolding append_fields
append_fields-fields b [] = sym (append-nil b)
append_fields-fields b (p ∷ ps) =
    append_fields-fields (b ++ field 255 p) ps ∙ append_assoc b (field 255 p) (fields ps)

abbrev pub held : Bytes → PathSet → Bool
held p m = elim (lookup p m) [ none ↦ false | some n ↦ true ]

pub held-add_paths :
    (p : Bytes) (ps : List Bytes) (m : PathSet)
    → held p (add_paths ps m) ≡ (member p ps || held p m)
unfolding add_paths member
held-add_paths p [] m = refl
held-add_paths p (q ∷ ps) m =
    held-add_paths p ps (insert q 1 m) ∙ ground (arith, lookup-insert q p 1 m)

-- A watcher object other than this one lists the path.
abbrev pub watched_elsewhere : FsWatcher → List FsWatcher → Bytes → Bool
watched_elsewhere watcher [] p = false
watched_elsewhere watcher (l ∷ ls) p =
    (not (is_self watcher l) && member p l.spec.paths) || watched_elsewhere watcher ls p

scan-held :
    (watcher : FsWatcher) (p : Bytes) (ls : List FsWatcher) (m : PathSet) (self : Option FsWatcher)
    → held p (scan watcher ls (m, self)).0 ≡ (watched_elsewhere watcher ls p || held p m)
unfolding scan
scan-held watcher p [] m self = refl
scan-held watcher p (l ∷ ls) m self = elim (Bool-cases (is_self watcher l)) [
  | inl same ↦ rw (same, scan) (scan-held watcher p ls m (some l))
  | inr other ↦
      rw (other, scan)
        (scan-held watcher p ls (add_paths l.spec.paths m) self
          ∙ ground (arith, held-add_paths p l.spec.paths m))
]

member-own_paths :
    (p : Bytes) (m : PathSet) (ps : List Bytes)
    → member p (own_paths m ps) ≡ (member p ps && not (held p m))
unfolding own_paths member
member-own_paths p m [] = refl
member-own_paths p m (q ∷ ps) = ground (arith, equal_iff q p, member-own_paths p m ps)

-- A message of the daemon whose texts are the channel id of an object and some paths.
abbrev pub Names : IpcMessage → ℕ → FsWatcher → List Bytes → Type 0
Names msg msg_type watcher paths =
    (msg.msg_type ≡ msg_type) × (msg.content ≡ fields (get_chan_id watcher ∷ paths))

-- The paths are those of `source` that no object but `watcher` lists.
abbrev pub OnlyOwn : FsWatcher → List FsWatcher → FsWatcher → List Bytes → Type 0
OnlyOwn watcher ls source paths =
    (p : Bytes)
    → member p paths ≡ (member p source.spec.paths && not (watched_elsewhere watcher ls p))

watch_message-Names :
    (t : ℕ) (m : PathSet) (w : FsWatcher)
    → Names (watch_message t m w) t w (own_paths m w.spec.paths)
unfolding watch_message
watch_message-Names t m w =
    (refl, append_fields-fields (field 255 (get_chan_id w)) (own_paths m w.spec.paths))

-- The set that a run over the list starts from an empty set.
abbrev watched_by_others : FsWatcher → List FsWatcher → PathSet
watched_by_others watcher ls = (scan watcher ls ([], none)).0

own_paths-OnlyOwn :
    (watcher : FsWatcher) (ls : List FsWatcher) (source : FsWatcher)
    → OnlyOwn watcher ls source (own_paths (watched_by_others watcher ls) source.spec.paths)
own_paths-OnlyOwn watcher ls source p =
    member-own_paths p (watched_by_others watcher ls) source.spec.paths
    ∙ ground (arith, scan-held watcher p ls [] none, lookup-nil {V = ℕ} p)

-- On an ADD the daemon writes one WATCH, and on a DELETE one UNWATCH, of the object's paths that no
-- other object lists: a path that another object still lists is never unwatched.
pub sync_watches-add_delete :
    {E : Type 0} (watcher : FsWatcher) (ls : List FsWatcher)
    → (paths : List Bytes) × (watched : IpcMessage) × (unwatched : IpcMessage) × (sync_watches
          {E = E} add
          (some watcher)
          (ok ls)
        ≡ wrote (watched ∷ []))
      × (sync_watches {E = E} delete (some watcher) (ok ls) ≡ wrote (unwatched ∷ []))
      × Names watched msg_watch watcher paths
      × Names unwatched msg_unwatch watcher paths
      × OnlyOwn watcher ls watcher paths
unfolding sync_watches
sync_watches-add_delete watcher ls =
    let m = watched_by_others watcher ls in
    (
      own_paths m watcher.spec.paths,
      watch_message msg_watch m watcher,
      watch_message msg_unwatch m watcher,
      refl,
      refl,
      watch_message-Names msg_watch m watcher,
      watch_message-Names msg_unwatch m watcher,
      own_paths-OnlyOwn watcher ls watcher,
    )

-- The object that the list has under the same name and namespace, the last if there are several.
abbrev pub listed_self : FsWatcher → List FsWatcher → Option FsWatcher → Option FsWatcher
listed_self watcher [] self = self
listed_self watcher (l ∷ ls) self =
    listed_self watcher ls (if is_self watcher l then some l else self)

scan_self :
    (watcher : FsWatcher) (ls : List FsWatcher) (m : PathSet) (self : Option FsWatcher)
    → (scan watcher ls (m, self)).1 ≡ listed_self watcher ls self
unfolding scan
scan_self watcher [] m self = refl
scan_self watcher (l ∷ ls) m self = elim (Bool-cases (is_self watcher l)) [
  | inl same ↦ rw (same, scan) (scan_self watcher ls m (some l))
  | inr other ↦ rw (other, scan) (scan_self watcher ls (add_paths l.spec.paths m) self)
]

-- On an UPDATE of an object that is still listed the daemon first writes one UNWATCH of the old
-- object's paths, then one WATCH of the listed object's paths, both without those that another
-- object lists.
pub sync_watches-update :
    {E : Type 0} (watcher self : FsWatcher) (ls : List FsWatcher)
    → listed_self watcher ls none ≡ some self
    → (old : List Bytes) × (new : List Bytes) × (unwatched : IpcMessage) × (watched : IpcMessage)
      × (sync_watches {E = E} update (some watcher) (ok ls) ≡ wrote (unwatched ∷ watched ∷ []))
      × Names unwatched msg_unwatch watcher old
      × Names watched msg_watch self new
      × OnlyOwn watcher ls watcher old
      × OnlyOwn watcher ls self new
unfolding sync_watches
sync_watches-update watcher self ls h =
    let m = watched_by_others watcher ls in
    (
      own_paths m watcher.spec.paths,
      own_paths m self.spec.paths,
      watch_message msg_unwatch m watcher,
      watch_message msg_watch m self,
      ap (λ o. sync_action update watcher (m, o)) (scan_self watcher ls [] none ∙ h),
      watch_message-Names msg_unwatch m watcher,
      watch_message-Names msg_watch m self,
      own_paths-OnlyOwn watcher ls watcher,
      own_paths-OnlyOwn watcher ls self,
    )

-- On an UPDATE of an object that is no longer listed the handler panics.
pub sync_watches-update_missing :
    {E : Type 0} (watcher : FsWatcher) (ls : List FsWatcher)
    → listed_self watcher ls none ≡ none
    → sync_watches {E = E} update (some watcher) (ok ls) ≡ panics
unfolding sync_watches
sync_watches-update_missing watcher ls h =
    ap (λ o. sync_action update watcher (watched_by_others watcher ls, o))
      (scan_self watcher ls [] none ∙ h)
