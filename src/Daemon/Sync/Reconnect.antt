-- ===== src/Daemon/Sync/Reconnect.antt =====
-- addWatchers of k8s/cmd/fsnotify-daemon/app/app.go: what the daemon tells JuiceFS to watch after
-- it has reconnected.
use fs_lib.Prelude.{
  ℕ, List, [], ◌∷◌, ◌≡◌, refl, ap, ◌∙◌, Bool, true, false, ◌||◌, arith, Bytes, codes, ok, lookup,
  insert, keys, lookup-nil, member, distinct, IsRangeOrder, distinct-keys-insert,
}
use fs_lib.Api.{FsWatcher}
use fs_lib.Wire.Codec.{field, fields}
use fs_lib.Wire.Message.{msg_watch, msg_clear}
use fs_lib.Daemon.Sync.{PathSet, add_paths, path_set, watch_all, add_watchers}
use fs_lib.Daemon.Sync.Paths.{held, held-add_paths, append_fields-fields}

-- Some object lists the path.
abbrev pub listed_path : List FsWatcher → Bytes → Bool
listed_path [] p = false
listed_path (w ∷ ws) p = member p w.spec.paths || listed_path ws p

held-path_set :
    (p : Bytes) (ws : List FsWatcher) (m : PathSet)
    → held p (path_set ws m) ≡ (listed_path ws p || held p m)
unfolding path_set
held-path_set p [] m = refl
held-path_set p (w ∷ ws) m =
    held-path_set p ws (add_paths w.spec.paths m) ∙ ground (arith, held-add_paths p w.spec.paths m)

distinct-add_paths :
    (ps : List Bytes) (m : PathSet)
    → distinct (keys m) ≡ true
    → distinct (keys (add_paths ps m)) ≡ true
unfolding add_paths
distinct-add_paths [] m h = h
distinct-add_paths (p ∷ ps) m h =
    distinct-add_paths ps (insert p 1 m) (distinct-keys-insert p 1 m h)

distinct-path_set :
    (ws : List FsWatcher) (m : PathSet)
    → distinct (keys m) ≡ true
    → distinct (keys (path_set ws m)) ≡ true
unfolding path_set
distinct-path_set [] m h = h
distinct-path_set (w ∷ ws) m h =
    distinct-path_set ws (add_paths w.spec.paths m) (distinct-add_paths w.spec.paths m h)

member-keys : (p : Bytes) (m : PathSet) → member p (keys m) ≡ held p m
unfolding member lookup
member-keys p [] = refl
member-keys p ((i, v) ∷ m) = ground (arith, member-keys p m)

-- When the daemon reconnects to JuiceFS it writes a CLEAR and then one WATCH, in the name
-- "cluster", that has each path of each listed object exactly once, in any order.
pub add_watchers-paths :
    (E : Type 0) (order : List Bytes → List Bytes) (ws : List FsWatcher)
    → IsRangeOrder order
    → (paths : List Bytes) × (add_watchers {E = E} order (ok ws)
        ≡ record { msg_type = msg_clear; content = [] }
          ∷ record { msg_type = msg_watch; content = fields (codes "cluster" ∷ paths) }
          ∷ [])
      × (distinct paths ≡ true)
      × ((p : Bytes) → member p paths ≡ listed_path ws p)
unfolding add_watchers watch_all
add_watchers-paths E order ws range =
    let set = path_set ws [] in
    (
      order (keys set),
      ap
          (λ b.
            record { msg_type = msg_clear; content = [] }
            ∷ record { msg_type = msg_watch; content = b }
            ∷ [])
          (append_fields-fields (field 255 (codes "cluster")) (order (keys set))),
      range.once (keys set) (distinct-path_set ws [] (unfold distinct in refl)),
      λ p.
          range.same p (keys set)
          ∙ member-keys p set
          ∙ held-path_set p ws []
          ∙ ground (arith, lookup-nil {V = ℕ} p),
    )
