-- ===== src/Jfs/Session/Reorder.antt =====
-- A connection beside the send routine that an earlier one has left behind.
use fs_lib.Prelude.{
  ◌≤◌, List, [], ◌∷◌, ◌≡◌, inr, refl, true, false, none, arith, Bytes, length, member, equal_refl,
}
use fs_lib.Wire.Codec.{Fits}
use fs_lib.Wire.Message.{msg_watch, msg_unwatch}
use fs_lib.Jfs.Chan.{done, make_chan, send_to}
use fs_lib.Jfs.Watcher.{
  add_watch, Watcher, new_watcher, full_name, send, without, remove_watch, sync_write,
}
use fs_lib.Jfs.Watcher.Watches.{frame}
use fs_lib.Jfs.Connection.{run_task}
use fs_lib.Jfs.Session.{
  Session, begin, add_sends, add_appends, removes, runs, takes, writes, old_takes, old_writes,
  Reach, here, next, due,
}
use fs_lib.Jfs.Session.Told.{mention, told, tells-frame}

module _ (namespace name path : Bytes) where
  abbrev fresh : Watcher
  fresh = new_watcher namespace name

  abbrev watch_frame : Bytes
  watch_frame = frame msg_watch (path ∷ []) fresh

  abbrev unwatch_frame : Bytes
  unwatch_frame = frame msg_unwatch (path ∷ []) fresh

  -- What is left to send, what the peer got, and the list.
  abbrev at : List Bytes → List Bytes → List Bytes → Watcher
  at queue wire watches = record fresh {
    connected = true;
    send_q = record make_chan { queue = queue };
    wire = wire;
    watches = watches;
  }

  removed_one : without path (path ∷ []) ≡ []
  unfolding without
  removed_one = rw (equal_refl path) refl

  remove_done : remove_watch path (at [] [] (path ∷ [])) ≡ done (at (unwatch_frame ∷ []) [] [])
  unfolding remove_watch send send_to
  remove_done = rw removed_one refl

  -- Add and Remove, a frame for each send routine, and the earlier routine writes first.
  overtaken :
      Fits 255 path
      → Reach true false (begin fresh) (record {
        watcher = at [] (unwatch_frame ∷ watch_frame ∷ []) [];
        hand = none;
        old_hand = none;
        adding = none;
      })
  unfolding send send_to run_task sync_write
  overtaken fits =
      next
        (next
          (next
            (next
              (next
                (next
                  (next (next here (runs add_watch [] refl (inr refl) refl))
                    (add_sends path fits refl refl))
                  (add_appends path refl))
                (takes watch_frame [] refl refl))
              (removes path fits (inr refl) remove_done))
            (old_takes unwatch_frame [] refl refl refl))
          (old_writes unwatch_frame refl refl refl))
        (writes watch_frame refl refl)

  told_watch :
      length (full_name fresh) ≤ 255
      → Fits 255 path
      → told (unwatch_frame ∷ watch_frame ∷ []) path ≡ true
  unfolding mention member
  told_watch short fits = ground (
    arith,
    tells-frame msg_watch (path ∷ []) fresh path (omega arith) short (fits, tt),
    equal_refl path,
  )

-- A new watcher whose connection has a second send routine beside it can add a path, remove it, and
-- come to rest with the peer told to watch the path and the path not in its list. This holds for
-- every path and full name that fit their fields.
pub watch_outlives_remove :
    (namespace name path : Bytes)
    → length (full_name (new_watcher namespace name)) ≤ 255
    → Fits 255 path
    → (s : Session) × Reach true false (begin (new_watcher namespace name)) s
      × (s.watcher.init_task.queue ≡ [])
      × (due s ≡ [])
      × (s.old_hand ≡ none)
      × (s.adding ≡ none)
      × (told s.watcher.wire path ≡ true)
      × (member path s.watcher.watches ≡ false)
unfolding member
watch_outlives_remove namespace name path short fits = (
  _,
  overtaken namespace name path fits,
  refl,
  refl,
  refl,
  refl,
  told_watch namespace name path short fits,
  refl,
)
