-- ===== src/Tests/Session.antt =====
-- Connections of the client library and of the daemon, and clients of the server, step by step.
use fs_lib.Prelude.{[], ◌∷◌, ◌++◌, ◌≡◌, inr, refl, true, false, none, arith, Bytes, codes, member}
use fs_lib.Wire.Codec.{trim, Fits}
use fs_lib.Wire.Message.{msg_watch}
use fs_lib.Jfs.Chan.{done, send_to}
use fs_lib.Jfs.Watcher.{add_watch, Watcher, new_watcher, send, sync_write, other_error}
use fs_lib.Jfs.Watcher.Watches.{frame}
use fs_lib.Jfs.Connection.{run_task}
use fs_lib.Jfs.Session.{
  Session, begin, add_sends, add_appends, runs, takes, writes, Reach, here, next, due,
}
use fs_lib.Jfs.Session.Told.{told, mention}
use fs_lib.Jfs.Session.Quiet.{IsReady, session_agrees}
use fs_lib.Jfs.Session.Reorder.{watch_outlives_remove}
use fs_lib.Jfs.Session.LostAdd.{add_across, add_is_lost}

abbrev fresh : Watcher
fresh = new_watcher (codes "ns") (codes "p/c/w")

abbrev path : Bytes
path = codes "/data"

abbrev watch_frame : Bytes
watch_frame = frame msg_watch (path ∷ []) fresh

path-Fits : Fits 255 path
unfolding trim
path-Fits = record { short = omega arith; clean = refl }

fresh-IsReady : IsReady fresh
fresh-IsReady = record {
  name_fits = omega arith;
  watches_fit = tt;
  queue_last = λ p b h. unfold mention in cc;
}

-- The replay of nothing, an Add, and its frame taken and written.
abbrev at_rest : Session
at_rest = record {
  watcher = record fresh { connected = true; wire = watch_frame ∷ []; watches = path ∷ [] };
  hand = none;
  old_hand = none;
  adding = none;
}

rests : Reach false false (begin fresh) at_rest
unfolding send send_to run_task sync_write
rests =
    next
      (next
        (next
          (next (next here (runs add_watch [] refl (inr refl) refl))
            (add_sends path path-Fits refl refl))
          (takes watch_frame [] refl refl))
        (add_appends path refl))
      (writes watch_frame refl refl)

session_agrees_example : told at_rest.watcher.wire path ≡ member path at_rest.watcher.watches
session_agrees_example = session_agrees fresh at_rest fresh-IsReady rests refl refl refl path

watch_outlives_remove_example :
    (s : Session) × Reach true false (begin fresh) s
    × (s.watcher.init_task.queue ≡ [])
    × (due s ≡ [])
    × (s.old_hand ≡ none)
    × (s.adding ≡ none)
    × (told s.watcher.wire path ≡ true)
    × (member path s.watcher.watches ≡ false)
watch_outlives_remove_example =
    watch_outlives_remove (codes "ns") (codes "p/c/w") path (omega arith) path-Fits

add_is_lost_example :
    (w : Watcher) × (add_across other_error path (record fresh { connected = true }) ≡ done w)
    × (member path w.watches ≡ true)
    × (told (w.wire ++ w.send_q.queue) path ≡ false)
add_is_lost_example = add_is_lost (codes "ns") (codes "p/c/w") path
