-- ===== src/Tests/Jfs.antt =====
-- The client library's watcher of jfsnotify/backend_jfs.go.
use fs_lib.Prelude.{[], ◌∷◌, ◌++◌, ◌≡◌, refl, true, none, codes, equal}
use fs_lib.Wire.Message.{msg_watch, msg_unwatch, package_msg}
use fs_lib.Jfs.Chan.{done, make_chan, send_to}
use fs_lib.Jfs.Watcher.{Watcher, new_watcher, full_name, add, remove_watch, send, layout}
use fs_lib.Jfs.Connection.{connect, run_tasks, run_task}

abbrev fresh : Watcher
fresh = new_watcher (codes "ns") (codes "p/c/w")

abbrev added : Watcher
added = record fresh {
  watches = codes "/data" ∷ [];
  send_q = record make_chan {
    queue = package_msg msg_watch (layout (full_name fresh) (codes "/data" ∷ [])) ∷ [];
  };
}

fresh-add : add (codes "/data") fresh ≡ done added
unfolding add send send_to
fresh-add = refl

abbrev removed : Watcher
removed = record added {
  watches = [];
  send_q = record make_chan {
    queue =
        added.send_q.queue
        ++ package_msg msg_unwatch (layout (full_name fresh) (codes "/data" ∷ [])) ∷ [];
  };
}

added_remove : remove_watch (codes "/data") added ≡ done removed
unfolding remove_watch send send_to equal
added_remove = refl

abbrev replayed : Watcher
replayed = record added {
  connected = true;
  send_q = record make_chan {
    queue =
        added.send_q.queue
        ++ package_msg msg_watch (layout (full_name fresh) (codes "/data" ∷ [])) ∷ [];
  };
}

added-connect : connect none added ≡ done replayed
unfolding connect run_tasks run_task send send_to
added-connect = refl
