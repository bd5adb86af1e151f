-- ===== src/Jfs/Watcher.antt =====
-- A watcher of jfsnotify/backend_jfs.go and its operations. The queue is the channel sendQ, and
-- `wire` has the frames that the connection has written.
pub mod Layout
pub mod Watches
use fs_lib.Prelude.{
  ℕ, ◌+◌, ◌*◌, ◌/◌, List, [], ◌∷◌, ◌++◌, Bool, true, false, Option, none, some, if◌then◌else◌,
  Bytes, equal, length, take, drop,
}
use fs_lib.Wire.Codec.{copy, zeros}
use fs_lib.Wire.Message.{package_msg, msg_watch, msg_unwatch}
use fs_lib.Jfs.Chan.{Outcome, done, Chan, make_chan, send_to, close_chan, ◌>>=◌}

-- what `start` is to do when it is connected
pub data InitTask : Type 0 where
  clear_first add_watch : InitTask

-- `connected` is `fconn != nil`, `cancelled` a done context.
pub record Watcher : Type 0 where
  pub namespace : Bytes
  pub name : Bytes
  pub watches : List Bytes
  pub connected : Bool
  pub cancelled : Bool
  pub errors : Chan Bytes
  pub init_task : Chan InitTask
  pub reconnect : Chan ℕ
  pub send_q : Chan Bytes
  pub wire : List Bytes

-- the value that newJFSWatcher builds
abbrev pub new_watcher : Bytes → Bytes → Watcher
new_watcher namespace name = record {
  namespace = namespace;
  name = name;
  watches = [];
  connected = false;
  cancelled = false;
  errors = make_chan;
  init_task = make_chan;
  reconnect = make_chan;
  send_q = make_chan;
  wire = [];
}

-- podNamespace+"/"+w.name
abbrev pub full_name : Watcher → Bytes
full_name w = w.namespace ++ b'/' ∷ w.name

-- d := unsafe.Slice(&data[offset], 255); copy(d, s)
unfoldable pub copy_at : ℕ → Bytes → Bytes → Bytes
copy_at offset s buffer =
    take offset buffer ++ (copy (take 255 (drop offset buffer)) s ++ drop (offset + 255) buffer)

-- the loop of `send` over the watches
unfoldable pub fill : ℕ → List Bytes → Bytes → Bytes
unfolding copy_at
fill offset [] buffer = buffer
fill offset (s ∷ ss) buffer = fill (offset + 255) ss (copy_at offset s buffer)

-- the data of `send`
unfoldable pub layout : Bytes → List Bytes → Bytes
unfolding fill
layout sender watches = fill 255 watches (copy (zeros ((length watches + 1) * 255)) sender)

-- send
unfoldable pub send : ℕ → List Bytes → Watcher → Outcome Watcher
unfolding layout
send watch_type watches w = do
  q ← send_to 255 (package_msg watch_type (layout (full_name w) watches)) w.send_q
  done (record w { send_q = q })

-- internelAddWith; its options are not read
unfoldable pub add : Bytes → Watcher → Outcome Watcher
add path w = do
  w' ← send msg_watch (path ∷ []) w
  done (record w' { watches = w'.watches ++ path ∷ [] })

unfoldable pub without : Bytes → List Bytes → List Bytes
without path [] = []
without path (s ∷ ss) = let rest = without path ss in if equal s path then rest else s ∷ rest

-- internelRemove
unfoldable pub remove_watch : Bytes → Watcher → Outcome Watcher
unfolding without
remove_watch path w = do
  w' ← send msg_unwatch (path ∷ []) w
  done (record w' { watches = without path w'.watches })

-- internelWatchList
unfoldable pub watch_list : Watcher → List Bytes
watch_list w = w.watches

-- internelClose
unfoldable pub close_watcher : Watcher → Watcher
close_watcher w = record w { cancelled = true }

-- clear, which `start` calls when the context is done
unfoldable pub clear : Watcher → Outcome Watcher
clear w = do
  e1 ← close_chan w.errors
  e2 ← close_chan e1
  i ← close_chan w.init_task
  r ← close_chan w.reconnect
  q ← close_chan w.send_q
  done (record w { errors = e2; init_task = i; reconnect = r; send_q = q })

-- The errors of goframe that isSocketError tells apart; ErrClosed is one of the others.
pub data FrameError : Type 0 where
  too_less_length unexpected_fixed_length unsupported_length other_error : FrameError

-- isSocketError of jfsnotify/utils.go
abbrev pub is_socket_error : FrameError → Bool
is_socket_error other_error = true
is_socket_error _ = false

-- syncWrite; `answer` is what WriteFrame returns, `none` for nil
unfoldable pub sync_write : Option FrameError → Bytes → Watcher → Watcher × Option FrameError
sync_write answer b w =
    if w.connected
    then elim answer [ none ↦ (record w { wire = w.wire ++ b ∷ [] }, none) | some e ↦ (w, some e) ]
    else (w, some other_error)
