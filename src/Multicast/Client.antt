-- ===== src/Multicast/Client.antt =====
-- Client of k8s/pkg/multicast/tcpserver.go: a connection with a bounded queue of frames and one
-- writer. The helper `H` is what InitClient hangs on the client, `close` its Close.
pub mod Queue
pub mod Line
pub mod Delivery
use fs_lib.Prelude.{
  ℕ, ◌+◌, List, [], ◌∷◌, ◌++◌, Bool, true, false, Option, none, some, ltb, if◌then◌else◌, Bytes,
  length,
}

-- sendQueueDepth
abbrev pub send_queue_depth : ℕ
send_queue_depth = 255

-- `wire` has the frames that WriteFrame has written, `done` is the closed channel of that name,
-- which closeOnce closes, and `published` says that Server.watchClients holds the client.
pub record Client (H : Type 0) : Type 0 where
  pub cid : Bytes
  pub conn_open : Bool
  pub done : Bool
  pub send_q : List Bytes
  pub wire : List Bytes
  pub helper : Option H
  pub published : Bool

pub data SendResult : Type 0 where
  queued client_closed slow_consumer : SendResult

-- newClient
abbrev pub new_client : {H : Type 0} → Client H
new_client = record {
  cid = [];
  conn_open = true;
  done = false;
  send_q = [];
  wire = [];
  helper = none;
  published = false;
}

module _ {H : Type 0} (close : H → H) where
  close_helper : Option H → Option H
  close_helper none = none
  close_helper (some h) = some (close h)

  -- removeChannel of server.go, the callback of shutdown: Close of the helper, then the delete
  -- from the table.
  pub remove_channel : Client H → Client H
  unfolding close_helper
  remove_channel c = record c { helper = close_helper c.helper; published = false }

  -- shutdown: the body of closeOnce.Do runs once.
  unfoldable pub shutdown : Client H → Client H
  unfolding remove_channel
  shutdown c = if c.done then c else remove_channel (record c { done = true; conn_open = false })

  -- SendBytes. The second select finds room in the queue, or drops the client.
  unfoldable pub send_bytes : Bytes → Client H → Client H × SendResult
  unfolding shutdown
  send_bytes b c =
      if c.done
      then (c, client_closed)
      else if ltb (length c.send_q) send_queue_depth
      then (record c { send_q = c.send_q ++ b ∷ [] }, queued)
      else (shutdown c, slow_consumer)

  -- One round of writeLoop: `ok_write` is the answer of WriteFrame. Without a frame, or after the
  -- connection went down, nothing happens.
  write_round : Bool → List Bytes → Client H → Client H
  write_round ok_write [] c = c
  write_round ok_write (b ∷ q) c =
      if ok_write
      then record c { send_q = q; wire = c.wire ++ b ∷ [] }
      else shutdown (record c { send_q = q })

  unfoldable pub write_loop : Bool → Client H → Client H
  unfolding write_round
  write_loop ok_write c = if c.done then c else write_round ok_write c.send_q c

  -- What `listen` does with the outcome of ReadFrame: a failed read shuts the client down, a
  -- frame goes to onNewMessage.
  unfoldable pub read_round : (Bytes → Client H → Client H) → Option Bytes → Client H → Client H
  read_round on_new_message none c = shutdown c
  read_round on_new_message (some message) c = on_new_message message c

  -- Close
  unfoldable pub close_client : Client H → Client H
  close_client = shutdown
