-- ===== src/Ipc.antt =====
-- IpcConn of jfsnotify/ipc.go: the messages of golang-ipc as a byte stream of frames, and back.
-- The IPC client is the list of what its Read returns; a read behind its end blocks.
pub mod Stream
pub mod Connect
use fs_lib.Prelude.{
  ℕ, ◌+◌, ◌-◌, min, List, [], ◌∷◌, ◌++◌, Bool, false, ◌&&◌, ◌||◌, Option, none, some, ltb, leb,
  ◌==◌, if◌then◌else◌, Bytes, ℤ, pos, negsuc, to_uint32, length, take, drop,
}
use fs_lib.Wire.Codec.{put_uint32, bytes_to_int}

-- ipc.Message; `reconnecting` says that its status is that of ipc.ReConnecting
pub record Message : Type 0 where
  pub msg_type : ℤ
  pub reconnecting : Bool
  pub content : Bytes

-- msgCache, with `none` for nil, and cacheOffset
pub record IpcConn : Type 0 where
  pub msg_cache : Option Bytes
  pub cache_offset : ℕ
  pub incoming : List (Option Message)

-- The results of Read: the bytes copied; the error of the client; io.ErrClosedPipe; a wait.
pub data ReadResult : Type 0 where
  read_bytes : Bytes → ReadResult
  client_error : ReadResult
  closed_pipe : ReadResult
  waits : ReadResult

-- m.MsgType == -2 || (m.MsgType == -1 && m.Status == r.String())
unfoldable pub is_broken : Message → Bool
is_broken m = elim m.msg_type [ pos n ↦ false | negsuc n ↦ n == 1 || (n == 0 && m.reconnecting) ]

-- The cache for a message: its length, its type and its data.
unfoldable pub framed : Message → Bytes
framed m = put_uint32 (4 + length m.content) ++ (put_uint32 (to_uint32 m.msg_type) ++ m.content)

-- Read behind the filling of the cache
unfoldable pub copy_out : ℕ → Bytes → IpcConn → IpcConn × ReadResult
copy_out n cache i =
    let size = min n (length cache - i.cache_offset) in
    let offset = i.cache_offset + size in
    let left = if leb (length cache) offset then none else some cache in
    (
      record i { msg_cache = left; cache_offset = offset },
      read_bytes (take size (drop i.cache_offset cache)),
    )

read_message : ℕ → List (Option Message) → IpcConn → IpcConn × ReadResult
unfolding is_broken framed copy_out
read_message n [] i = (i, waits)
read_message n (none ∷ rest) i = (record i { incoming = rest }, client_error)
read_message n (some m ∷ rest) i =
    if is_broken m
    then (record i { incoming = rest }, closed_pipe)
    else copy_out n (framed m)
        (record i { msg_cache = some (framed m); cache_offset = 0; incoming = rest })

read_cached : ℕ → Option Bytes → IpcConn → IpcConn × ReadResult
unfolding read_message
read_cached n none i = read_message n i.incoming i
read_cached n (some cache) i = copy_out n cache i

-- Read into a buffer of `n` bytes
unfoldable pub read : ℕ → IpcConn → IpcConn × ReadResult
unfolding read_cached
read n i = read_cached n i.msg_cache i

-- The results of Write: nothing is written; a message goes to the client; a panic of the slice.
pub data WriteResult : Type 0 where
  ignored : WriteResult
  sent : ℕ → Bytes → WriteResult
  slice_panics : WriteResult

-- Write, up to the answer of the client: the type is read behind the frame's length
unfoldable pub write : Bytes → WriteResult
write b =
    if leb (length b) 4
    then ignored
    else if ltb (length b) 8
    then slice_panics
    else sent (bytes_to_int (take 4 (drop 4 b))) (drop 8 b)
