-- ===== src/Tests/Wire.antt =====
-- Messages, events and frames of jfsnotify/utils.go, fsnotify.go and ipc.go.
use fs_lib.Prelude.{
  ◌/◌, ◌≤◌, ◌<◌, [], ◌∷◌, ◌++◌, ◌≡◌, ◌≢◌, refl, false, none, some, Bytes, codes, ok, pos, length,
  take, drop, replicate,
}
use fs_lib.Event.{Event, has}
use fs_lib.Event.Text.{op_string, op_string-names}
use fs_lib.Wire.Codec.{put_uint32, bytes_to_int, field, trim}
use fs_lib.Wire.Frames.{frame_size, pack_event, read_frame, unpack_event}
use fs_lib.Wire.RoundTrip.{pack_all, as_read, unpack_event-pack_all, unpack_event-length}
use fs_lib.Ipc.{Message, IpcConn, read_bytes, read}
use fs_lib.Ipc.Stream.{stream, IsSound, read-stream}

abbrev created : Event
created = record { name = codes "/mnt/a/x"; op = 1; key = codes "/mnt/a" }

abbrev changed : Event
changed = record { name = codes "/mnt/a/y"; op = 18; key = codes "/mnt/a" }

read_back : unpack_event (pack_all (created ∷ changed ∷ [])) ≡ ok (created ∷ changed ∷ [])
unfolding unpack_event pack_event read_frame field put_uint32 bytes_to_int trim take drop replicate
read_back = refl

unpack_event-pack_all_example :
    unpack_event (pack_all (created ∷ changed ∷ [])) ≡ ok (as_read created ∷ as_read changed ∷ [])
unpack_event-pack_all_example = unpack_event-pack_all created (changed ∷ [])

unpack_event-length_example :
    length (as_read created ∷ as_read changed ∷ [])
    ≡ length (pack_all (created ∷ changed ∷ [])) / frame_size
unpack_event-length_example =
    unpack_event-length (pack_all (created ∷ changed ∷ [])) (as_read created ∷ as_read changed ∷ [])
      (unpack_event-pack_all created (changed ∷ []))

op_string-names_example : op_string 18 ≡ codes "WRITE|CHMOD"
unfolding has
op_string-names_example = op_string-names 18

abbrev hello : Message
hello = record { msg_type = pos 6; reconnecting = false; content = codes "hi" }

abbrev conn : IpcConn
conn = record { msg_cache = none; cache_offset = 0; incoming = some hello ∷ [] }

abbrev framed_hello : Bytes
framed_hello = 0 ∷ 0 ∷ 0 ∷ 6 ∷ 0 ∷ 0 ∷ 0 ∷ 6 ∷ codes "hi"

abbrev half_read : IpcConn
half_read = record { msg_cache = some framed_hello; cache_offset = 4; incoming = [] }

abbrev head : Bytes
head = 0 ∷ 0 ∷ 0 ∷ 6 ∷ []

read_half : read 4 conn ≡ (half_read, read_bytes (0 ∷ 0 ∷ 0 ∷ 6 ∷ []))
unfolding read put_uint32 take drop
read_half = refl

read-stream_example :
    (stream conn ≡ head ++ stream half_read)
    × IsSound half_read
    × (length head ≤ 4)
    × (0 < 4 → stream conn ≢ [] → head ≢ [])
read-stream_example = read-stream 4 conn half_read head tt read_half
