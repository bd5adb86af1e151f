-- ===== src/Wire/Frames.antt =====
-- PackEvent and UnpackEvent of jfsnotify/utils.go.
use fs_lib.Prelude.{
  ℕ, zero, suc, ◌+◌, ◌*◌, ◌/◌, List, [], ◌∷◌, ◌++◌, ltb, if◌then◌else◌, Bytes, Result, ok, err,
  length, take, drop,
}
use fs_lib.Event.{Event}
use fs_lib.Wire.Codec.{put_uint32, bytes_to_int, field, trim}
use fs_lib.Wire.Message.{WireError, invalid_event}

-- FrameSize = 255 + 4 + 255
abbrev pub frame_size : ℕ
frame_size = 514

unfoldable pub pack_event : Event → Bytes
pack_event event = field 255 event.name ++ (put_uint32 event.op ++ field 255 event.key)

-- The event that is read at the head of a slice: eventData[offset:offset+255] and so on.
unfoldable pub read_frame : Bytes → Event
read_frame at = record {
  name = trim (take 255 at);
  op = bytes_to_int (take 4 (drop 255 at));
  key = trim (take 255 (drop 259 at));
}

-- The loop, with `left` = count - index rounds to go. A short slice ends it with the events read.
unfoldable pub unpack_frames : ℕ → ℕ → Bytes → List Event → List Event
unpack_frames zero index event_data events = events
unpack_frames (suc left) index event_data events =
    let at = drop (index * frame_size) event_data in
    let rest = unpack_frames left (index + 1) event_data (events ++ read_frame at ∷ []) in
    if ltb (length at) frame_size then events else rest

unfoldable pub unpack_event : Bytes → Result WireError (List Event)
unfolding unpack_frames
unpack_event event_data =
    if ltb (length event_data) frame_size
    then err invalid_event
    else ok (unpack_frames (length event_data / frame_size) 0 event_data [])
