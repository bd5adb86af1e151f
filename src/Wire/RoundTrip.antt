-- ===== src/Wire/RoundTrip.antt =====
-- What a receiver of packed events reads.
use fs_lib.Prelude.{
  ℕ, zero, suc, ◌+◌, ◌*◌, ◌/◌, ◌%◌, ◌^◌, ◌≤◌, ◌<◌, List, [], ◌∷◌, ◌++◌, ◌≡◌, refl, sym, ap, ◌∙◌,
  ◌↔◌, map, ltb-false_of_le, arith, Bytes, ok, err, length, take, drop, length-append, length-drop,
  take-append, drop-append, drop-drop, drop-zero, take-all, append_assoc, append-nil,
}
use fs_lib.Event.{Event}
use fs_lib.Wire.Codec.{
  put_uint32, bytes_to_int, field, trim, Fits, length-field, length-put_uint32, trim-field,
  bytes_to_int-put_uint32,
}
use fs_lib.Wire.Message.{invalid_event}
use fs_lib.Wire.Frames.{frame_size, pack_event, read_frame, unpack_frames, unpack_event}

abbrev pub pack_all : List Event → Bytes
pack_all [] = []
pack_all (e ∷ es) = pack_event e ++ pack_all es

-- What the format keeps of an event: texts cut at 255 bytes and trimmed, the mask as 32 bits.
abbrev pub as_read : Event → Event
as_read e = record {
  name = trim (take 255 e.name);
  op = e.op % 2 ^ 32;
  key = trim (take 255 e.key);
}

pub length-pack_event : (e : Event) → length (pack_event e) ≡ frame_size
unfolding pack_event
length-pack_event e = omega (
  arith,
  length-append (field 255 e.name) (put_uint32 e.op ++ field 255 e.key),
  length-append (put_uint32 e.op) (field 255 e.key),
  length-field 255 e.name,
  length-field 255 e.key,
  length-put_uint32 e.op,
)

length-pack_all : (es : List Event) → length (pack_all es) ≡ length es * frame_size
length-pack_all [] = refl
length-pack_all (e ∷ es) =
    omega
      (arith, length-append (pack_event e) (pack_all es), length-pack_event e, length-pack_all es)

module _ (e : Event) (rest : Bytes) where
  regroup :
      pack_event e ++ rest ≡ field 255 e.name ++ (put_uint32 e.op ++ (field 255 e.key ++ rest))
  unfolding pack_event
  regroup = simp append_assoc

  behind_name : drop 255 (pack_event e ++ rest) ≡ put_uint32 e.op ++ (field 255 e.key ++ rest)
  behind_name = ap (drop 255) regroup ∙ drop-append 255 _ _ (length-field 255 e.name)

  behind_op : drop 259 (pack_event e ++ rest) ≡ field 255 e.key ++ rest
  behind_op =
      sym (drop-drop 4 255 (pack_event e ++ rest))
      ∙ ap (drop 4) behind_name
      ∙ drop-append 4 _ _ (length-put_uint32 e.op)

  name_read : trim (take 255 (pack_event e ++ rest)) ≡ trim (take 255 e.name)
  name_read =
      ap (λ b. trim (take 255 b)) regroup
      ∙ ap trim (take-append 255 _ _ (length-field 255 e.name))
      ∙ trim-field 255 e.name

  op_read : bytes_to_int (take 4 (drop 255 (pack_event e ++ rest))) ≡ e.op % 2 ^ 32
  op_read =
      ap (λ b. bytes_to_int (take 4 b)) behind_name
      ∙ ap bytes_to_int (take-append 4 _ _ (length-put_uint32 e.op) ∙ sym (append-nil _))
      ∙ bytes_to_int-put_uint32 e.op []

  key_read : trim (take 255 (drop 259 (pack_event e ++ rest))) ≡ trim (take 255 e.key)
  key_read =
      ap (λ b. trim (take 255 b)) behind_op
      ∙ ap trim (take-append 255 _ _ (length-field 255 e.key))
      ∙ trim-field 255 e.key

  pub read_frame-pack_event : read_frame (pack_event e ++ rest) ≡ as_read e
  unfolding read_frame
  read_frame-pack_event = λ i. record { name = name_read i; op = op_read i; key = key_read i }

-- One round over a slice that is long enough.
unpack_frames-round :
    (left index : ℕ) (at event_data : Bytes) (events : List Event)
    → drop (index * frame_size) event_data ≡ at
    → frame_size ≤ length at
    → unpack_frames (suc left) index event_data events
      ≡ unpack_frames left (index + 1) event_data (events ++ read_frame at ∷ [])
unfolding unpack_frames
unpack_frames-round left index at event_data events here long =
    ground (arith, ltb-false_of_le (length at) frame_size long)

next_frame :
    (index : ℕ) (e : Event) (es : List Event) (event_data : Bytes)
    → drop (index * frame_size) event_data ≡ pack_all (e ∷ es)
    → drop ((index + 1) * frame_size) event_data ≡ pack_all es
next_frame index e es event_data here =
    ap (λ k. drop k event_data) {x = (index + 1) * frame_size} (omega arith)
    ∙ sym (drop-drop frame_size (index * frame_size) event_data)
    ∙ ap (drop frame_size) here
    ∙ drop-append frame_size _ _ (length-pack_event e)

unpack_frames-pack_all :
    (es : List Event) (index : ℕ) (event_data : Bytes) (events : List Event)
    → drop (index * frame_size) event_data ≡ pack_all es
    → unpack_frames (length es) index event_data events ≡ events ++ map as_read es
unpack_frames-pack_all [] index event_data events here =
    unfold unpack_frames in sym (append-nil events)
unpack_frames-pack_all (e ∷ es) index event_data events here =
    unpack_frames-round (length es) index (pack_all (e ∷ es)) event_data events here
      (omega (arith, length-pack_all (e ∷ es)))
    ∙ unpack_frames-pack_all es (index + 1) event_data _ (next_frame index e es event_data here)
    ∙ append_assoc events _ (map as_read es)
    ∙ ap (λ r. events ++ (r ∷ map as_read es)) (read_frame-pack_event e (pack_all es))

-- For every list of at least one event, whatever its texts and masks, UnpackEvent of the events'
-- PackEvent frames, one behind the other, returns them all in order, each with its name and key
-- cut at 255 bytes and trimmed of zero bytes and its mask modulo 2^32.
pub unpack_event-pack_all :
    (e : Event) (es : List Event) → unpack_event (pack_all (e ∷ es)) ≡ ok (map as_read (e ∷ es))
unfolding unpack_event
unpack_event-pack_all e es =
    rw
      (
        ltb-false_of_le (length (pack_all (e ∷ es))) frame_size
            (omega (arith, length-pack_all (e ∷ es))),
        count_of e es,
      )
      (ap ok (unpack_frames-pack_all (e ∷ es) 0 (pack_all (e ∷ es)) [] (drop-zero _)))
  where
    count_of :
        (e : Event) (es : List Event) → length (pack_all (e ∷ es)) / frame_size ≡ length (e ∷ es)
    count_of e es = omega (arith, length-pack_all (e ∷ es))

-- An event that its frame can carry unchanged.
pub record IsPackable (e : Event) : Type 0 where
  pub name_fits : Fits 255 e.name
  pub key_fits : Fits 255 e.key
  pub op_word : e.op < 2 ^ 32

pub as_read-IsPackable : (e : Event) → IsPackable e → as_read e ≡ e
as_read-IsPackable e h =
    λ i. record { name = kept h.name_fits i; op = small i; key = kept h.key_fits i }
  where
    kept : {s : Bytes} → Fits 255 s → trim (take 255 s) ≡ s
    kept {s} f = ap trim (take-all 255 s f.short) ∙ f.clean

    small : e.op % 2 ^ 32 ≡ e.op
    small = omega (arith, h.op_word)

-- UnpackEvent fails exactly where there are less than 514 bytes.
pub unpack_event-err : (b : Bytes) → (unpack_event b ≡ err invalid_event) ↔ (length b < frame_size)
unfolding unpack_event
unpack_event-err b = (λ h. ground arith, λ h. ground arith)

unpack_frames-length :
    (left index : ℕ) (b : Bytes) (events : List Event)
    → (index + left) * frame_size ≤ length b
    → length (unpack_frames left index b events) ≡ length events + left
unpack_frames-length zero index b events h = unfold unpack_frames in omega arith
unpack_frames-length (suc left) index b events h =
    ap length (
      unpack_frames-round left index _ b events refl
        (omega (arith, length-drop (index * frame_size) b)))
    ∙ unpack_frames-length left (index + 1) b _ (omega arith)
    ∙ omega (arith, length-append events (read_frame (drop (index * frame_size) b) ∷ []))

-- On any bytes, also ones that no peer packed, a successful UnpackEvent returns one event for each
-- whole frame of 514 bytes: the loop's own length test never cuts the list short.
pub unpack_event-length :
    (b : Bytes) (events : List Event)
    → unpack_event b ≡ ok events
    → length events ≡ length b / frame_size
unfolding unpack_event
unpack_event-length b events h =
    ground (arith, unpack_frames-length (length b / frame_size) 0 b [] (omega arith))
