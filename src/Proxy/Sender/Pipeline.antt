-- ===== src/Proxy/Sender/Pipeline.antt =====
-- From a WATCH to the event in the pod: the path map, the translation of an event's name, the
-- frame, and the client library that reads it.
use fs_lib.Prelude.{
  ℕ, [], ◌∷◌, ◌++◌, ◌≡◌, ◌≢◌, refl, sym, ap, ◌∙◌, true, false, ◌&&◌, some, ◌==◌, if◌then◌else◌,
  arith, Bytes, equal_refl, ok, length, length-append, append_assoc, append-nil, Map, lookup,
}
use fs_lib.Event.{Op, Event}
use fs_lib.Strings.{replace_first}
use fs_lib.Strings.Laws.{has_prefix-append, replace_first-append}
use fs_lib.Wire.Message.{package_msg, msg_event, unpack_msg-package_msg}
use fs_lib.Wire.Frames.{pack_event, unpack_event}
use fs_lib.Wire.RoundTrip.{as_read, unpack_event-pack_all}
use fs_lib.Jfs.Connection.{handle_frame}
use fs_lib.Proxy.Paths.{watch, apply_keys}
use fs_lib.Proxy.Paths.Laws.{
  ends_slash, with_slash, strip_slash, translate-append, apply_keys-lookup,
}
use fs_lib.Proxy.Sender.{renamed, translate_event}

one_event : (e : Event) → unpack_event (pack_event e) ≡ ok (as_read e ∷ [])
one_event e = ap unpack_event (sym (append-nil (pack_event e))) ∙ unpack_event-pack_all e []

handle_frame-event :
    (e : Event) → handle_frame (package_msg msg_event (pack_event e)) ≡ as_read e ∷ []
unfolding handle_frame
handle_frame-event e =
    rw (unpack_msg-package_msg msg_event (pack_event e), handle_frame)
      (rw (one_event e, handle_frame) refl)

-- The client library reads the frame of a mapped event as that one event, its name translated,
-- and its texts and mask as the format keeps them.
pub handle_frame-translate_event :
    (m : Map Bytes) (e : Event) (key_in_pod : Bytes)
    → lookup e.key m ≡ some key_in_pod
    → (b : Bytes) × (translate_event m e ≡ some b)
      × (handle_frame b ≡ as_read (renamed e key_in_pod) ∷ [])
unfolding translate_event
handle_frame-translate_event m e key_in_pod h = (
  package_msg msg_event (pack_event (renamed e key_in_pod)),
  rw (h, translate_event) refl,
  handle_frame-event (renamed e key_in_pod),
)

-- The node path of a key under a mount, and what its events are named by in the pod.
abbrev pub node_key : Bytes → ℕ → Bytes → Bytes
node_key node x sub = with_slash node ++ strip_slash (x ∷ sub)

abbrev pub pod_key : Bytes → Bytes → ℕ → Bytes → Bytes
pod_key node pod x sub = pod ++ (if ends_slash node then strip_slash (x ∷ sub) else x ∷ sub)

pub watched_key :
    (n : ℕ) (node pod : Bytes) (x : ℕ) (sub : Bytes) (m m' : Map Bytes)
    → apply_keys watch (n ∷ node) pod ((pod ++ x ∷ sub) ∷ []) m ≡ some m'
    → lookup (node_key (n ∷ node) x sub) m' ≡ some (pod_key (n ∷ node) pod x sub)
watched_key n node pod x sub m m' h =
    let at = node_key (n ∷ node) x sub in
    let k = pod ++ x ∷ sub in
    apply_keys-lookup watch (n ∷ node) pod at (k ∷ []) m m' h
    ∙ ground
        (arith, has_prefix-append pod (x ∷ sub), translate-append n node pod x sub, equal_refl at)

watched_event_named :
    (n : ℕ) (node pod : Bytes) (x : ℕ) (sub rest : Bytes) (op : Op) (m m' : Map Bytes)
    → apply_keys watch (n ∷ node) pod ((pod ++ x ∷ sub) ∷ []) m ≡ some m'
    → (b : Bytes) × (translate_event m' (record {
      name = node_key (n ∷ node) x sub ++ rest;
      op = op;
      key = node_key (n ∷ node) x sub;
    })
        ≡ some b)
      × (handle_frame b
          ≡ as_read (record {
            name = pod_key (n ∷ node) pod x sub ++ rest;
            op = op;
            key = node_key (n ∷ node) x sub;
          })
            ∷ [])
watched_event_named n node pod x sub rest op m m' h =
    let at = node_key (n ∷ node) x sub in
    let in_pod = pod_key (n ∷ node) pod x sub in
    let event : Event = record { name = at ++ rest; op = op; key = at } in
    let (b, translated, read) =
      handle_frame-translate_event m' event in_pod (watched_key n node pod x sub m m' h) in
    (
      b,
      translated,
      read
          ∙ ap (λ name. as_read (record { name = name; op = op; key = at }) ∷ [])
              (replace_first-append at in_pod rest),
    )

pub kept_key :
    (n : ℕ) (node pod : Bytes) (x : ℕ) (sub : Bytes)
    → (ends_slash (n ∷ node) && x == b'/') ≡ false
    → pod_key (n ∷ node) pod x sub ≡ pod ++ x ∷ sub
kept_key n node pod x sub plain = ground arith

-- After a WATCH of a path under a mount, an event at or below its node path reaches the pod as one
-- event named by the watched path itself and what follows, its texts and mask as the format keeps
-- them. This is so unless the node path ends in a slash where the rest of the key begins with one.
pub watched_event :
    (n : ℕ) (node pod : Bytes) (x : ℕ) (sub rest : Bytes) (op : Op) (m m' : Map Bytes)
    → apply_keys watch (n ∷ node) pod ((pod ++ x ∷ sub) ∷ []) m ≡ some m'
    → (ends_slash (n ∷ node) && x == b'/') ≡ false
    → (b : Bytes) × (translate_event m' (record {
      name = node_key (n ∷ node) x sub ++ rest;
      op = op;
      key = node_key (n ∷ node) x sub;
    })
        ≡ some b)
      × (handle_frame b
          ≡ as_read
              (record { name = (pod ++ x ∷ sub) ++ rest; op = op; key = node_key (n ∷ node) x sub })
            ∷ [])
watched_event n node pod x sub rest op m m' h plain =
    let (b, translated, read) = watched_event_named n node pod x sub rest op m m' h in
    (
      b,
      translated,
      read
          ∙ ap
              (λ k.
                as_read (record { name = k ++ rest; op = op; key = node_key (n ∷ node) x sub })
                ∷ [])
              (kept_key n node pod x sub plain),
    )

slash_key :
    (n : ℕ) (node pod sub : Bytes) (m m' : Map Bytes)
    → ends_slash (n ∷ node) ≡ true
    → lookup (node_key (n ∷ node) b'/' sub) m' ≡ some (pod_key (n ∷ node) pod b'/' sub)
    → lookup ((n ∷ node) ++ sub) m' ≡ some (pod ++ sub)
slash_key n node pod sub m m' slash h = ground arith

longer : (pod sub rest : Bytes) → pod ++ (sub ++ rest) ≢ (pod ++ b'/' ∷ sub) ++ rest
longer pod sub rest same = omega (
  arith,
  ap length same,
  length-append pod (sub ++ rest),
  length-append sub rest,
  length-append (pod ++ b'/' ∷ sub) rest,
  length-append pod (b'/' ∷ sub),
)

-- Where the node path of the volume ends in a slash and the watched path goes on with one behind
-- the mount path, the event reaches the pod under a name without that slash, which is not the
-- watched path and what follows.
pub watched_event_loses_slash :
    (n : ℕ) (node pod sub rest : Bytes) (op : Op) (m m' : Map Bytes)
    → apply_keys watch (n ∷ node) pod ((pod ++ b'/' ∷ sub) ∷ []) m ≡ some m'
    → ends_slash (n ∷ node) ≡ true
    → (b : Bytes) × (translate_event m'
          (record { name = (n ∷ node) ++ (sub ++ rest); op = op; key = (n ∷ node) ++ sub })
        ≡ some b)
      × (handle_frame b
          ≡ as_read (record { name = pod ++ (sub ++ rest); op = op; key = (n ∷ node) ++ sub }) ∷ [])
      × (pod ++ (sub ++ rest) ≢ (pod ++ b'/' ∷ sub) ++ rest)
watched_event_loses_slash n node pod sub rest op m m' h slash =
    let at = (n ∷ node) ++ sub in
    let event : Event = record { name = (n ∷ node) ++ (sub ++ rest); op = op; key = at } in
    let found = slash_key n node pod sub m m' slash (watched_key n node pod b'/' sub m m' h) in
    let (b, translated, read) = handle_frame-translate_event m' event (pod ++ sub) found in
    (
      b,
      translated,
      read
          ∙ ap (λ name. as_read (record { name = name; op = op; key = at }) ∷ [])
              (ap (λ name. replace_first name at (pod ++ sub))
                  (sym (append_assoc (n ∷ node) sub rest))
                ∙ replace_first-append at (pod ++ sub) rest
                ∙ append_assoc pod sub rest),
      longer pod sub rest,
    )
