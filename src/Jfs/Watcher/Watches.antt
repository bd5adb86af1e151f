-- ===== src/Jfs/Watcher/Watches.antt =====
-- What Add and Remove do to the list of watches and to the queue, what the proxy reads of their
-- messages, and what becomes of a closed watcher.
use fs_lib.Prelude.{
  ℕ, ◌%◌, ◌^◌, ◌≤◌, ◌<◌, List, [], ◌∷◌, ◌++◌, ◌≡◌, sym, ap, ◌∙◌, map, not, ◌&&◌, arith, Bytes,
  equal, equal_iff, ok, length, take, member,
}
use fs_lib.Wire.Codec.{trim}
use fs_lib.Wire.Message.{package_msg, unpack_msg, msg_watch, msg_unwatch, unpack_msg-package_msg}
use fs_lib.Proxy.Channel.{parse_msg, parse_msg-fields}
use fs_lib.Jfs.Chan.{done, panics, send_to, close_chan, bind-done, done-injective}
use fs_lib.Jfs.Watcher.{Watcher, full_name, layout, send, add, without, remove_watch, clear}
use fs_lib.Jfs.Watcher.Layout.{layout-fields}

abbrev pub frame : ℕ → List Bytes → Watcher → Bytes
frame msg_type paths w = package_msg msg_type (layout (full_name w) paths)

-- The watcher with one more frame in its queue.
abbrev pub queued : Bytes → Watcher → Watcher
queued b w = record w { send_q = record w.send_q { queue = w.send_q.queue ++ b ∷ [] } }

pub send-queued :
    (msg_type : ℕ) (paths : List Bytes) (w w' : Watcher)
    → send msg_type paths w ≡ done w'
    → w' ≡ queued (frame msg_type paths w) w
unfolding send send_to
send-queued msg_type paths w w' h = ground arith

-- What the proxy reads of a frame: the sender's name and the paths, each cut at 255 bytes and
-- trimmed of zero bytes.
abbrev pub ReadsAs : Bytes → ℕ → Bytes → List Bytes → Type 0
ReadsAs b msg_type sender paths =
    (content : Bytes) × (unpack_msg b ≡ ok (msg_type, content))
    × (parse_msg content ≡ (trim (take 255 sender), map (λ s. trim (take 255 s)) paths))

pub frame-ReadsAs :
    (msg_type : ℕ) (paths : List Bytes) (w : Watcher)
    → msg_type < 2 ^ 32
    → length (full_name w) ≤ 255
    → ReadsAs (frame msg_type paths w) msg_type (full_name w) paths
frame-ReadsAs msg_type paths w small h = (
  layout (full_name w) paths,
  unpack_msg-package_msg msg_type (layout (full_name w) paths)
      ∙ ap (λ (t : ℕ). ok (t, layout (full_name w) paths)) {x = msg_type % 2 ^ 32} {y = msg_type}
          (omega arith),
  ap parse_msg (layout-fields (full_name w) paths h) ∙ parse_msg-fields (full_name w) paths,
)

-- An Add that returns has put one frame behind the queue, which the proxy reads as a WATCH of the
-- path by this watcher, if the watcher's full name has at most 255 bytes, and has put the path
-- behind the list of watches.
pub add-ReadsAs :
    (path : Bytes) (w w' : Watcher)
    → length (full_name w) ≤ 255
    → add path w ≡ done w'
    → (b : Bytes) × (w'.send_q.queue ≡ w.send_q.queue ++ b ∷ [])
      × ReadsAs b msg_watch (full_name w) (path ∷ [])
      × (w'.watches ≡ w.watches ++ path ∷ [])
unfolding add
add-ReadsAs path w w' h e =
    let (v, sent, rest) = bind-done (send msg_watch (path ∷ []) w) _ e in
    let added = done-injective (record v { watches = v.watches ++ path ∷ [] }) w' rest in
    let moved = send-queued msg_watch (path ∷ []) w v sent in
    (
      frame msg_watch (path ∷ []) w,
      ap (λ (x : Watcher). x.send_q.queue) (sym added) ∙ ap (λ (x : Watcher). x.send_q.queue) moved,
      frame-ReadsAs msg_watch (path ∷ []) w (omega arith) h,
      ap (λ (x : Watcher). x.watches) (sym added)
          ∙ ap (λ (x : Watcher). x.watches ++ path ∷ []) moved,
    )

pub member-without :
    (path p : Bytes) (ss : List Bytes)
    → member p (without path ss) ≡ (not (equal p path) && member p ss)
unfolding member without
member-without path p [] = ground arith
member-without path p (s ∷ ss) =
    ground (arith, equal_iff p path, equal_iff s p, equal_iff s path, member-without path p ss)

-- A Remove that returns has put one frame behind the queue, which the proxy reads as an UNWATCH of
-- the path by this watcher, if the watcher's full name has at most 255 bytes, and the list of
-- watches has lost that path and kept every other.
pub remove_watch-ReadsAs :
    (path : Bytes) (w w' : Watcher)
    → length (full_name w) ≤ 255
    → remove_watch path w ≡ done w'
    → (b : Bytes) × (w'.send_q.queue ≡ w.send_q.queue ++ b ∷ [])
      × ReadsAs b msg_unwatch (full_name w) (path ∷ [])
      × ((p : Bytes) → member p w'.watches ≡ (not (equal p path) && member p w.watches))
unfolding remove_watch
remove_watch-ReadsAs path w w' h e =
    let (v, sent, rest) = bind-done (send msg_unwatch (path ∷ []) w) _ e in
    let removed = done-injective (record v { watches = without path v.watches }) w' rest in
    let moved = send-queued msg_unwatch (path ∷ []) w v sent in
    (
      frame msg_unwatch (path ∷ []) w,
      ap (λ (x : Watcher). x.send_q.queue) (sym removed)
          ∙ ap (λ (x : Watcher). x.send_q.queue) moved,
      frame-ReadsAs msg_unwatch (path ∷ []) w (omega arith) h,
      λ p.
          ap (λ (x : Watcher). member p x.watches) (sym removed)
          ∙ ap (λ (x : Watcher). member p (without path x.watches)) moved
          ∙ member-without path p w.watches,
    )

-- The goroutine of every cancelled watcher panics: `clear` closes the channel of errors twice.
pub clear_panics : (w : Watcher) → clear w ≡ panics
unfolding clear close_chan
clear_panics w = ground arith
