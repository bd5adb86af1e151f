-- ===== src/Jfs/Session/Told.antt =====
-- What a peer has been told of a path by a sequence of frames, as the proxy's parser reads them.
use fs_lib.Prelude.{
  ℕ, ◌≤◌, ◌<◌, ◌^◌, List, [], ◌∷◌, ◌++◌, ◌≡◌, refl, sym, ap, ◌∙◌, map, Bool, true, false, Option,
  none, some, ◌==◌, if◌then◌else◌, Bytes, ok, err, length, take, take-all, member,
}
use fs_lib.Wire.Codec.{trim, Fits}
use fs_lib.Wire.Message.{
  package_msg, unpack_msg, msg_watch, msg_unwatch, msg_clear, unpack_msg-package_msg,
}
use fs_lib.Proxy.Channel.{parse_msg}
use fs_lib.Jfs.Watcher.{Watcher, full_name}
use fs_lib.Jfs.Watcher.Watches.{frame, ReadsAs, frame-ReadsAs}

-- A message of this type that names these paths, of one path: WATCH, UNWATCH, or nothing.
abbrev pub says : ℕ → List Bytes → Bytes → Option Bool
says msg_type paths p =
    if msg_type == msg_clear
    then some false
    else if msg_type == msg_watch
    then (if member p paths then some true else none)
    else if msg_type == msg_unwatch
    then (if member p paths then some false else none)
    else none

unfoldable pub tells : Bytes → Bytes → Option Bool
tells b p = elim (unpack_msg b) [
  | err e ↦ none
  | ok (msg_type, content) ↦ says msg_type (parse_msg content).1 p
]

abbrev pub or_else : Option Bool → Option Bool → Option Bool
or_else none o = o
or_else (some b) o = some b

-- The last word on a path.
unfoldable pub mention : List Bytes → Bytes → Option Bool
mention [] p = none
mention (b ∷ bs) p = or_else (mention bs p) (tells b p)

abbrev pub is_watch : Option Bool → Bool
is_watch none = false
is_watch (some b) = b

-- A path is watched by a peer that got these frames, and nothing before.
abbrev pub told : List Bytes → Bytes → Bool
told bs p = is_watch (mention bs p)

pub or_else_assoc : (a b c : Option Bool) → or_else a (or_else b c) ≡ or_else (or_else a b) c
or_else_assoc none b c = refl
or_else_assoc (some a) b c = refl

or_else-none : (a : Option Bool) → or_else a none ≡ a
or_else-none none = refl
or_else-none (some a) = refl

pub mention-append :
    (xs ys : List Bytes) (p : Bytes) → mention (xs ++ ys) p ≡ or_else (mention ys p) (mention xs p)
unfolding mention
mention-append [] ys p = sym (or_else-none (mention ys p))
mention-append (x ∷ xs) ys p =
    ap (λ o. or_else o (tells x p)) (mention-append xs ys p)
    ∙ sym (or_else_assoc (mention ys p) (mention xs p) (tells x p))

pub mention_one : (b p : Bytes) → mention (b ∷ []) p ≡ tells b p
unfolding mention
mention_one b p = refl

abbrev pub AllFit : List Bytes → Type 0
AllFit [] = Unit
AllFit (s ∷ ss) = Fits 255 s × AllFit ss

pub map-AllFit : (ss : List Bytes) → AllFit ss → map (λ s. trim (take 255 s)) ss ≡ ss
map-AllFit [] h = refl
map-AllFit (s ∷ ss) h =
    λ i. (ap trim (take-all 255 s h.0.short) ∙ h.0.clean) i ∷ map-AllFit ss h.1 i

ReadsAs-tells :
    (b : Bytes) (msg_type : ℕ) (sender : Bytes) (paths : List Bytes) (p : Bytes)
    → AllFit paths
    → ReadsAs b msg_type sender paths
    → tells b p ≡ says msg_type paths p
unfolding tells
ReadsAs-tells b msg_type sender paths p fit (content, unpacked, parsed) =
    rw (unpacked, tells)
      (ap (λ (r : Bytes × List Bytes). says msg_type r.1 p) parsed
        ∙ ap (λ ps. says msg_type ps p) (map-AllFit paths fit))

-- A frame of a watcher tells what its type and its paths say.
pub tells-frame :
    (msg_type : ℕ) (paths : List Bytes) (w : Watcher) (p : Bytes)
    → msg_type < 2 ^ 32
    → length (full_name w) ≤ 255
    → AllFit paths
    → tells (frame msg_type paths w) p ≡ says msg_type paths p
tells-frame msg_type paths w p small short fit =
    ReadsAs-tells (frame msg_type paths w) msg_type (full_name w) paths p fit
      (frame-ReadsAs msg_type paths w small short)

pub tells_clear : (content p : Bytes) → tells (package_msg msg_clear content) p ≡ some false
unfolding tells
tells_clear content p = rw (unpack_msg-package_msg msg_clear content, tells) refl
