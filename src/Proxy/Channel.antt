-- ===== src/Proxy/Channel.antt =====
-- Reading a WATCH or UNWATCH message and the channel id in it: the closures parseMsg and
-- formatingChanId, getPodName, and the name part of getWatcher in
-- k8s/cmd/fsnotify-proxy/app/app.go.
use fs_lib.Prelude.{
  ℕ, zero, suc, ◌+◌, ◌-◌, ◌*◌, ◌/◌, ◌≤◌, min, List, [], ◌∷◌, ◌≡◌, refl, sym, ap, ◌∙◌, map, ltb,
  lt→ltb, if◌then◌else◌, arith, Bytes, Result, ok, err, length, take, drop, length-drop,
  take-append, drop-append, drop-drop, drop-zero,
}
use fs_lib.Wire.Codec.{trim, fields, length-field, length-fields, trim-field}
use fs_lib.Strings.{split, join, to_lower}

-- MaxName
abbrev pub max_name : ℕ
max_name = 255

-- The loop of parseMsg from `offset`. Each round moves on by 255 bytes, so the length of the
-- message is enough fuel.
unfoldable pub parse_names : ℕ → ℕ → Bytes → List Bytes
parse_names zero offset msg = []
parse_names (suc fuel) offset msg =
    let rest = parse_names fuel (offset + max_name) msg in
    let strlen = min (length msg - offset) max_name in
    if ltb offset (length msg) then trim (take strlen (drop offset msg)) ∷ rest else []

name_and_paths : List Bytes → Bytes × List Bytes
name_and_paths [] = ([], [])
name_and_paths (name ∷ paths) = (name, paths)

-- parseMsg
unfoldable pub parse_msg : Bytes → Bytes × List Bytes
unfolding parse_names name_and_paths
parse_msg msg = name_and_paths (parse_names (length msg) 0 msg)

-- formatingChanId
unfoldable pub formating_chan_id : Bytes → Bytes
formating_chan_id = to_lower

pub record PodId : Type 0 where
  pub namespace : Bytes
  pub podname : Bytes
  pub containername : Bytes

pub data ChannelError : Type 0 where
  invalid_channel : ChannelError

pod_of_tokens : List Bytes → Result ChannelError PodId
pod_of_tokens (n ∷ p ∷ c ∷ rest) = ok (record { namespace = n; podname = p; containername = c })
pod_of_tokens _ = err invalid_channel

-- getPodName
unfoldable pub get_pod_name : Bytes → Result ChannelError PodId
unfolding pod_of_tokens
get_pod_name channel = pod_of_tokens (split b'/' channel)

name_of_tokens : List Bytes → Result ChannelError (Bytes × Bytes)
name_of_tokens (n ∷ t ∷ ts) = ok (n, join b'-' (t ∷ ts))
name_of_tokens _ = err invalid_channel

-- getWatcher up to its API call: the namespace and the name of the watcher object
unfoldable pub watcher_name : Bytes → Result ChannelError (Bytes × Bytes)
unfolding name_of_tokens
watcher_name channel = name_of_tokens (split b'/' channel)

-- The number of names is that of the 255-byte blocks, the last of which may be short.
pub parse_names-length :
    (fuel offset : ℕ) (msg : Bytes)
    → length msg ≤ offset + fuel
    → length (parse_names fuel offset msg) ≡ (length msg - offset + 254) / 255
unfolding parse_names
parse_names-length zero offset msg h = omega arith
parse_names-length (suc fuel) offset msg h =
    ground (arith, parse_names-length fuel (offset + max_name) msg)

length_left :
    (ss : List Bytes) (offset : ℕ) (msg : Bytes)
    → drop offset msg ≡ fields ss
    → length msg - offset ≡ length ss * 255
length_left ss offset msg here = sym (length-drop offset msg) ∙ ap length here ∙ length-fields ss

next_field :
    (s : Bytes) (ss : List Bytes) (offset : ℕ) (msg : Bytes)
    → drop offset msg ≡ fields (s ∷ ss)
    → drop (offset + max_name) msg ≡ fields ss
next_field s ss offset msg here =
    sym (drop-drop max_name offset msg)
    ∙ ap (drop max_name) here
    ∙ drop-append max_name _ _ (length-field 255 s)

this_field :
    (s : Bytes) (ss : List Bytes) (offset : ℕ) (msg : Bytes)
    → drop offset msg ≡ fields (s ∷ ss)
    → trim (take (min (length msg - offset) max_name) (drop offset msg)) ≡ trim (take 255 s)
this_field s ss offset msg here =
    ap (λ n. trim (take n (drop offset msg))) {x = min (length msg - offset) max_name} {y = 255}
      (omega (arith, length_left (s ∷ ss) offset msg here))
    ∙ ap (λ b. trim (take 255 b)) here
    ∙ ap trim (take-append 255 _ _ (length-field 255 s))
    ∙ trim-field 255 s

parse_names-fields :
    (ss : List Bytes) (fuel offset : ℕ) (msg : Bytes)
    → drop offset msg ≡ fields ss
    → length msg ≤ offset + fuel
    → parse_names fuel offset msg ≡ map (λ s. trim (take 255 s)) ss
unfolding parse_names
parse_names-fields [] zero offset msg here h = refl
parse_names-fields [] (suc fuel) offset msg here h = ground (arith, length_left [] offset msg here)
parse_names-fields (s ∷ ss) zero offset msg here h =
    absurd (omega (arith, length_left (s ∷ ss) offset msg here))
parse_names-fields (s ∷ ss) (suc fuel) offset msg here h =
    rw (lt→ltb offset (length msg) (omega (arith, length_left (s ∷ ss) offset msg here))) (λ i.
      this_field s ss offset msg here i
      ∷ parse_names-fields ss fuel (offset + max_name) msg (next_field s ss offset msg here)
          (omega arith) i)

-- parseMsg of fields, one behind the other, reads each text cut at 255 bytes and trimmed.
pub parse_msg-fields :
    (s : Bytes) (ss : List Bytes)
    → parse_msg (fields (s ∷ ss)) ≡ (trim (take 255 s), map (λ s. trim (take 255 s)) ss)
unfolding parse_msg name_and_paths
parse_msg-fields s ss = ap name_and_paths (
    parse_names-fields (s ∷ ss) (length (fields (s ∷ ss))) 0 (fields (s ∷ ss)) (drop-zero _)
      (omega arith))

-- A channel id that names a pod also names a watcher object, in the pod's namespace.
pub watcher_name-get_pod_name :
    (channel : Bytes) (id : PodId)
    → get_pod_name channel ≡ ok id
    → (name : Bytes) × (watcher_name channel ≡ ok (id.namespace, name))
unfolding get_pod_name watcher_name
watcher_name-get_pod_name channel id h = named (split b'/' channel) h
  where
    named :
        (ts : List Bytes)
        → pod_of_tokens ts ≡ ok id
        → (name : Bytes) × (name_of_tokens ts ≡ ok (id.namespace, name))
    named [] e = cc
    named (n ∷ []) e = cc
    named (n ∷ p ∷ []) e = cc
    named (n ∷ p ∷ c ∷ rest) e = (join b'-' (p ∷ c ∷ rest), ground arith)
