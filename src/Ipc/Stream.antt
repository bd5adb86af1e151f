-- ===== src/Ipc/Stream.antt =====
-- Reading in pieces of any size returns the frames of the messages, one behind the other, and a
-- frame that is written whole becomes the message that it frames.
use fs_lib.Prelude.{
  ℕ, ◌+◌, ◌-◌, ◌%◌, ◌^◌, ◌≤◌, ◌<◌, min, List, [], ◌∷◌, ◌++◌, ◌≡◌, ◌≢◌, refl, sym, ap, ◌∙◌, subst,
  inl, inr, true, false, Option, none, some, leb, leb→le, Bool-cases, if◌then◌else◌, arith, Bytes,
  length, take, drop, length-append, length-take, length-drop, drop-drop, drop-zero, take-all,
  take-append-drop, append_assoc,
}
use fs_lib.Wire.Codec.{put_uint32, length-put_uint32, bytes_to_int-put_uint32}
use fs_lib.Wire.Message.{package_msg}
use fs_lib.Prelude.{to_uint32}
use fs_lib.Ipc.{
  Message, IpcConn, ReadResult, read_bytes, is_broken, framed, copy_out, read_message, read_cached,
  read, sent, write,
}

abbrev pub pending : Option Bytes → ℕ → Bytes
pending none offset = []
pending (some cache) offset = drop offset cache

-- The bytes that are still to be read, up to the first message that ends the stream.
abbrev pub frames : List (Option Message) → Bytes
frames [] = []
frames (none ∷ rest) = []
frames (some m ∷ rest) = if is_broken m then [] else framed m ++ frames rest

abbrev pub stream : IpcConn → Bytes
stream i = pending i.msg_cache i.cache_offset ++ frames i.incoming

-- A cache that is kept has bytes left.
abbrev HasRest : Option Bytes → ℕ → Type 0
HasRest none offset = Unit
HasRest (some cache) offset = offset < length cache

abbrev pub IsSound : IpcConn → Type 0
IsSound i = HasRest i.msg_cache i.cache_offset

abbrev size_of : ℕ → Bytes → ℕ → ℕ
size_of n cache offset = min n (length cache - offset)

copy_out_last :
    (n : ℕ) (cache : Bytes) (i : IpcConn)
    → leb (length cache) (i.cache_offset + size_of n cache i.cache_offset) ≡ true
    → copy_out n cache i ≡ (
      record i { msg_cache = none; cache_offset = i.cache_offset + size_of n cache i.cache_offset },
      read_bytes (take (size_of n cache i.cache_offset) (drop i.cache_offset cache)),
    )
unfolding copy_out
copy_out_last n cache i h = rw (h, copy_out) refl

copy_out_more :
    (n : ℕ) (cache : Bytes) (i : IpcConn)
    → leb (length cache) (i.cache_offset + size_of n cache i.cache_offset) ≡ false
    → copy_out n cache i ≡ (
      record i {
        msg_cache = some cache;
        cache_offset = i.cache_offset + size_of n cache i.cache_offset;
      },
      read_bytes (take (size_of n cache i.cache_offset) (drop i.cache_offset cache)),
    )
unfolding copy_out
copy_out_more n cache i h = rw (h, copy_out) refl

-- What a read must do to a connection whose stream was `before`.
abbrev Reads : Bytes → ℕ → IpcConn × ReadResult → Type 0
Reads before n (i, read_bytes b) =
    (before ≡ b ++ stream i) × IsSound i × (length b ≤ n) × (0 < n → before ≢ [] → b ≢ [])
Reads before n (i, _) = Unit

ne_nil_of_length : (b : Bytes) → 0 < length b → b ≢ []
ne_nil_of_length b h e = omega (arith, ap length e)

all_read :
    (n : ℕ) (cache : Bytes) (offset : ℕ)
    → leb (length cache) (offset + size_of n cache offset) ≡ true
    → length (drop offset cache) ≤ size_of n cache offset
all_read n cache offset h = omega (arith, leb→le _ _ h, length-drop offset cache)

not_leb : (a b : ℕ) → leb a b ≡ false → b < a
not_leb a b h = ground arith

length-framed : (m : Message) → 0 < length (framed m)
unfolding framed
length-framed m = omega (
  arith,
  length-append (put_uint32 (4 + length m.content))
      (put_uint32 (to_uint32 m.msg_type) ++ m.content),
  length-put_uint32 (4 + length m.content),
)

copy_out-Reads :
    (n : ℕ) (cache : Bytes) (i : IpcConn)
    → i.cache_offset < length cache
    → Reads (drop i.cache_offset cache ++ frames i.incoming) n (copy_out n cache i)
copy_out-Reads n cache i h =
    let size = size_of n cache i.cache_offset in
    let rest = drop i.cache_offset cache in
    let facts = length-take size rest in
    elim (Bool-cases (leb (length cache) (i.cache_offset + size))) [
      | inl all ↦ rw (copy_out_last n cache i all) (
        ap (λ b. b ++ frames i.incoming)
            (sym (take-all size rest (all_read n cache i.cache_offset all))),
        tt,
        omega (arith, facts, length-drop i.cache_offset cache),
        λ pos ne. ne_nil_of_length _ (omega (arith, facts, length-drop i.cache_offset cache)),
      )
      | inr part ↦ rw (copy_out_more n cache i part) (
        ap (λ b. b ++ frames i.incoming)
              (sym (take-append-drop size rest)
                ∙ ap (λ b. take size rest ++ b) (drop-drop size i.cache_offset cache))
            ∙ append_assoc (take size rest) _ (frames i.incoming),
        not_leb _ _ part,
        omega (arith, facts, length-drop i.cache_offset cache),
        λ pos ne. ne_nil_of_length _ (omega (arith, facts, length-drop i.cache_offset cache)),
      )
    ]

read_message-Reads :
    (n : ℕ) (ms : List (Option Message)) (i : IpcConn) → Reads (frames ms) n (read_message n ms i)
unfolding read_message drop put_uint32
read_message-Reads n [] i = tt
read_message-Reads n (none ∷ rest) i = tt
read_message-Reads n (some m ∷ rest) i = elim (Bool-cases (is_broken m)) [
  | inl broken ↦ rw (broken, read_message) tt
  | inr whole ↦
      rw (whole, read_message)
        (rw (drop-zero (framed m)) at (
          copy_out-Reads n (framed m)
            (record i { msg_cache = some (framed m); cache_offset = 0; incoming = rest })
            (length-framed m)))
]

read_cached-Reads :
    (n : ℕ) (c : Option Bytes) (i : IpcConn)
    → HasRest c i.cache_offset
    → Reads (pending c i.cache_offset ++ frames i.incoming) n (read_cached n c i)
unfolding read_cached
read_cached-Reads n none i h = read_message-Reads n i.incoming i
read_cached-Reads n (some cache) i h = copy_out-Reads n cache i h

-- A read that returns bytes returns the next bytes of the stream, at most as many as the buffer
-- holds, and at least one if the buffer and the stream are not empty; the rest of the stream is
-- left, and a cache that is kept has bytes left.
pub read-stream :
    (n : ℕ) (i i' : IpcConn) (b : Bytes)
    → IsSound i
    → read n i ≡ (i', read_bytes b)
    → (stream i ≡ b ++ stream i') × IsSound i' × (length b ≤ n) × (0 < n → stream i ≢ [] → b ≢ [])
unfolding read
read-stream n i i' b v h = subst (Reads (stream i) n) h (read_cached-Reads n i.msg_cache i v)

-- The frame of a packed message, with its length in front, is written as a message of that type
-- modulo 2^32 and that data.
pub write-package_msg :
    (len msg_type : ℕ) (content : Bytes)
    → write (put_uint32 len ++ package_msg msg_type content) ≡ sent (msg_type % 2 ^ 32) content
unfolding write package_msg put_uint32 take drop
write-package_msg len msg_type content = ground (arith, bytes_to_int-put_uint32 msg_type [])
