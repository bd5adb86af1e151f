-- ===== src/Wire/Message.antt =====
-- PackageMsg and UnpackMsg of jfsnotify/utils.go, and the message types.
use fs_lib.Prelude.{
  ℕ, ◌%◌, ◌^◌, ◌<◌, [], ◌∷◌, ◌++◌, ◌≡◌, ◌↔◌, ltb, ◌==◌, if◌then◌else◌, arith, Bytes, Result, ok,
  err, length, take, drop,
}
use fs_lib.Wire.Codec.{put_uint32, bytes_to_int, bytes_to_int-put_uint32}

pub data WireError : Type 0 where
  invalid_message invalid_event : WireError

abbrev pub msg_error : ℕ
msg_error = 0

abbrev pub msg_watch : ℕ
msg_watch = 1

abbrev pub msg_unwatch : ℕ
msg_unwatch = 2

abbrev pub msg_clear : ℕ
msg_clear = 3

abbrev pub msg_suspend : ℕ
msg_suspend = 4

abbrev pub msg_resume : ℕ
msg_resume = 5

abbrev pub msg_event : ℕ
msg_event = 6

unfoldable pub package_msg : ℕ → Bytes → Bytes
package_msg msg_type content = put_uint32 msg_type ++ content

-- A nil slice and an empty one are both `[]`.
unfoldable pub unpack_msg : Bytes → Result WireError (ℕ × Bytes)
unpack_msg msg =
    if ltb (length msg) 4
    then err invalid_message
    else let msg_type = bytes_to_int (take 4 msg) in
      if length msg == 4 then ok (msg_type, []) else ok (msg_type, drop 4 msg)

-- Every packed message is read back: its type modulo 2^32, and its data unchanged.
pub unpack_msg-package_msg :
    (msg_type : ℕ) (content : Bytes)
    → unpack_msg (package_msg msg_type content) ≡ ok (msg_type % 2 ^ 32, content)
unfolding unpack_msg package_msg put_uint32 take drop
unpack_msg-package_msg t [] = ground (arith, bytes_to_int-put_uint32 t [])
unpack_msg-package_msg t (x ∷ c) = ground (arith, bytes_to_int-put_uint32 t [])

-- A message is refused exactly when it is shorter than its type.
pub unpack_msg-err : (msg : Bytes) → (unpack_msg msg ≡ err invalid_message) ↔ (length msg < 4)
unfolding unpack_msg
unpack_msg-err msg = (λ h. ground arith, λ h. ground arith)
