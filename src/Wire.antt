-- ===== src/Wire.antt =====
-- The message format of jfsnotify/utils.go: a message is a big-endian type and its data, an
-- event is a frame of 255 + 4 + 255 bytes, and text fields are padded with zero bytes.
-- `Codec` has the byte fields, `Message` and `Frames` the operations, the rest their theorems.
pub mod Codec
pub mod Message
pub mod Frames
pub mod RoundTrip
pub mod Dial
