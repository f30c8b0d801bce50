-- ===== src/Control/Layout.antt =====
-- control_packets.hpp (server/src/server): the header of a control packet, and its decryption.
use steamos_containerized.Common.{
  leb, if◌then◌else◌, length, take, drop, replicate, Text, ℕ, ◌+◌, ◌-◌, ◌%◌, ◌^◌, Option, none,
  some, ◌∷◌,
}
use steamos_containerized.Control.{le16_at, le32_at, ◌>>=◌}

abbrev pub input_data : ℕ
input_data = 518

abbrev pub termination : ℕ
termination = 265

abbrev pub idr_frame : ℕ
idr_frame = 770

abbrev pub encrypted : ℕ
encrypted = 1

-- `crypto::hex_to_str` and `crypto::aes_decrypt_gcm` of a message, a key, a tag and an IV, which is
-- none where it throws.
pub record Gcm : Type 0 where
  pub hex_to_str : Text → Text
  pub aes_decrypt_gcm : Text → Text → Text → Text → Option Text

-- The packet type, the first field of a `ControlPacket`.
unfoldable pub type_of : Text → Option ℕ
type_of packet = le16_at 0 packet

-- `static_cast<size_t>(len - GCM_TAG_SIZE - sizeof(seq))`
abbrev pub msg_size : ℕ → ℕ
msg_size len = (len + 2 ^ 64 - 20) % 2 ^ 64

-- A `string_view` into a packet: where it starts and how many bytes it says it has, which may be more
-- than there are.
pub record View : Type 0 where
  pub offset : ℕ
  pub size : ℕ

unfoldable pub encrypted_msg : Text → Option View
encrypted_msg packet = do len ← le16_at 2 packet; some (record { offset = 24; size = msg_size len })

-- The bytes of a view. Reading beyond the packet is undefined, and none here.
abbrev pub bytes_of : View → Text → Option Text
bytes_of v packet =
    if leb (v.offset + v.size) (length packet)
    then some (take v.size (drop v.offset packet))
    else none

abbrev pub iv_of : ℕ → Text
iv_of seq = seq % 256 ∷ replicate 15 0

-- What was decrypted, or none where the library throws; and none where what is read is beyond the
-- packet.
unfoldable pub decrypt_packet : Gcm → Text → Text → Option (Option Text)
unfolding encrypted_msg
decrypt_packet c packet gcm_key_hex = do
  view ← encrypted_msg packet
  msg ← bytes_of view packet
  seq ← le32_at 4 packet
  some (c.aes_decrypt_gcm msg (c.hex_to_str gcm_key_hex) (take 16 (drop 8 packet)) (iv_of seq))
