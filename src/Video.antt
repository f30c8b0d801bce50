-- ===== src/Video.antt =====
-- The video payloader (server/src/gst-plugin/video.hpp): the headers of a packet, and their bytes.
-- The properties of the element are never negative, so its `int` fields are natural numbers here.
pub mod Packets
pub mod Fec
pub mod Split
pub mod Info
pub mod Chunks
pub mod LastPacket
pub mod Sequence
pub mod Multi
use steamos_containerized.Common.{
  ◌==◌, if◌then◌else◌, value_or, drop, get_elem?, ℕ, zero, suc, ◌+◌, ◌*◌, ◌/◌, ◌%◌, Bool, true,
  ◌||◌, List, [], ◌∷◌, ◌++◌,
}

-- `gst_rtp_moonlight_pay_video`
pub record VideoPay : Type 0 where
  pub payload_size : ℕ
  pub add_padding : Bool
  pub fec_percentage : ℕ
  pub min_required_fec_packets : ℕ
  pub cur_seq_number : ℕ
  pub frame_num : ℕ

abbrev pub default_pay : VideoPay
default_pay = record {
  payload_size = 1392;
  add_padding = true;
  fec_percentage = 20;
  min_required_fec_packets = 2;
  cur_seq_number = 0;
  frame_num = 0;
}

-- `VideoRTPHeaders` and what follows it: `rtp`, four reserved bytes, `packet`. The sequence number
-- is in host order here, and big-endian in the bytes.
pub record VideoPacket : Type 0 where
  pub header : ℕ
  pub packet_type : ℕ
  pub sequence_number : ℕ
  pub timestamp : ℕ
  pub ssrc : ℕ
  pub reserved : ℕ
  pub stream_packet_index : ℕ
  pub frame_index : ℕ
  pub flags : ℕ
  pub reserved_byte : ℕ
  pub multi_fec_flags : ℕ
  pub multi_fec_blocks : ℕ
  pub fec_info : ℕ
  pub payload : List ℕ

-- The bitwise or of the low `w` bits.
unfoldable pub bit_or : ℕ → ℕ → ℕ → ℕ
bit_or zero a b = 0
bit_or (suc w) a b = (if a % 2 == 1 || b % 2 == 1 then 1 else 0) + 2 * bit_or w (a / 2) (b / 2)

abbrev pub le16 : ℕ → List ℕ
le16 n = n % 256 ∷ n / 256 % 256 ∷ []

abbrev pub le32 : ℕ → List ℕ
le32 n = n % 256 ∷ n / 256 % 256 ∷ n / 65536 % 256 ∷ n / 16777216 % 256 ∷ []

abbrev pub be16 : ℕ → List ℕ
be16 n = n / 256 % 256 ∷ n % 256 ∷ []

-- The 32 bytes of the headers, as the compiler lays them out, and the payload.
unfoldable pub to_bytes : VideoPacket → List ℕ
to_bytes p =
    (p.header ∷ p.packet_type ∷ be16 p.sequence_number)
    ++ (le32 p.timestamp
        ++ (le32 p.ssrc
            ++ (le32 p.reserved
                ++ (le32 p.stream_packet_index
                    ++ (le32 p.frame_index
                        ++ ((p.flags ∷ p.reserved_byte ∷ p.multi_fec_flags ∷ p.multi_fec_blocks
                              ∷ [])
                            ++ (le32 p.fec_info ++ p.payload)))))))

abbrev pub byte_at : List ℕ → ℕ → ℕ
byte_at b i = value_or (get_elem? b i) 0

abbrev pub u32_at : List ℕ → ℕ → ℕ
u32_at b i =
    byte_at b i + 256 * byte_at b (i + 1) + 65536 * byte_at b (i + 2) + 16777216 * byte_at b (i + 3)

-- The view of a buffer as `VideoRTPHeaders *`.
unfoldable pub from_bytes : List ℕ → VideoPacket
from_bytes b = record {
  header = byte_at b 0;
  packet_type = byte_at b 1;
  sequence_number = 256 * byte_at b 2 + byte_at b 3;
  timestamp = u32_at b 4;
  ssrc = u32_at b 8;
  reserved = u32_at b 12;
  stream_packet_index = u32_at b 16;
  frame_index = u32_at b 20;
  flags = byte_at b 24;
  reserved_byte = byte_at b 25;
  multi_fec_flags = byte_at b 26;
  multi_fec_blocks = byte_at b 27;
  fec_info = u32_at b 28;
  payload = drop 32 b;
}
