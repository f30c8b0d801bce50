-- ===== src/Audio.antt =====
-- The audio payloader (server/src/gst-plugin/audio.hpp, and the helpers of utils.hpp that it calls).
-- `stoul`, `aes_encrypt_cbc` and `moonlight::fec::encode` are parameters: the first is none where it
-- throws, the last maps the block size and the six shard buffers to what it leaves in them.
pub mod Shards
pub mod Block
use steamos_containerized.Common.{
  leb, ◌==◌, if◌then◌else◌, value_or, length, take, drop, replicate, get_elem?, set, Text, ℕ, ◌+◌,
  ◌-◌, ◌*◌, ◌/◌, ◌%◌, ◌^◌, Bool, Option, none, some, List, [], ◌∷◌, ◌++◌,
}

-- `gst_rtp_moonlight_pay_audio`; `packets_buffer` has AUDIO_TOTAL_SHARDS = 6 shards.
pub record AudioPay : Type 0 where
  pub cur_seq_number : ℕ
  pub encrypt : Bool
  pub aes_key : Text
  pub aes_iv : Text
  pub packet_duration : ℕ
  pub packets_buffer : List (List ℕ)

-- `RTP_PACKET`, in host order.
pub record RtpHeader : Type 0 where
  pub header : ℕ
  pub packet_type : ℕ
  pub sequence_number : ℕ
  pub timestamp : ℕ
  pub ssrc : ℕ

-- `AudioFECHeader`, in host order.
pub record FecHeader : Type 0 where
  pub fec_shard_index : ℕ
  pub payload_type : ℕ
  pub base_sequence_number : ℕ
  pub base_timestamp : ℕ
  pub fec_ssrc : ℕ

-- A data packet has no FEC header.
pub record AudioPacket : Type 0 where
  pub rtp : RtpHeader
  pub fec_header : Option FecHeader
  pub payload : List ℕ

unfoldable pub create_rtp_header : AudioPay → RtpHeader
create_rtp_header v = record {
  header = 128;
  packet_type = 97;
  sequence_number = v.cur_seq_number % 2 ^ 16;
  timestamp = v.cur_seq_number * v.packet_duration % 2 ^ 32;
  ssrc = 0;
}

unfoldable pub create_rtp_fec_header : AudioPay → ℕ → RtpHeader × FecHeader
create_rtp_fec_header v fec_packet_idx =
    let base_seq_num = v.cur_seq_number - 3 in
    (
      record {
        header = 128;
        packet_type = 127;
        sequence_number = (v.cur_seq_number + fec_packet_idx) % 2 ^ 16;
        timestamp = 0;
        ssrc = 0;
      },
      record {
        fec_shard_index = fec_packet_idx;
        payload_type = 97;
        base_sequence_number = base_seq_num % 2 ^ 16;
        base_timestamp = base_seq_num * v.packet_duration % 2 ^ 32;
        fec_ssrc = 0;
      },
    )

abbrev pub be32 : ℕ → List ℕ
be32 n = n / 16777216 % 256 ∷ n / 65536 % 256 ∷ n / 256 % 256 ∷ n % 256 ∷ []

-- The bytes of a data packet; the SSRC is 0.
unfoldable pub packet_bytes : AudioPacket → List ℕ
packet_bytes p =
    let s = p.rtp.sequence_number in
    (p.rtp.header ∷ p.rtp.packet_type ∷ s / 256 % 256 ∷ s % 256 ∷ [])
    ++ (be32 p.rtp.timestamp ++ (be32 p.rtp.ssrc ++ p.payload))

-- AUDIO_MAX_BLOCK_SIZE, the bytes of each shard buffer
abbrev pub audio_max_block_size : ℕ
audio_max_block_size = 1400

-- What is behind the copied bytes stays.
abbrev pub overlay : List ℕ → List ℕ → List ℕ
overlay bytes destination = bytes ++ drop (length bytes) destination

-- `gst_buffer_copy_into` a shard buffer, which does not ask for its size: to write beyond its end is
-- undefined, and none here.
unfoldable pub copy_into : List ℕ → List ℕ → Option (List ℕ)
copy_into bytes destination =
    if leb (length bytes) audio_max_block_size then some (overlay bytes destination) else none

abbrev pub buffer_at : List (List ℕ) → ℕ → List ℕ
buffer_at buffers i = value_or (get_elem? buffers i) []

module _ (stoul : Text → Option ℕ) (aes_encrypt_cbc : Text → Text → Text → Text)
    (encode : ℕ → List (List ℕ) → List (List ℕ)) where
  unfoldable pub derive_iv : Text → ℕ → Option Text
  derive_iv aes_iv cur_seq_number = elim (stoul aes_iv) [
    | none ↦ none
    | some input_iv ↦ some (be32 ((input_iv % 2 ^ 32 + cur_seq_number) % 2 ^ 32) ++ replicate 12 0)
  ]

  abbrev pub encrypted : AudioPay → List ℕ → Option Text → Option (List ℕ)
  encrypted v inbuf none = none
  encrypted v inbuf (some derived_iv) = some (aes_encrypt_cbc inbuf v.aes_key derived_iv)

  unfoldable pub create_rtp_audio_buffer : AudioPay → List ℕ → Option AudioPacket
  unfolding create_rtp_header derive_iv
  create_rtp_audio_buffer v inbuf =
      let sent =
        if v.encrypt then encrypted v inbuf (derive_iv v.aes_iv v.cur_seq_number) else some inbuf in
      elim sent [
        | none ↦ none
        | some payload ↦
            some (record { rtp = create_rtp_header v; fec_header = none; payload = payload })
      ]

  unfoldable pub fec_packet : AudioPay → List (List ℕ) → ℕ → ℕ → AudioPacket
  unfolding create_rtp_fec_header
  fec_packet v buffers payload_size fec_packet_idx =
      let (rtp, fec) = create_rtp_fec_header v fec_packet_idx in
      record {
        rtp = rtp;
        fec_header = some fec;
        payload = take payload_size (drop 12 (buffer_at buffers (4 + fec_packet_idx)));
      }

  -- `split_into_rtp` once the packet is copied, which leaves `stored` in its buffer.
  unfoldable pub send_stored : AudioPay → AudioPacket → List ℕ → List AudioPacket × AudioPay
  unfolding packet_bytes fec_packet
  send_stored v p stored =
      let slot = v.cur_seq_number % 4 in
      let block_size = length (packet_bytes p) in
      let buffers = set v.packets_buffer slot stored in
      let coded = encode block_size buffers in
      let next = (v.cur_seq_number + 1) % 2 ^ 16 in
      if (v.cur_seq_number + 1) % 4 == 0
      then (
        p ∷ fec_packet v coded (block_size - 12) 0 ∷ fec_packet v coded (block_size - 12) 1 ∷ [],
        record v { cur_seq_number = next; packets_buffer = coded },
      )
      else (p ∷ [], record v { cur_seq_number = next; packets_buffer = buffers })

  -- `split_into_rtp` once the packet is made.
  unfoldable pub send_packet : AudioPay → AudioPacket → Option (List AudioPacket × AudioPay)
  unfolding copy_into packet_bytes send_stored
  send_packet v p =
      let slot = v.cur_seq_number % 4 in
      elim (copy_into (packet_bytes p) (buffer_at v.packets_buffer slot)) [
        | none ↦ none
        | some stored ↦ some (send_stored v p stored)
      ]

  abbrev pub sent_with : AudioPay → Option AudioPacket → Option (List AudioPacket × AudioPay)
  sent_with v none = none
  sent_with v (some p) = send_packet v p

  unfoldable pub split_into_rtp : AudioPay → List ℕ → Option (List AudioPacket × AudioPay)
  unfolding create_rtp_audio_buffer send_packet
  split_into_rtp v inbuf = sent_with v (create_rtp_audio_buffer v inbuf)
