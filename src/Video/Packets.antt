-- ===== src/Video/Packets.antt =====
-- video.hpp: `create_rtp_header`, `prepend_video_header` and `generate_rtp_packets`.
use steamos_containerized.Common.{
  ltb, ◌==◌, if◌then◌else◌, length, take, drop, replicate, ℕ, zero, suc, ◌+◌, ◌-◌, ◌*◌, ◌%◌, ◌^◌,
  min, Bool, ◌&&◌, List, [], ◌∷◌, ◌++◌,
}
use steamos_containerized.StdLib.{StdLib}
use steamos_containerized.Video.{VideoPay, VideoPacket, bit_or, le16}

-- FLAG_CONTAINS_PIC_DATA, with FLAG_SOF on the first and FLAG_EOF on the last packet.
unfoldable pub flags_of : ℕ → ℕ → ℕ
flags_of packet_nr tot_packets =
    let sof : ℕ = if packet_nr == 0 then 4 else 0 in
    let eof : ℕ = if packet_nr + 1 == tot_packets then 2 else 0 in 1 + sof + eof

unfoldable pub create_rtp_header : VideoPay → ℕ → ℕ → VideoPacket
unfolding flags_of
create_rtp_header v packet_nr tot_packets =
    let number = (v.cur_seq_number + packet_nr) % 2 ^ 32 in
    record {
      header = 144;
      packet_type = 0;
      sequence_number = number % 2 ^ 16;
      timestamp = 0;
      ssrc = 0;
      reserved = 0;
      stream_packet_index = number * 2 ^ 8 % 2 ^ 32;
      frame_index = v.frame_num;
      flags = flags_of packet_nr tot_packets;
      reserved_byte = 0;
      multi_fec_flags = 16;
      multi_fec_blocks = 0;
      fec_info = bit_or 32 (packet_nr * 2 ^ 12) (tot_packets * 2 ^ 22);
      payload = [];
    }

-- The length that a client reads from the frame: of what the last packet holds of it.
unfoldable pub last_payload_len : VideoPay → ℕ → ℕ
last_payload_len v in_buf_size =
    let room = v.payload_size - 16 in
    let len = (in_buf_size + 8) % room % 2 ^ 16 in if len == 0 then room % 2 ^ 16 else len

unfoldable pub prepend_video_header : VideoPay → Bool → List ℕ → List ℕ
unfolding last_payload_len
prepend_video_header v is_key inbuf =
    (1 ∷ 0 ∷ 0 ∷ (if is_key then 2 else 1) ∷ [])
    ++ (le16 (last_payload_len v (length inbuf)) ++ (0 ∷ 0 ∷ inbuf))

-- One turn of the loop of `generate_rtp_packets`.
unfoldable pub rtp_packet : VideoPay → List ℕ → ℕ → ℕ → VideoPacket
unfolding create_rtp_header
rtp_packet v inbuf tot_packets packet_nr =
    let payload_size = v.payload_size - 16 in
    let begin = packet_nr * payload_size in
    let remaining = length inbuf - begin in
    let chunk = take (min remaining payload_size) (drop begin inbuf) in
    let padding =
      if ltb remaining payload_size && v.add_padding
      then replicate (payload_size - remaining) 0
      else [] in
    record (create_rtp_header v packet_nr tot_packets) { payload = chunk ++ padding }

-- The turns from `packet_nr` on, of which `turns` are left.
unfoldable pub packets_from : VideoPay → List ℕ → ℕ → ℕ → ℕ → List VideoPacket
unfolding rtp_packet
packets_from v inbuf tot_packets zero packet_nr = []
packets_from v inbuf tot_packets (suc turns) packet_nr =
    rtp_packet v inbuf tot_packets packet_nr
    ∷ packets_from v inbuf tot_packets turns (packet_nr + 1)

unfoldable pub generate_rtp_packets : StdLib → VideoPay → List ℕ → List VideoPacket
unfolding packets_from
generate_rtp_packets lib v inbuf =
    let tot_packets = lib.ceil_div (length inbuf) (v.payload_size - 16) in
    packets_from v inbuf tot_packets tot_packets 0
