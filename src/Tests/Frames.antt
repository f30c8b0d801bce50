-- ===== src/Tests/Frames.antt =====
-- A frame of ten bytes in packets of eight, with FEC.
use steamos_containerized.Common.{
  if◌then◌else◌, length, replicate, ℕ, ◌+◌, ◌*◌, ◌%◌, ◌^◌, ◌<◌, ◌≡◌, refl, true, List, [], ◌∷◌,
  ◌++◌, map, arith,
}
use steamos_containerized.StdLib.{CeilDivExact, plain_lib}
use steamos_containerized.Video.{VideoPay, default_pay, from_bytes, VideoPacket}
use steamos_containerized.Video.Packets.{
  create_rtp_header, last_payload_len, prepend_video_header, rtp_packet, packets_from,
  generate_rtp_packets,
}
use steamos_containerized.Video.Fec.{
  update_fec_info, determine_split, Encoder, update_data, parity_packets, generate_fec_packets,
  protect, split_into_rtp,
}
use steamos_containerized.Video.Chunks.{payloads, generate_rtp_packets-payloads}
use steamos_containerized.Video.Sequence.{Consecutive}
use steamos_containerized.Video.Multi.{split_into_rtp-Consecutive}

abbrev small_pay : VideoPay
small_pay = record default_pay { payload_size = 24; cur_seq_number = 65534 }

abbrev frame : List ℕ
frame = 1 ∷ 2 ∷ 3 ∷ 4 ∷ 5 ∷ 6 ∷ 7 ∷ 8 ∷ 9 ∷ 10 ∷ []

-- Parity shards of zeros.
abbrev zero_encoder : Encoder
zero_encoder data_shards parity_shards block_size bytes = replicate (parity_shards * block_size) 0

exact_ceiling : CeilDivExact plain_lib
exact_ceiling n d p h = refl

numbers :
    map
      (λ (p : VideoPacket). p.sequence_number)
      (split_into_rtp zero_encoder plain_lib small_pay true frame).0
    ≡ 65534 ∷ 65535 ∷ 0 ∷ 1 ∷ 2 ∷ []
unfolding split_into_rtp prepend_video_header last_payload_len generate_rtp_packets packets_from
    rtp_packet create_rtp_header protect generate_fec_packets determine_split update_data
    parity_packets update_fec_info
numbers = refl

split_into_rtp-Consecutive_example :
    let out = split_into_rtp zero_encoder plain_lib small_pay true frame in
    Consecutive 65534 out.0
    × (out.1.cur_seq_number ≡ (65534 + length out.0) % 2 ^ 32)
    × (out.1.frame_num ≡ (0 + 1) % 2 ^ 32)
split_into_rtp-Consecutive_example =
    split_into_rtp-Consecutive zero_encoder plain_lib small_pay true frame exact_ceiling
      (omega arith) (omega arith)
      (unfold generate_rtp_packets packets_from prepend_video_header last_payload_len in
        omega arith)

abbrev three_packets : List VideoPacket
three_packets = replicate 3 (from_bytes [])

generate_rtp_packets-payloads_example :
    let packets = generate_rtp_packets plain_lib small_pay frame in
    (k : ℕ) × (k < 8)
    × (length packets * 8 ≡ 10 + k)
    × (payloads packets ≡ frame ++ (if true then replicate k 0 else []))
generate_rtp_packets-payloads_example =
    generate_rtp_packets-payloads plain_lib small_pay frame exact_ceiling (omega arith)
      (omega arith)
