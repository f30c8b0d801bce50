-- ===== src/Video/Fec.antt =====
-- video.hpp: FEC, and `split_into_rtp`.
use steamos_containerized.Common.{
  ltb, ◌==◌, if◌then◌else◌, length, take, drop, replicate, ℕ, zero, suc, ◌+◌, ◌-◌, ◌*◌, ◌/◌, ◌%◌,
  ◌^◌, min, Bool, List, [], ◌∷◌, ◌++◌,
}
use steamos_containerized.StdLib.{StdLib}
use steamos_containerized.Video.{VideoPay, VideoPacket, bit_or, to_bytes, from_bytes}
use steamos_containerized.Video.Packets.{prepend_video_header, generate_rtp_packets}

-- `block_index` and `last_block_index` go into one byte.
unfoldable pub update_fec_info : VideoPay → ℕ → ℕ → ℕ → ℕ → ℕ → VideoPacket → VideoPacket
update_fec_info v shard_idx data_shards fec_percentage block_index last_block_index p = record p {
  frame_index = v.frame_num;
  fec_info =
      bit_or 32 (bit_or 32 (shard_idx * 2 ^ 12) (data_shards * 2 ^ 22)) (fec_percentage * 2 ^ 4);
  multi_fec_blocks = bit_or 8 (block_index * 2 ^ 4) last_block_index;
  multi_fec_flags = 16;
  header = 144;
  sequence_number = (v.cur_seq_number + shard_idx) % 2 ^ 32 % 2 ^ 16;
}

pub record Blocks : Type 0 where
  pub block_size : ℕ
  pub data_shards : ℕ
  pub parity_shards : ℕ
  pub fec_percentage : ℕ

unfoldable pub determine_split : VideoPay → ℕ → Blocks
determine_split v data_shards =
    let parity_shards = (data_shards * v.fec_percentage + 99) / 100 in
    let too_few = ltb parity_shards v.min_required_fec_packets in
    let wanted = if too_few then v.min_required_fec_packets else parity_shards in
    record {
      block_size = v.payload_size + 32 - 16;
      data_shards = data_shards;
      parity_shards = wanted;
      fec_percentage = if too_few then 100 * wanted / data_shards else v.fec_percentage;
    }

-- `gst_buffer_list_unfold`
unfoldable pub unfold_list : List VideoPacket → List ℕ
unfold_list [] = []
unfold_list (p ∷ ps) = to_bytes p ++ unfold_list ps

-- What `moonlight::fec::encode` leaves in the parity shards, from the number of data shards and
-- of parity shards, the size of a shard, and the bytes of the data shards.
abbrev pub Encoder : Type 0
Encoder = ℕ → ℕ → ℕ → List ℕ → List ℕ

module _ (encode : Encoder) where
  -- The two loops of `generate_fec_packets`, from the shard `idx` on.
  unfoldable pub update_data : VideoPay → Blocks → ℕ → ℕ → List VideoPacket → ℕ → List VideoPacket
  unfolding update_fec_info
  update_data v b block last [] idx = []
  update_data v b block last (p ∷ ps) idx =
      update_fec_info v idx b.data_shards b.fec_percentage block last p
      ∷ update_data v b block last ps (idx + 1)

  unfoldable pub parity_packets : VideoPay → Blocks → ℕ → ℕ → List ℕ → ℕ → ℕ → List VideoPacket
  unfolding update_fec_info
  parity_packets v b block last parity zero idx = []
  parity_packets v b block last parity (suc k) idx =
      update_fec_info v idx b.data_shards b.fec_percentage block last
        (from_bytes (take b.block_size parity))
      ∷ parity_packets v b block last (drop b.block_size parity) k (idx + 1)

  -- With more shards than DATA_SHARDS_MAX, the packets go out without FEC.
  unfoldable pub generate_fec_packets : VideoPay → List VideoPacket → ℕ → ℕ → List VideoPacket
  unfolding determine_split
  generate_fec_packets v packets block last =
      let b = determine_split v (length packets) in
      let rtp_payload = unfold_list packets in
      let padded =
        if length rtp_payload % b.block_size == 0
        then rtp_payload
        else rtp_payload ++ replicate (b.data_shards * b.block_size - length rtp_payload) 0 in
      let parity = encode b.data_shards b.parity_shards b.block_size padded in
      if ltb 255 (b.data_shards + b.parity_shards)
      then packets
      else update_data v b block last packets 0
        ++ parity_packets v b block last parity b.parity_shards b.data_shards

  abbrev pub advance : ℕ → VideoPay → VideoPay
  advance n v = record v { cur_seq_number = (v.cur_seq_number + n) % 2 ^ 32 }

  -- `gst_buffer_list_sub`
  abbrev pub list_sub : List VideoPacket → ℕ → ℕ → List VideoPacket
  list_sub packets start end = take (end - start) (drop start packets)

  -- The turns of the loop over the blocks from `block_idx` on; the last block index is 2 << 6.
  unfoldable pub fec_blocks : ℕ → ℕ → VideoPay → List VideoPacket → ℕ → List VideoPacket × VideoPay
  unfolding generate_fec_packets
  fec_blocks zero packets_per_block v packets block_idx = ([], v)
  fec_blocks (suc turns) packets_per_block v packets block_idx =
      let list_start = block_idx * packets_per_block in
      let list_end = min ((block_idx + 1) * packets_per_block) (length packets) in
      let block = generate_fec_packets v (list_sub packets list_start list_end) block_idx 128 in
      let (rest, v') =
        fec_blocks turns packets_per_block (advance (length block) v) packets (block_idx + 1) in
      (block ++ rest, v')

  unfoldable pub generate_fec_multi_blocks :
      StdLib → VideoPay → List VideoPacket → ℕ → List VideoPacket × VideoPay
  unfolding fec_blocks
  generate_fec_multi_blocks lib v packets data_shards =
      fec_blocks 3 (lib.ceil_div data_shards 3) v packets 0

  -- What `split_into_rtp` does with the packets of a frame.
  unfoldable pub protect : StdLib → VideoPay → List VideoPacket → List VideoPacket × VideoPay
  unfolding generate_fec_packets generate_fec_multi_blocks determine_split
  protect lib v packets =
      let blocks = determine_split v (length packets) in
      let one = generate_fec_packets v packets 0 0 in
      if ltb 0 v.fec_percentage
      then if ltb 90 blocks.data_shards
        then generate_fec_multi_blocks lib v packets blocks.data_shards
        else (one, advance (length one) v)
      else (packets, v)

  unfoldable pub split_into_rtp : StdLib → VideoPay → Bool → List ℕ → List VideoPacket × VideoPay
  unfolding prepend_video_header generate_rtp_packets protect
  split_into_rtp lib v is_key inbuf =
      let full_payload_buf = prepend_video_header v is_key inbuf in
      let (packets, v') = protect lib v (generate_rtp_packets lib v full_payload_buf) in
      (packets, record v' { frame_num = (v'.frame_num + 1) % 2 ^ 32 })
