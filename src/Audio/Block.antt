-- ===== src/Audio/Block.antt =====
-- A block of four data packets and its FEC (audio.hpp, `split_into_rtp`).
use steamos_containerized.Common.{
  ◌/◌, length, take, drop, Text, ℕ, ◌+◌, ◌-◌, ◌*◌, ◌%◌, ◌^◌, ◌<◌, ◌≡◌, ◌⊎◌, Option, none, some,
  List, [], ◌∷◌, ◌++◌, if◌then◌else◌,
}
use steamos_containerized.Audio.{
  AudioPay, FecHeader, AudioPacket, create_rtp_header, packet_bytes, buffer_at,
}
use steamos_containerized.Audio.Shards.{Starts, Numbered}

-- `sent` are the packets of the block that is being sent, oldest first.
pub record InBlock (v : AudioPay) (sent : List AudioPacket) : Type 0 where
  pub count : length sent ≡ v.cur_seq_number % 4
  pub number : v.cur_seq_number < 2 ^ 16
  pub six : length v.packets_buffer ≡ 6
  pub held : Starts v.packets_buffer sent
  pub numbered : Numbered (v.cur_seq_number - length sent) sent

-- The FEC packet `idx` of a block that starts with the number `base`: what it carries is the body of
-- a parity shard of `coded`, for packets of `size` bytes.
pub record IsFecOf (v : AudioPay) (coded : List (List ℕ)) (size base idx : ℕ) (p : AudioPacket)
    : Type 0 where
  pub fec : FecHeader
  pub has_fec : p.fec_header ≡ some fec
  pub shard : fec.fec_shard_index ≡ idx
  pub base_number : fec.base_sequence_number ≡ base
  pub base_time : fec.base_timestamp ≡ base * v.packet_duration % 2 ^ 32
  pub body : p.payload ≡ take (size - 12) (drop 12 (buffer_at coded (4 + idx)))

module _ (stoul : Text → Option ℕ) (aes_encrypt_cbc : Text → Text → Text → Text)
    (encode : ℕ → List (List ℕ) → List (List ℕ)) where
  -- Within a block one packet goes out, and the block grows by it. The fourth packet is followed by
  -- the FEC packets of its block, and the next block starts.
  pub Sent : AudioPay → List AudioPacket → AudioPacket → List AudioPacket × AudioPay → Type 0
  Sent v sent p out =
      ((length sent < 3) × (out.0 ≡ p ∷ []) × InBlock out.1 (sent ++ p ∷ []))
      ⊎ ((length sent ≡ 3)
          × (shards : List (List ℕ)) × Starts shards (sent ++ p ∷ [])
          × Numbered (v.cur_seq_number - 3) (sent ++ p ∷ [])
          × (out.1.packets_buffer ≡ encode (length (packet_bytes p)) shards)
          × (first : AudioPacket) × (second : AudioPacket) × (out.0 ≡ p ∷ first ∷ second ∷ [])
          × IsFecOf v out.1.packets_buffer (length (packet_bytes p)) (v.cur_seq_number - 3) 0 first
          × IsFecOf v out.1.packets_buffer (length (packet_bytes p)) (v.cur_seq_number - 3) 1 second
          × InBlock out.1 [])

  plain : (v : AudioPay) → List ℕ → AudioPacket
  plain v payload = record { rtp = create_rtp_header v; fec_header = none; payload = payload }

  -- What an audio buffer is sent as: itself, or encrypted, with an IV of the four bytes of the sum of
  -- `iv` and the number of the packet, and twelve zeros.
  abbrev pub payload_of : AudioPay → List ℕ → ℕ → List ℕ
  payload_of v inbuf iv =
      let n = (iv % 2 ^ 32 + v.cur_seq_number) % 2 ^ 32 in
      if v.encrypt
      then aes_encrypt_cbc inbuf v.aes_key (
          n / 16777216 % 256
          ∷ n / 65536 % 256
          ∷ n / 256 % 256
          ∷ n % 256
          ∷ 0
          ∷ 0
          ∷ 0
          ∷ 0
          ∷ 0
          ∷ 0
          ∷ 0
          ∷ 0
          ∷ 0
          ∷ 0
          ∷ 0
          ∷ 0
          ∷ [])
      else inbuf
