-- ===== src/Tests/Sound.antt =====
-- The last packet of a block of audio.
use steamos_containerized.Common.{Text, ℕ, ◌*◌, true, Option, none, some, List, [], ◌∷◌, ◌++◌, map}
use steamos_containerized.Audio.{AudioPay, AudioPacket, packet_bytes}

-- A packet of one byte with this number, and a buffer of it.
abbrev packet_at : ℕ → AudioPacket
packet_at n = record {
  rtp = record { header = 128; packet_type = 97; sequence_number = n; timestamp = n * 5; ssrc = 0 };
  fec_header = none;
  payload = 9 ∷ [];
}

abbrev three_sent : List AudioPacket
three_sent = packet_at 65532 ∷ packet_at 65533 ∷ packet_at 65534 ∷ []

abbrev fourth : AudioPay
fourth = record {
  cur_seq_number = 65535;
  encrypt = true;
  aes_key = [];
  aes_iv = [];
  packet_duration = 5;
  packets_buffer = map packet_bytes three_sent ++ [] ∷ [] ∷ [] ∷ [];
}

abbrev reads_one : Text → Option ℕ
reads_one t = some 1

abbrev open_cipher : Text → Text → Text → Text
open_cipher content key iv = content

-- The parity shards stay as they are.
abbrev same_shards : ℕ → List (List ℕ) → List (List ℕ)
same_shards n bs = bs
