-- ===== src/Video/Info.antt =====
-- The bit fields of a packet's FEC information (video.hpp, `update_fec_info`).
use steamos_containerized.Common.{
  ℕ, zero, suc, ◌+◌, ◌*◌, ◌/◌, ◌%◌, ◌^◌, ◌<◌, ◌≡◌, refl, subst, ◌∙◌, arith,
}
use steamos_containerized.Video.{VideoPay, VideoPacket, bit_or}
use steamos_containerized.Video.Fec.{update_fec_info}

bit_or_comm : (w a b : ℕ) → bit_or w a b ≡ bit_or w b a
unfolding bit_or
bit_or_comm zero a b = refl
bit_or_comm (suc w) a b = ground (arith, bit_or_comm w (a / 2) (b / 2))

-- `y << k`, and the width of two fields side by side, by recursion on the first.
abbrev shl : ℕ → ℕ → ℕ
shl zero y = y
shl (suc k) y = 2 * shl k y

abbrev beside : ℕ → ℕ → ℕ
beside zero w = w
beside (suc k) w = suc (beside k w)

bit_or_zero : (w b : ℕ) → b < shl w 1 → bit_or w 0 b ≡ b
unfolding bit_or
bit_or_zero zero b h = omega arith
bit_or_zero (suc w) b h = let rest = bit_or_zero w (b / 2) (omega arith) in ground (arith, rest)

-- A field below bit `k`, and one from there on.
bit_or_disjoint :
    (k w a y : ℕ) → a < shl k 1 → y < shl w 1 → bit_or (beside k w) a (shl k y) ≡ a + shl k y
unfolding bit_or
bit_or_disjoint zero w a y h g =
    let e : a ≡ 0 = omega arith in rw e (bit_or_zero w y g ∙ omega arith)
bit_or_disjoint (suc k) w a y h g =
    let rest = bit_or_disjoint k w (a / 2) y (omega arith) g in
    let half_y : 2 * shl k y / 2 ≡ shl k y = omega arith in rw half_y (ground (arith, rest))

-- With up to 1023 shards of which the first 1023 at most hold data, and a percentage of one byte,
-- the client reads from the FEC information of a packet its shard index, the number of data shards
-- and the percentage that were written.
pub update_fec_info_lem :
    (v : VideoPay) (shard_idx data_shards fec_percentage block last : ℕ) (p : VideoPacket)
    → shard_idx < 1024
    → data_shards < 1024
    → fec_percentage < 256
    → let info = (update_fec_info v shard_idx data_shards fec_percentage block last p).fec_info in
      (info / 2 ^ 12 % 2 ^ 10 ≡ shard_idx)
      × (info / 2 ^ 22 ≡ data_shards)
      × (info / 2 ^ 4 % 2 ^ 8 ≡ fec_percentage)
unfolding update_fec_info
update_fec_info_lem v i d f block last p hi hd hf =
    let d_at : shl 22 d ≡ d * 2 ^ 22 = omega arith in
    let inner : bit_or 32 (i * 2 ^ 12) (d * 2 ^ 22) ≡ i * 2 ^ 12 + d * 2 ^ 22 =
      subst (λ x. bit_or 32 (i * 2 ^ 12) x ≡ i * 2 ^ 12 + x) d_at
        (bit_or_disjoint 22 10 (i * 2 ^ 12) d (omega arith) (omega arith)) in
    let rest_at : shl 12 (i + 1024 * d) ≡ i * 2 ^ 12 + d * 2 ^ 22 = omega arith in
    let outer : bit_or 32 (i * 2 ^ 12 + d * 2 ^ 22) (f * 2 ^ 4)
        ≡ f * 2 ^ 4 + (i * 2 ^ 12 + d * 2 ^ 22) =
      bit_or_comm 32 (i * 2 ^ 12 + d * 2 ^ 22) (f * 2 ^ 4)
      ∙ subst (λ x. bit_or 32 (f * 2 ^ 4) x ≡ f * 2 ^ 4 + x) rest_at
          (bit_or_disjoint 12 20 (f * 2 ^ 4) (i + 1024 * d) (omega arith) (omega arith)) in
    rw (inner, outer) (omega arith, omega arith, omega arith)
