-- ===== src/Video/Multi.antt =====
-- The sequence numbers of a frame whose FEC comes in three blocks (video.hpp,
-- `generate_fec_multi_blocks` and `split_into_rtp`), by whether a whole block is too large for FEC.
use steamos_containerized.Common.{
  ltb, Bool-cases, length, take, drop, length-append, length-take, length-drop, ℕ, zero, suc, ◌+◌,
  ◌-◌, ◌*◌, ◌%◌, ◌^◌, ◌≤◌, ◌<◌, min, ◌≡◌, refl, sym, ap, ◌∙◌, inl, inr, Bool, true, List, [], arith,
  false,
}
use steamos_containerized.StdLib.{StdLib, CeilDivExact}
use native.Mathlib.Nat.{mul-le-mul_left}
use steamos_containerized.Video.{VideoPay, VideoPacket}
use steamos_containerized.Video.Packets.{prepend_video_header, generate_rtp_packets}
use steamos_containerized.Video.Fec.{
  determine_split, Encoder, generate_fec_packets, advance, list_sub, fec_blocks,
  generate_fec_multi_blocks, protect, split_into_rtp,
}
use steamos_containerized.Video.Sequence.{
  Consecutive, Consecutive-mod, Consecutive-append, Consecutive-drop, Consecutive-take,
  packets_from-Consecutive, shards, fec-Consecutive, skipped, generate_fec_packets-Consecutive,
}

module _ (encode : Encoder) where
  shards_mono : (v : VideoPay) (d e : ℕ) → d ≤ e → shards encode v d ≤ shards encode v e
  unfolding determine_split
  shards_mono v d e h =
      let m : v.fec_percentage * d ≤ v.fec_percentage * e = mul-le-mul_left v.fec_percentage h in
      ground (arith, m)

  length-list_sub :
      (ps : List VideoPacket) (start end : ℕ)
      → length (list_sub encode ps start end) ≡ min (end - start) (length ps - start)
  length-list_sub ps start end =
      omega (arith, length-take (end - start) (drop start ps), length-drop start ps)

  next_start : (i w : ℕ) → (i + 1) * w ≡ i * w + w
  next_start i w = omega arith

  sub_bound :
      (ps : List VideoPacket) (i w : ℕ)
      → length (list_sub encode ps (i * w) (min ((i + 1) * w) (length ps))) ≤ w
  sub_bound ps i w =
      omega (arith, length-list_sub ps (i * w) (min ((i + 1) * w) (length ps)), next_start i w)

  block_of : VideoPay → List VideoPacket → ℕ → ℕ → List VideoPacket
  block_of v ps i w =
      generate_fec_packets encode v (list_sub encode ps (i * w) (min ((i + 1) * w) (length ps))) i
        128

  -- A block that the numbers of the packets after `n` follow.
  after_block :
      (v : VideoPay) (n : ℕ) (rest : List VideoPacket)
      → Consecutive (advance encode n v).cur_seq_number rest
      → Consecutive (v.cur_seq_number + n) rest
  after_block v n rest c = Consecutive-mod _ _ rest (omega arith) c

  -- No block is too large for FEC.
  all_protected :
      (turns w : ℕ) (v : VideoPay) (ps : List VideoPacket) (i : ℕ)
      → shards encode v w ≤ 255
      → Consecutive v.cur_seq_number (fec_blocks encode turns w v ps i).0
  unfolding fec_blocks block_of determine_split
  all_protected zero w v ps i small = tt
  all_protected (suc turns) w v ps i small =
      let sub = list_sub encode ps (i * w) (min ((i + 1) * w) (length ps)) in
      let bound : shards encode v (length sub) ≤ shards encode v w =
        shards_mono v (length sub) w (sub_bound ps i w) in
      Consecutive-append v.cur_seq_number _ _ (fec-Consecutive encode v sub i 128 (ground arith)) (
        after_block v (length (block_of v ps i w)) _
          (all_protected turns w (advance encode (length (block_of v ps i w)) v) ps (i + 1) small))

  sub-Consecutive :
      (v : VideoPay) (ps : List VideoPacket) (i w s : ℕ)
      → Consecutive s ps
      → v.cur_seq_number % 2 ^ 16 ≡ (s + i * w) % 2 ^ 16
      → Consecutive v.cur_seq_number (block_of v ps i w)
  unfolding block_of
  sub-Consecutive v ps i w s c e =
      let n = min ((i + 1) * w) (length ps) - i * w in
      let part = take n (drop (i * w) ps) in
      generate_fec_packets-Consecutive encode v part i 128 (
        Consecutive-mod (s + i * w) v.cur_seq_number part (sym e)
          (Consecutive-take _ n (drop (i * w) ps) (Consecutive-drop s (i * w) ps c)))

  -- A whole block that is too large for FEC is its packets.
  length-block_of :
      (v : VideoPay) (ps : List VideoPacket) (i w : ℕ)
      → 255 < shards encode v w
      → (i + 1) * w ≤ length ps
      → length (block_of v ps i w) ≡ w
  unfolding block_of
  length-block_of v ps i w large room =
      let part = list_sub encode ps (i * w) (min ((i + 1) * w) (length ps)) in
      let len : length part ≡ w =
        omega (arith, length-list_sub ps (i * w) (min ((i + 1) * w) (length ps)), next_start i w) in
      let too_large : ltb 255 (shards encode v (length part)) ≡ true = rw len (ground arith) in
      ap length (skipped encode v part i 128 too_large) ∙ len

  -- The whole blocks are too large for FEC, so that they go out as they are.
  some_unprotected :
      (turns w : ℕ) (v : VideoPay) (ps : List VideoPacket) (i s : ℕ)
      → 255 < shards encode v w
      → (i + turns) * w ≤ length ps
      → Consecutive s ps
      → v.cur_seq_number % 2 ^ 16 ≡ (s + i * w) % 2 ^ 16
      → Consecutive v.cur_seq_number (fec_blocks encode (suc turns) w v ps i).0
  unfolding fec_blocks block_of determine_split
  some_unprotected zero w v ps i s large room c e =
      Consecutive-append v.cur_seq_number (block_of v ps i w) [] (sub-Consecutive v ps i w s c e) tt
  some_unprotected (suc turns) w v ps i s large room c e =
      let rest_room : (i + 1 + turns) * w ≤ length ps = omega arith in
      let tail : (i + 1 + turns) * w ≡ (i + 1) * w + turns * w = omega arith in
      let len = length-block_of v ps i w large (omega (arith, tail)) in
      Consecutive-append v.cur_seq_number (block_of v ps i w) _ (sub-Consecutive v ps i w s c e) (
        after_block v (length (block_of v ps i w)) _ (
          some_unprotected turns w (advance encode (length (block_of v ps i w)) v) ps (i + 1) s
            large rest_room c (omega (arith, e, len, next_start i w))))

  -- The sequence number is moved on by as many packets as the blocks hold.
  fec_blocks-advance :
      (turns w : ℕ) (v : VideoPay) (ps : List VideoPacket) (i : ℕ)
      → v.cur_seq_number < 2 ^ 32
      → let out = fec_blocks encode turns w v ps i in
        (out.1.cur_seq_number ≡ (v.cur_seq_number + length out.0) % 2 ^ 32)
        × (out.1.frame_num ≡ v.frame_num)
  unfolding fec_blocks block_of
  fec_blocks-advance zero w v ps i h = (omega arith, refl)
  fec_blocks-advance (suc turns) w v ps i h =
      let block = block_of v ps i w in
      let v' = advance encode (length block) v in
      let rest = fec_blocks-advance turns w v' ps (i + 1) (omega arith) in
      (
        omega (arith, rest.0, length-append block (fec_blocks encode turns w v' ps (i + 1)).0),
        rest.1,
      )

  -- `protect` in terms of what goes in: the packets of the frame, numbered from the current number.
  pub Protected : VideoPay → List VideoPacket × VideoPay → Type 0
  Protected v out =
      Consecutive v.cur_seq_number out.0
      × (out.1.cur_seq_number ≡ (v.cur_seq_number + length out.0) % 2 ^ 32)
      × (out.1.frame_num ≡ v.frame_num)

  multi-Protected :
      (lib : StdLib) (v : VideoPay) (ps : List VideoPacket)
      → CeilDivExact lib
      → v.cur_seq_number < 2 ^ 32
      → 90 < length ps
      → length ps < 2 ^ 24
      → Consecutive v.cur_seq_number ps
      → Protected v (generate_fec_multi_blocks encode lib v ps (length ps))
  unfolding generate_fec_multi_blocks Protected
  multi-Protected lib v ps exact cur many few c =
      let w = lib.ceil_div (length ps) 3 in
      let w_is = exact (length ps) 3 (omega arith) few in
      let moved = fec_blocks-advance 3 w v ps 0 cur in
      elim (Bool-cases (ltb 255 (shards encode v w))) [
        | inl t ↦ (
          some_unprotected 2 w v ps 0 v.cur_seq_number (ground arith) (omega (arith, w_is)) c
              (omega arith),
          moved.0,
          moved.1,
        )
        | inr f ↦ (all_protected 3 w v ps 0 (ground arith), moved.0, moved.1)
      ]

  protect-Protected :
      (lib : StdLib) (v : VideoPay) (ps : List VideoPacket)
      → CeilDivExact lib
      → v.cur_seq_number < 2 ^ 32
      → 0 < v.fec_percentage
      → length ps < 2 ^ 24
      → Consecutive v.cur_seq_number ps
      → Protected v (protect encode lib v ps)
  unfolding protect Protected determine_split
  protect-Protected lib v ps exact cur fec few c =
      let on : ltb 0 v.fec_percentage ≡ true = ground arith in
      elim (Bool-cases (ltb 90 (length ps))) [
        | inl t ↦
            rw (on, t) (unfold Protected in multi-Protected lib v ps exact cur (ground arith) few c)
        | inr f ↦ rw (on, f) (generate_fec_packets-Consecutive encode v ps 0 0 c, refl, refl)
      ]

  -- With FEC on, the packets of a frame of fewer than 2 ^ 24 data packets, data and FEC packets of
  -- every block alike, are numbered consecutively modulo 2 ^ 16 from the current sequence number,
  -- which is moved on by exactly their number modulo 2 ^ 32, and the frame number by one.
  pub split_into_rtp-Consecutive :
      (lib : StdLib) (v : VideoPay) (is_key : Bool) (inbuf : List ℕ)
      → CeilDivExact lib
      → v.cur_seq_number < 2 ^ 32
      → 0 < v.fec_percentage
      → length (generate_rtp_packets lib v (prepend_video_header v is_key inbuf)) < 2 ^ 24
      → let out = split_into_rtp encode lib v is_key inbuf in
        Consecutive v.cur_seq_number out.0
        × (out.1.cur_seq_number ≡ (v.cur_seq_number + length out.0) % 2 ^ 32)
        × (out.1.frame_num ≡ (v.frame_num + 1) % 2 ^ 32)
  unfolding split_into_rtp Protected generate_rtp_packets
  split_into_rtp-Consecutive lib v is_key inbuf exact cur fec few =
      let full = prepend_video_header v is_key inbuf in
      let packets = generate_rtp_packets lib v full in
      let start =
        Consecutive-mod _ _ packets (omega arith) (packets_from-Consecutive v full _ _ 0) in
      let p = protect-Protected lib v packets exact cur fec few start in
      (p.0, p.1, ap (λ (n : ℕ). (n + 1) % 2 ^ 32) p.2)

  -- With FEC off, the packets of a frame are numbered consecutively from the current sequence number,
  -- and that number stays as it was, so that the packets of the next frame get the same numbers.
  pub split_into_rtp_without_fec :
      (lib : StdLib) (v : VideoPay) (is_key : Bool) (inbuf : List ℕ)
      → v.fec_percentage ≡ 0
      → let out = split_into_rtp encode lib v is_key inbuf in
        Consecutive v.cur_seq_number out.0 × (out.1.cur_seq_number ≡ v.cur_seq_number)
  unfolding split_into_rtp generate_rtp_packets protect
  split_into_rtp_without_fec lib v is_key inbuf no_fec =
      let full = prepend_video_header v is_key inbuf in
      let off : ltb 0 v.fec_percentage ≡ false = ground arith in
      rw off (
        Consecutive-mod _ _ (generate_rtp_packets lib v full) (omega arith)
            (packets_from-Consecutive v full _ _ 0),
        refl,
      )
