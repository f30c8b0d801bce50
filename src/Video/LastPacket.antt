-- ===== src/Video/LastPacket.antt =====
-- The length that the header of a frame announces (video.hpp, `prepend_video_header`).
use steamos_containerized.Common.{
  ltb, ◌==◌, if◌then◌else◌, Bool-cases, length, ℕ, zero, suc, ◌+◌, ◌-◌, ◌*◌, ◌%◌, ◌^◌, ◌≤◌, ◌<◌,
  ◌≡◌, sym, ap, ◌∙◌, inl, inr, Bool, List, arith,
}
use steamos_containerized.StdLib.{StdLib, CeilDivExact}
use native.Mathlib.Nat.{mod-eq_of_lt, mod_self, mul-add-mod_self_right}
use steamos_containerized.Video.{VideoPay}
use steamos_containerized.Video.Packets.{
  last_payload_len, prepend_video_header, generate_rtp_packets,
}
use steamos_containerized.Video.Chunks.{generate_rtp_packets-payloads}

-- The length of the last of some full packets and one with `c` bytes.
announced : (p t c : ℕ) → ℕ
announced p t c = let len = (t * p + c) % p % 2 ^ 16 in if len == 0 then p % 2 ^ 16 else len

announced_lem : (p t c : ℕ) → 0 < c → c ≤ p → p < 2 ^ 16 → announced p t c ≡ c
unfolding announced
announced_lem p t c some_bytes fits small =
    let low : (t * p + c) % p ≡ c % p = mul-add-mod_self_right t p c in
    elim (Bool-cases (ltb c p)) [
      | inl y ↦ let e : c % p ≡ c = mod-eq_of_lt (ground arith) in rw (low, e) (ground arith)
      | inr f ↦
          let same : c ≡ p = ground arith in
          let e : c % p ≡ 0 = ap (λ x. x % p) same ∙ mod_self p in
          rw (low, e) (ground (arith, same))
    ]

length-prepend_video_header :
    (v : VideoPay) (is_key : Bool) (inbuf : List ℕ)
    → length (prepend_video_header v is_key inbuf) ≡ length inbuf + 8
unfolding prepend_video_header
length-prepend_video_header v is_key inbuf = omega arith

last_of :
    (v : VideoPay) (n tot k : ℕ)
    → 0 < v.payload_size - 16
    → v.payload_size - 16 < 2 ^ 16
    → k < v.payload_size - 16
    → tot * (v.payload_size - 16) ≡ n + 8 + k
    → (t : ℕ) × (tot ≡ t + 1)
      × (t * (v.payload_size - 16) + last_payload_len v n ≡ n + 8)
      × (0 < last_payload_len v n)
      × (last_payload_len v n ≤ v.payload_size - 16)
unfolding last_payload_len announced
last_of v n zero k pos_p small below whole =
    let none : 0 * (v.payload_size - 16) ≡ 0 = omega arith in absurd (omega (arith, whole, none))
last_of v n (suc t) k pos_p small below whole =
    let p = v.payload_size - 16 in
    let unroll : suc t * p ≡ t * p + p = omega arith in
    let split : n + 8 ≡ t * p + (p - k) = omega (arith, whole, unroll, below) in
    let len : last_payload_len v n ≡ p - k =
      ap (λ x. let len = x % p % 2 ^ 16 in if len == 0 then p % 2 ^ 16 else len) split
      ∙ announced_lem p t (p - k) (omega arith) (omega arith) small in
    (t, omega arith, omega (arith, len, split), omega (arith, len), omega (arith, len))

-- For a packet size below 2 ^ 16 and a frame of less than 2 ^ 24 bytes, header included, at least
-- one packet is made, and the header announces what the frame has beyond the packets before the
-- last one, all of them full.
pub last_payload_len_lem :
    (lib : StdLib) (v : VideoPay) (is_key : Bool) (inbuf : List ℕ)
    → CeilDivExact lib
    → 0 < v.payload_size - 16
    → v.payload_size - 16 < 2 ^ 16
    → length inbuf + 8 < 2 ^ 24
    → let full = prepend_video_header v is_key inbuf in
      (t : ℕ) × (length (generate_rtp_packets lib v full) ≡ t + 1)
      × (t * (v.payload_size - 16) + last_payload_len v (length inbuf) ≡ length full)
      × (0 < last_payload_len v (length inbuf))
      × (last_payload_len v (length inbuf) ≤ v.payload_size - 16)
last_payload_len_lem lib v is_key inbuf exact pos_p small few =
    let p = v.payload_size - 16 in
    let full = prepend_video_header v is_key inbuf in
    let n_is = length-prepend_video_header v is_key inbuf in
    let (k, below, whole, bytes) =
      generate_rtp_packets-payloads lib v full exact pos_p (omega (arith, n_is)) in
    let (t, last, total, some_bytes, fits) =
      last_of v (length inbuf) (length (generate_rtp_packets lib v full)) k pos_p small below
        (whole ∙ ap (λ x. x + k) n_is) in
    (t, last, total ∙ sym n_is, some_bytes, fits)
