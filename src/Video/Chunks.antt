-- ===== src/Video/Chunks.antt =====
-- The bytes of a frame in its packets (video.hpp, `generate_rtp_packets`).
use steamos_containerized.Common.{
  ltb, if◌then◌else◌, Bool-cases, length, take, drop, replicate, length-drop, take-append-drop, ℕ,
  zero, suc, ◌+◌, ◌-◌, ◌*◌, ◌/◌, ◌%◌, ◌^◌, ◌≤◌, ◌<◌, min, ◌≡◌, refl, sym, ap, ◌∙◌, inl, inr, true,
  false, ◌&&◌, List, [], ◌∷◌, ◌++◌, arith,
}
use steamos_containerized.StdLib.{StdLib, CeilDivExact}
use mathlib.Core.List.{append-nil, append_assoc}
use native.Mathlib.Nat.{mod-lt, mod-add-div'}
use steamos_containerized.Video.{VideoPay, VideoPacket}
use steamos_containerized.Video.Packets.{rtp_packet, packets_from, generate_rtp_packets}

-- What all the packets hold, one after another.
unfoldable pub payloads : List VideoPacket → List ℕ
payloads [] = []
payloads (p ∷ ps) = p.payload ++ payloads ps

drop_at : (m n : ℕ) (xs : List ℕ) → m ≡ n → drop m xs ≡ drop n xs
drop_at m n xs e = ap (λ k. drop k xs) e

drop_nil : (k : ℕ) → drop {A = ℕ} k [] ≡ []
drop_nil zero = refl
drop_nil (suc k) = refl

drop-add : (m n : ℕ) (xs : List ℕ) → drop (m + n) xs ≡ drop n (drop m xs)
drop-add zero n xs = drop_at (0 + n) n xs (omega arith)
drop-add (suc m) n [] = drop_nil (suc m + n) ∙ sym (drop_nil n)
drop-add (suc m) n (x ∷ xs) =
    drop_at (suc m + n) (suc (m + n)) (x ∷ xs) (omega arith) ∙ drop-add m n xs

take_all : (n : ℕ) (xs : List ℕ) → length xs ≤ n → take n xs ≡ xs
take_all zero [] h = refl
take_all zero (x ∷ xs) h = absurd (omega arith)
take_all (suc n) [] h = refl
take_all (suc n) (x ∷ xs) h = ap (◌∷◌ x) (take_all n xs (omega arith))

drop_all : (n : ℕ) (xs : List ℕ) → length xs ≤ n → drop n xs ≡ []
drop_all zero [] h = refl
drop_all zero (x ∷ xs) h = absurd (omega arith)
drop_all (suc n) [] h = refl
drop_all (suc n) (x ∷ xs) h = drop_all n xs (omega arith)

-- What one turn sends of the bytes that are left, and the turns after it.
abbrev chunk : VideoPay → List ℕ → List ℕ
chunk v rest =
    let p = v.payload_size - 16 in
    take (min (length rest) p) rest
    ++ (if ltb (length rest) p && v.add_padding then replicate (p - length rest) 0 else [])

chunks : VideoPay → ℕ → List ℕ → List ℕ
chunks v zero rest = []
chunks v (suc turns) rest = chunk v rest ++ chunks v turns (drop (v.payload_size - 16) rest)

rtp_packet-payload :
    (v : VideoPay) (inbuf : List ℕ) (tot nr : ℕ)
    → (rtp_packet v inbuf tot nr).payload ≡ chunk v (drop (nr * (v.payload_size - 16)) inbuf)
unfolding rtp_packet
rtp_packet-payload v inbuf tot nr = rw (length-drop (nr * (v.payload_size - 16)) inbuf) refl

packets_from-chunks :
    (v : VideoPay) (inbuf : List ℕ) (tot turns nr : ℕ)
    → payloads (packets_from v inbuf tot turns nr)
      ≡ chunks v turns (drop (nr * (v.payload_size - 16)) inbuf)
unfolding payloads packets_from chunks
packets_from-chunks v inbuf tot zero nr = refl
packets_from-chunks v inbuf tot (suc turns) nr =
    let p = v.payload_size - 16 in
    let next : drop ((nr + 1) * p) inbuf ≡ drop p (drop (nr * p) inbuf) =
      drop_at ((nr + 1) * p) (nr * p + p) inbuf (omega arith) ∙ drop-add (nr * p) p inbuf in
    rw (rtp_packet-payload v inbuf tot nr, packets_from-chunks v inbuf tot turns (nr + 1), next)
      refl

abbrev padding_of : VideoPay → ℕ → List ℕ
padding_of v n = if v.add_padding then replicate n 0 else []

no_turns_left : (turns p r : ℕ) → turns * p < r → r < p → turns ≡ 0
no_turns_left zero p r h g = refl
no_turns_left (suc turns) p r h g =
    let e : suc turns * p ≡ p + turns * p = omega arith in absurd (omega (arith, e))

no_padding : (v : VideoPay) → padding_of v 0 ≡ []
no_padding v = ground arith

-- A short rest is sent in one chunk, with the padding; a long one fills the chunk.
short_chunk :
    (v : VideoPay) (rest : List ℕ)
    → length rest < v.payload_size - 16
    → chunk v rest ≡ rest ++ padding_of v (v.payload_size - 16 - length rest)
short_chunk v rest h =
    let p = v.payload_size - 16 in
    let less : ltb (length rest) p ≡ true = ground arith in
    rw (less, take_all (min (length rest) p) rest (omega arith)) refl

full_chunk :
    (v : VideoPay) (rest : List ℕ)
    → v.payload_size - 16 ≤ length rest
    → chunk v rest ≡ take (v.payload_size - 16) rest
full_chunk v rest h =
    let p = v.payload_size - 16 in
    let less : ltb (length rest) p ≡ false = ground arith in
    let whole : min (length rest) p ≡ p = omega arith in rw (less, whole) (append-nil (take p rest))

chunks_lem :
    (v : VideoPay) (turns : ℕ) (rest : List ℕ)
    → let p = v.payload_size - 16 in
      0 < p
      → length rest ≤ turns * p
      → turns * p < length rest + p
      → chunks v turns rest ≡ rest ++ padding_of v (turns * p - length rest)
unfolding chunks
chunks_lem v zero [] pos_p low high =
    sym (ap (λ n. padding_of v n) (nothing (v.payload_size - 16)) ∙ no_padding v)
  where
    nothing : (p : ℕ) → 0 * p - 0 ≡ 0
    nothing p = omega arith
chunks_lem v zero (x ∷ rest) pos_p low high = absurd (omega arith)
chunks_lem v (suc turns) rest pos_p low high =
    let p = v.payload_size - 16 in
    let unroll : suc turns * p ≡ p + turns * p = omega arith in
    elim (Bool-cases (ltb (length rest) p)) [
      | inl t ↦
          let short : length rest < p = ground arith in
          let last : turns ≡ 0 =
            no_turns_left turns p (length rest) (omega (arith, unroll)) short in
          let none_after : chunks v turns (drop p rest) ≡ [] =
            ap (λ n. chunks v n (drop p rest)) last in
          let same : suc turns * p - length rest ≡ p - length rest =
            ap (λ n. suc n * p - length rest) last ∙ omega arith in
          rw (short_chunk v rest short, none_after, same) (append-nil _)
      | inr f ↦
          let long : p ≤ length rest = ground arith in
          let after =
            chunks_lem v turns (drop p rest) pos_p (omega (arith, unroll, length-drop p rest))
              (omega (arith, unroll, length-drop p rest)) in
          let same : turns * p - length (drop p rest) ≡ suc turns * p - length rest =
            omega (arith, unroll, length-drop p rest) in
          rw (full_chunk v rest long, after, same)
            (sym (append_assoc (take p rest) (drop p rest) _)
              ∙ ap (λ xs. xs ++ padding_of v (suc turns * p - length rest))
                  (take-append-drop p rest))
    ]

length-packets_from :
    (v : VideoPay) (inbuf : List ℕ) (tot turns nr : ℕ)
    → length (packets_from v inbuf tot turns nr) ≡ turns
unfolding packets_from
length-packets_from v inbuf tot zero nr = refl
length-packets_from v inbuf tot (suc turns) nr =
    ap suc (length-packets_from v inbuf tot turns (nr + 1))

-- A buffer of less than 2 ^ 24 bytes is cut into as many packets as it takes: their payloads, one
-- after another, are its bytes, followed where padding is on by fewer zeros than a packet holds,
-- as many as fill the last packet.
pub generate_rtp_packets-payloads :
    (lib : StdLib) (v : VideoPay) (inbuf : List ℕ)
    → CeilDivExact lib
    → 0 < v.payload_size - 16
    → length inbuf < 2 ^ 24
    → let packets = generate_rtp_packets lib v inbuf in
      (k : ℕ) × (k < v.payload_size - 16)
      × (length packets * (v.payload_size - 16) ≡ length inbuf + k)
      × (payloads packets ≡ inbuf ++ (if v.add_padding then replicate k 0 else []))
unfolding generate_rtp_packets
generate_rtp_packets-payloads lib v inbuf exact pos_p small =
    let p = v.payload_size - 16 in
    let n = length inbuf in
    let tot = lib.ceil_div n p in
    let tot_is : tot ≡ (n + p - 1) / p = exact n p pos_p small in
    let whole : (n + p - 1) % p + tot * p ≡ n + p - 1 =
      ap (λ t. (n + p - 1) % p + t * p) tot_is ∙ mod-add-div' (n + p - 1) p in
    let part : (n + p - 1) % p < p = mod-lt (n + p - 1) pos_p in
    let begin : drop (0 * p) inbuf ≡ inbuf = drop_at (0 * p) 0 inbuf (omega arith) in
    let all =
      chunks_lem v tot inbuf pos_p (omega (arith, whole, part)) (omega (arith, whole, part)) in
    (
      tot * p - n,
      omega (arith, whole, part),
      rw (length-packets_from v inbuf tot tot 0) (omega (arith, whole, part)),
      packets_from-chunks v inbuf tot tot 0 ∙ ap (chunks v tot) begin ∙ all,
    )
