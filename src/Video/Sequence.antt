-- ===== src/Video/Sequence.antt =====
-- The sequence numbers of the packets of one block (video.hpp, `create_rtp_header` and
-- `generate_fec_packets`).
use steamos_containerized.Common.{
  ltb, Bool-cases, length, length-append, take, drop, ℕ, zero, suc, ◌+◌, ◌%◌, ◌^◌, ◌≡◌, refl, sym,
  ap, subst, ◌∙◌, inl, inr, true, false, List, [], ◌∷◌, ◌++◌, arith,
}
use steamos_containerized.Video.{VideoPay, VideoPacket}
use steamos_containerized.Video.Packets.{create_rtp_header, packets_from}
use steamos_containerized.Video.Fec.{
  Blocks, determine_split, Encoder, update_data, parity_packets, generate_fec_packets,
}

-- The packets are numbered from `s` on, in 16 bits.
abbrev pub Consecutive : ℕ → List VideoPacket → Type 0
Consecutive s [] = Unit
Consecutive s (p ∷ ps) = (p.sequence_number ≡ s % 2 ^ 16) × Consecutive (s + 1) ps

pub Consecutive-mod :
    (s t : ℕ) (ps : List VideoPacket)
    → s % 2 ^ 16 ≡ t % 2 ^ 16
    → Consecutive s ps
    → Consecutive t ps
Consecutive-mod s t [] e c = tt
Consecutive-mod s t (p ∷ ps) e c = (c.0 ∙ e, Consecutive-mod (s + 1) (t + 1) ps (omega arith) c.1)

pub Consecutive-append :
    (s : ℕ) (ps qs : List VideoPacket)
    → Consecutive s ps
    → Consecutive (s + length ps) qs
    → Consecutive s (ps ++ qs)
Consecutive-append s [] qs c d = Consecutive-mod _ _ qs (omega arith) d
Consecutive-append s (p ∷ ps) qs c d =
    (c.0, Consecutive-append (s + 1) ps qs c.1 (Consecutive-mod _ _ qs (omega arith) d))

pub Consecutive-drop :
    (s n : ℕ) (ps : List VideoPacket) → Consecutive s ps → Consecutive (s + n) (drop n ps)
Consecutive-drop s zero ps c = Consecutive-mod _ _ ps (omega arith) c
Consecutive-drop s (suc n) [] c = tt
Consecutive-drop s (suc n) (p ∷ ps) c =
    Consecutive-mod _ _ (drop n ps) (omega arith) (Consecutive-drop (s + 1) n ps c.1)

pub Consecutive-take :
    (s n : ℕ) (ps : List VideoPacket) → Consecutive s ps → Consecutive s (take n ps)
Consecutive-take s zero ps c = tt
Consecutive-take s (suc n) [] c = tt
Consecutive-take s (suc n) (p ∷ ps) c = (c.0, Consecutive-take (s + 1) n ps c.1)

pub packets_from-Consecutive :
    (v : VideoPay) (inbuf : List ℕ) (tot turns nr : ℕ)
    → Consecutive (v.cur_seq_number + nr) (packets_from v inbuf tot turns nr)
unfolding packets_from create_rtp_header
packets_from-Consecutive v inbuf tot zero nr = tt
packets_from-Consecutive v inbuf tot (suc turns) nr = (
  omega arith,
  Consecutive-mod _ _ (packets_from v inbuf tot turns (nr + 1)) (omega arith)
      (packets_from-Consecutive v inbuf tot turns (nr + 1)),
)

module _ (encode : Encoder) where
  update_data-Consecutive :
      (v : VideoPay) (b : Blocks) (block last : ℕ) (ps : List VideoPacket) (idx : ℕ)
      → Consecutive (v.cur_seq_number + idx) (update_data encode v b block last ps idx)
  unfolding update_data
  update_data-Consecutive v b block last [] idx = tt
  update_data-Consecutive v b block last (p ∷ ps) idx = (
    omega arith,
    Consecutive-mod _ _ (update_data encode v b block last ps (idx + 1)) (omega arith)
        (update_data-Consecutive v b block last ps (idx + 1)),
  )

  length-update_data :
      (v : VideoPay) (b : Blocks) (block last : ℕ) (ps : List VideoPacket) (idx : ℕ)
      → length (update_data encode v b block last ps idx) ≡ length ps
  unfolding update_data
  length-update_data v b block last [] idx = refl
  length-update_data v b block last (p ∷ ps) idx =
      ap suc (length-update_data v b block last ps (idx + 1))

  parity_packets-Consecutive :
      (v : VideoPay) (b : Blocks) (block last : ℕ) (parity : List ℕ) (k idx : ℕ)
      → Consecutive (v.cur_seq_number + idx) (parity_packets encode v b block last parity k idx)
  unfolding parity_packets
  parity_packets-Consecutive v b block last parity zero idx = tt
  parity_packets-Consecutive v b block last parity (suc k) idx = (
    omega arith,
    Consecutive-mod _ _
        (parity_packets encode v b block last (drop b.block_size parity) k (idx + 1)) (omega arith)
        (parity_packets-Consecutive v b block last (drop b.block_size parity) k (idx + 1)),
  )

  -- The number of shards of a block, which decides whether it gets FEC.
  abbrev pub shards : VideoPay → ℕ → ℕ
  shards v d = d + (determine_split v d).parity_shards

  pub fec-Consecutive :
      (v : VideoPay) (ps : List VideoPacket) (block last : ℕ)
      → ltb 255 (shards v (length ps)) ≡ false
      → Consecutive v.cur_seq_number (generate_fec_packets encode v ps block last)
  unfolding generate_fec_packets
  fec-Consecutive v ps block last e = rw e (
      Consecutive-append v.cur_seq_number _ _
        (Consecutive-mod _ _ _ (omega arith)
          (update_data-Consecutive v (determine_split v (length ps)) block last ps 0))
        (rw (length-update_data v (determine_split v (length ps)) block last ps 0)
          (parity_packets-Consecutive v (determine_split v (length ps)) block last _ _ _)))

  pub skipped :
      (v : VideoPay) (ps : List VideoPacket) (block last : ℕ)
      → ltb 255 (shards v (length ps)) ≡ true
      → generate_fec_packets encode v ps block last ≡ ps
  unfolding generate_fec_packets
  skipped v ps block last e = rw e

  pub generate_fec_packets-Consecutive :
      (v : VideoPay) (ps : List VideoPacket) (block last : ℕ)
      → Consecutive v.cur_seq_number ps
      → Consecutive v.cur_seq_number (generate_fec_packets encode v ps block last)
  generate_fec_packets-Consecutive v ps block last c =
      elim (Bool-cases (ltb 255 (shards v (length ps)))) [
        | inl t ↦ subst (Consecutive v.cur_seq_number) (sym (skipped v ps block last t)) c
        | inr f ↦ fec-Consecutive v ps block last f
      ]

  length-parity_packets :
      (v : VideoPay) (b : Blocks) (block last : ℕ) (parity : List ℕ) (k idx : ℕ)
      → length (parity_packets encode v b block last parity k idx) ≡ k
  unfolding parity_packets
  length-parity_packets v b block last parity zero idx = refl
  length-parity_packets v b block last parity (suc k) idx =
      ap suc (length-parity_packets v b block last (drop b.block_size parity) k (idx + 1))

  length_of_block :
      (v : VideoPay) (b : Blocks) (block last : ℕ) (ps : List VideoPacket) (parity : List ℕ)
      → length (
          update_data encode v b block last ps 0
          ++ parity_packets encode v b block last parity b.parity_shards b.data_shards)
        ≡ length ps + b.parity_shards
  length_of_block v b block last ps parity =
      let coded = parity_packets encode v b block last parity b.parity_shards b.data_shards in
      omega (
        arith,
        length-append (update_data encode v b block last ps 0) coded,
        length-update_data v b block last ps 0,
        length-parity_packets v b block last parity b.parity_shards b.data_shards,
      )

  pub length-generate_fec_packets :
      (v : VideoPay) (ps : List VideoPacket) (block last : ℕ)
      → ltb 255 (shards v (length ps)) ≡ false
      → length (generate_fec_packets encode v ps block last) ≡ shards v (length ps)
  unfolding generate_fec_packets
  length-generate_fec_packets v ps block last e =
      rw e (length_of_block v (determine_split v (length ps)) block last ps _)
