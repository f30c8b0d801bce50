-- ===== src/Audio/Shards.antt =====
-- Shard buffers that begin with packets, and packets that are numbered one after another.
use steamos_containerized.Common.{
  length, take, set, ℕ, zero, suc, ◌+◌, ◌<◌, ◌≡◌, refl, ap, List, [], ◌∷◌, ◌++◌, arith,
}
use steamos_containerized.Audio.{AudioPacket, packet_bytes, overlay}

-- The buffers begin with the bytes of these packets, one packet in each.
abbrev pub Starts : List (List ℕ) → List AudioPacket → Type 0
Starts buffers [] = Unit
Starts [] (p ∷ ps) = ⊥
Starts (b ∷ bs) (p ∷ ps) = (take (length (packet_bytes p)) b ≡ packet_bytes p) × Starts bs ps

pub take-length : (xs ys : List ℕ) → take (length xs) (xs ++ ys) ≡ xs
take-length [] ys = refl
take-length (x ∷ xs) ys = ap (◌∷◌ x) (take-length xs ys)

pub Starts-set :
    (bs : List (List ℕ)) (ps : List AudioPacket) (p : AudioPacket) (old : List ℕ)
    → length ps < length bs
    → Starts bs ps
    → Starts (set bs (length ps) (overlay (packet_bytes p) old)) (ps ++ p ∷ [])
Starts-set [] ps p old h s = absurd (omega arith)
Starts-set (b ∷ bs) [] p old h s = (take-length (packet_bytes p) _, tt)
Starts-set (b ∷ bs) (q ∷ ps) p old h s = (s.0, Starts-set bs ps p old (omega arith) s.1)

pub length-set : (bs : List (List ℕ)) (i : ℕ) (b : List ℕ) → length (set bs i b) ≡ length bs
length-set [] i b = refl
length-set (x ∷ bs) zero b = refl
length-set (x ∷ bs) (suc i) b = ap suc (length-set bs i b)

-- The packets carry the numbers from `s` on.
abbrev pub Numbered : ℕ → List AudioPacket → Type 0
Numbered s [] = Unit
Numbered s (p ∷ ps) = (p.rtp.sequence_number ≡ s) × Numbered (s + 1) ps

pub Numbered-append :
    (s n : ℕ) (ps : List AudioPacket) (p : AudioPacket)
    → p.rtp.sequence_number ≡ n
    → n ≡ s + length ps
    → Numbered s ps
    → Numbered s (ps ++ p ∷ [])
Numbered-append s n [] p e at m = (omega (arith, e, at), tt)
Numbered-append s n (q ∷ ps) p e at m =
    (m.0, Numbered-append (s + 1) n ps p e (omega (arith, at)) m.1)
