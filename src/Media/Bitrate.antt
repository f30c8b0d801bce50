-- ===== src/Media/Bitrate.antt =====
-- media.cpp (server/src/server): the bitrate of a running encoder, and the size of its buffer.
use steamos_containerized.Common.{
  if◌then◌else◌, Bool-cases, Text, ℕ, suc, ◌^◌, ◌<◌, ◌≡◌, inl, inr, true, arith, Option-cases,
  and_then, refl, ap, ◌∙◌, false, Option, none, some,
}
use steamos_containerized.Common.Int.{ℤ, pos, ◌*ℤ◌, ltb_ℤ, ◌/ℤ◌, leb_ℤ}
use steamos_containerized.Media.Processes.{eq_ℤ}
use steamos_containerized.Media.Pipelines.{Env, vbv_ms, encoder_vbv_kbit}
use steamos_containerized.Media.Live.{
  VideoEncoder, set_bitrate, VideoPipeline, MediaSession, in_pipeline, update_bitrate,
}

-- The buffer holds something for every bitrate above 0, whatever the environment says.
pub encoder_vbv_kbit_positive :
    (atol : Text → ℤ) (env : Env) (b : ℕ)
    → ltb_ℤ (pos 0) (encoder_vbv_kbit atol env (pos (suc b))) ≡ true
unfolding encoder_vbv_kbit
encoder_vbv_kbit_positive atol env b = positive_or (◌/ℤ◌ (pos (suc b) *ℤ vbv_ms atol env) 1000)
  where
    positive_or : (v : ℤ) → ltb_ℤ (pos 0) (if ltb_ℤ (pos 0) v then v else pos (suc b)) ≡ true
    positive_or v = elim (Bool-cases (ltb_ℤ (pos 0) v)) [
      | inl t ↦ rw t t
      | inr f ↦ rw f (ground arith)
    ]

eq_pos : (a b : ℕ) → eq_ℤ (pos a) (pos b) ≡ true → a ≡ b
eq_pos a b h = ground arith

eq_pos_refl : (a : ℕ) → eq_ℤ (pos a) (pos a) ≡ true
eq_pos_refl a = ground arith

set_bitrate_prop :
    (b : ℕ) (vbv : ℤ) (e : VideoEncoder) → b < 2 ^ 32 → (set_bitrate (pos b) vbv e).bitrate_prop ≡ b
set_bitrate_prop b vbv e lt = elim (Bool-cases (eq_ℤ (pos e.bitrate_prop) (pos b))) [
  | inl t ↦ rw t (eq_pos e.bitrate_prop b t)
  | inr f ↦ rw f (omega arith)
]

set_bitrate_same :
    (b : ℕ) (vbv : ℤ) (e : VideoEncoder) → e.bitrate_prop ≡ b → set_bitrate (pos b) vbv e ≡ e
set_bitrate_same b vbv e h = rw (ap (λ k. eq_ℤ (pos k) (pos b)) h ∙ eq_pos_refl b) refl

-- The encoder of a session, if it has one.
abbrev pub encoder_of : MediaSession → Option VideoEncoder
encoder_of m = and_then m.video_pipeline (λ p. p.video_encoder)

again_in_pipeline :
    (b : ℕ) (vbv : ℤ) (o : Option VideoPipeline)
    → b < 2 ^ 32
    → let change = in_pipeline (set_bitrate (pos b) vbv) in
      and_then (and_then o (λ p. some (change p))) (λ p. some (change p))
      ≡ and_then o (λ p. some (change p))
again_in_pipeline b vbv none lt = refl
again_in_pipeline b vbv (some p) lt = elim (Option-cases p.video_encoder) [
  | inl n ↦ rw n refl
  | inr (e, s) ↦ rw s (
      ap (λ k. some (record { video_encoder = some k }))
        (set_bitrate_same b vbv (set_bitrate (pos b) vbv e) (set_bitrate_prop b vbv e lt)))
]

-- A new bitrate that fits into 32 bits is what the encoder has afterwards, if the session has an
-- encoder, and asking for it again changes nothing.
pub update_bitrate_again :
    (atol : Text → ℤ) (env : Env) (b : ℕ) (m : MediaSession)
    → suc b < 2 ^ 32
    → (update_bitrate atol env (pos (suc b)) (update_bitrate atol env (pos (suc b)) m)
        ≡ update_bitrate atol env (pos (suc b)) m)
      × (and_then (encoder_of (update_bitrate atol env (pos (suc b)) m)) (λ e. some e.bitrate_prop)
          ≡ and_then (encoder_of m) (λ e. some (suc b)))
unfolding update_bitrate
update_bitrate_again atol env b m lt =
    let vbv = encoder_vbv_kbit atol env (pos (suc b)) in
    let positive = ltb_suc b in
    rw positive (
      (λ i. record m { video_pipeline = again_in_pipeline (suc b) vbv m.video_pipeline lt i }),
      taken m.video_pipeline,
    )
  where
    ltb_suc : (b : ℕ) → leb_ℤ (pos (suc b)) (pos 0) ≡ false
    ltb_suc b = ground arith

    taken :
        (o : Option VideoPipeline)
        → and_then
            (and_then
              (and_then o (λ p. some (
                in_pipeline
                  (set_bitrate (pos (suc b)) (encoder_vbv_kbit atol env (pos (suc b))))
                  p)))
              (λ p. p.video_encoder))
            (λ e. some e.bitrate_prop)
          ≡ and_then (and_then o (λ p. p.video_encoder)) (λ e. some (suc b))
    taken none = refl
    taken (some p) = elim (Option-cases p.video_encoder) [
      | inl n ↦ rw n refl
      | inr (e, s) ↦
          rw s (ap some (set_bitrate_prop (suc b) (encoder_vbv_kbit atol env (pos (suc b))) e lt))
    ]
