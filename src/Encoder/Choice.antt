-- ===== src/Encoder/Choice.antt =====
-- encoder_config.cpp (server/src/server): which encoder is chosen.
use steamos_containerized.Common.{
  if◌then◌else◌, Bool-cases, is_some, find_if, All, FirstMatch, find_if-FirstMatch, Text, ◌≡◌, refl,
  ◌↔◌, inl, inr, Bool, true, List, [], ◌∷◌, ◌++◌, arith,
}
use steamos_containerized.Session.{VideoFormat, h264, hevc, av1}
use steamos_containerized.Encoder.{
  GstEncoder, EncoderConfig, all_made, is_available, first_available, encoders_of, select_encoder,
}

-- Every element that the encoder needs can be made.
abbrev pub IsUsable : (Text → Bool) → GstEncoder → Type 0
IsUsable makes e = All (λ el. makes el ≡ true) e.check_elements

pub all_made_iff :
    (makes : Text → Bool) (els : List Text)
    → (all_made makes els ≡ true) ↔ All (λ el. makes el ≡ true) els
all_made_iff makes [] = (λ e. tt, λ h. refl)
all_made_iff makes (el ∷ els) =
    let rest = all_made_iff makes els in
    elim (Bool-cases (makes el)) [
      | inl t ↦ (λ e. (t, rest.0 (ground arith)), λ h. ground (arith, rest.1 h.1))
      | inr f ↦ (λ e. absurd (ground arith), λ h. absurd (ground arith))
    ]

find_if-append :
    {A : Type 0} (p : A → Bool) (xs ys : List A)
    → find_if p (xs ++ ys) ≡ (if is_some (find_if p xs) then find_if p xs else find_if p ys)
find_if-append p [] ys = refl
find_if-append p (x ∷ xs) ys = ground (arith, find_if-append p xs ys)

pub chosen :
    (makes : Text → Bool) (cfg : EncoderConfig) (fmt : VideoFormat)
    → select_encoder makes cfg fmt
      ≡ find_if (is_available makes) (encoders_of fmt cfg ++ cfg.video_cfg.h264_encoders)
unfolding select_encoder first_available
chosen makes cfg h264 = ground (
  arith,
  find_if-append (is_available makes) cfg.video_cfg.h264_encoders cfg.video_cfg.h264_encoders,
)
chosen makes cfg hevc = ground (
  arith,
  find_if-append (is_available makes) cfg.video_cfg.hevc_encoders cfg.video_cfg.h264_encoders,
)
chosen makes cfg av1 = ground (
  arith,
  find_if-append (is_available makes) cfg.video_cfg.av1_encoders cfg.video_cfg.h264_encoders,
)

-- For any codec, the encoder chosen is the first one all of whose elements can be made, in the list
-- of the codec followed by that of H264, and none exactly if there is no such encoder.
pub select_encoder-FirstMatch :
    (makes : Text → Bool) (cfg : EncoderConfig) (fmt : VideoFormat)
    → FirstMatch
        (IsUsable makes)
        (encoders_of fmt cfg ++ cfg.video_cfg.h264_encoders)
        (select_encoder makes cfg fmt)
select_encoder-FirstMatch makes cfg fmt = rw (chosen makes cfg fmt) (
    find_if-FirstMatch (IsUsable makes) (is_available makes)
      (λ e. all_made_iff makes e.check_elements)
      (encoders_of fmt cfg ++ cfg.video_cfg.h264_encoders))
