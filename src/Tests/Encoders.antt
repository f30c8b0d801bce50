-- ===== src/Tests/Encoders.antt =====
-- Choices of an encoder.
use steamos_containerized.Common.{Text, text, ◌=?◌, ◌≡◌, refl, Bool, none, some, [], ◌∷◌}
use steamos_containerized.Common.Int.{pos}
use steamos_containerized.Session.{hevc}
use steamos_containerized.Rtsp.Socket.{starts_with, find_text}
use steamos_containerized.Encoder.{
  GstEncoder, EncoderConfig, first_available, select_encoder, check_list, validate,
}

abbrev encoder : Text → GstEncoder
encoder el = record {
  plugin_name = el;
  check_elements = el ∷ [];
  encoder_pipeline = text "name=video_encoder";
  video_params = [];
  video_params_zero_copy = none;
}

-- A box that can make element 1 alone; the encoder of HEVC needs element 2.
abbrev makes_one : Text → Bool
makes_one t = t =? 1 ∷ []

abbrev two_codecs : EncoderConfig
two_codecs = record {
  video_cfg = record {
    default_source = 3 ∷ [];
    default_source_zero_copy = none;
    default_sink = 3 ∷ [];
    h264_encoders = encoder (2 ∷ []) ∷ encoder (1 ∷ []) ∷ [];
    hevc_encoders = encoder (2 ∷ []) ∷ [];
    av1_encoders = [];
  };
  audio_cfg = record {
    sink_name = 3 ∷ [];
    audio_source = 3 ∷ [];
    default_opus_encoder = 3 ∷ [];
    bitrate_stereo = pos 96000;
    bitrate_51 = pos 256000;
    bitrate_71 = pos 450000;
  };
}

two_codecs_clean : validate two_codecs ≡ []
unfolding validate check_list find_text starts_with text
two_codecs_clean = refl

falls_back : select_encoder makes_one two_codecs hevc ≡ some (encoder (1 ∷ []))
unfolding select_encoder first_available ◌=?◌
falls_back = refl
