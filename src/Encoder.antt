-- ===== src/Encoder.antt =====
-- encoder_config.cpp (server/src/server): the data of a configuration, the choice of an encoder, and
-- the checks. `makes` tells which elements `gst_element_factory_make` can make. The compiled-in
-- configuration is in Encoder.Defaults, and the file in Encoder.File.
pub mod Choice
pub mod Checks
pub mod Defaults
pub mod Toml
pub mod File
pub mod Tables
pub mod Roundtrip
pub mod Saved
pub mod Seed
use steamos_containerized.Common.{
  ◌==◌, if◌then◌else◌, is_some, find_if, Text, text, is_empty, ℕ, ◌+◌, Bool, true, false, Option,
  none, some, List, [], ◌∷◌, ◌++◌,
}
use steamos_containerized.Common.Int.{ℤ, pos, negsuc}
use steamos_containerized.Session.{VideoFormat, h264, hevc, av1}
use steamos_containerized.Rtsp.Socket.{find_text}

pub record GstEncoder : Type 0 where
  pub plugin_name : Text
  pub check_elements : List Text
  pub encoder_pipeline : Text
  pub video_params : Text
  pub video_params_zero_copy : Option Text

pub record GstVideoCfg : Type 0 where
  pub default_source : Text
  pub default_source_zero_copy : Option Text
  pub default_sink : Text
  pub h264_encoders : List GstEncoder
  pub hevc_encoders : List GstEncoder
  pub av1_encoders : List GstEncoder

pub record GstAudioCfg : Type 0 where
  pub sink_name : Text
  pub audio_source : Text
  pub default_opus_encoder : Text
  pub bitrate_stereo : ℤ
  pub bitrate_51 : ℤ
  pub bitrate_71 : ℤ

pub record EncoderConfig : Type 0 where
  pub video_cfg : GstVideoCfg
  pub audio_cfg : GstAudioCfg

pub record Availability : Type 0 where
  pub has_h264 : Bool
  pub has_hevc : Bool
  pub has_av1 : Bool

unfoldable pub bitrate_for_channels : ℤ → GstAudioCfg → ℤ
bitrate_for_channels (pos n) a =
    if n == 6 then a.bitrate_51 else if n == 8 then a.bitrate_71 else a.bitrate_stereo
bitrate_for_channels (negsuc n) a = a.bitrate_stereo

abbrev pub all_made : (Text → Bool) → List Text → Bool
all_made makes [] = true
all_made makes (el ∷ els) = let rest = all_made makes els in if makes el then rest else false

abbrev pub is_available : (Text → Bool) → GstEncoder → Bool
is_available makes e = all_made makes e.check_elements

unfoldable pub first_available : (Text → Bool) → List GstEncoder → Option GstEncoder
first_available makes encs = find_if (is_available makes) encs

unfoldable pub available_encoders : (Text → Bool) → EncoderConfig → Availability
unfolding first_available
available_encoders makes cfg = record {
  has_h264 = is_some (first_available makes cfg.video_cfg.h264_encoders);
  has_hevc = is_some (first_available makes cfg.video_cfg.hevc_encoders);
  has_av1 = is_some (first_available makes cfg.video_cfg.av1_encoders);
}

-- The list of the codec.
abbrev pub encoders_of : VideoFormat → EncoderConfig → List GstEncoder
encoders_of h264 cfg = cfg.video_cfg.h264_encoders
encoders_of hevc cfg = cfg.video_cfg.hevc_encoders
encoders_of av1 cfg = cfg.video_cfg.av1_encoders

abbrev pub is_h264 : VideoFormat → Bool
is_h264 h264 = true
is_h264 _ = false

abbrev pub or_fallback :
    (Text → Bool) → EncoderConfig → VideoFormat → Option GstEncoder → Option GstEncoder
or_fallback makes cfg fmt (some e) = some e
or_fallback makes cfg fmt none =
    if is_h264 fmt then none else first_available makes cfg.video_cfg.h264_encoders

unfoldable pub select_encoder : (Text → Bool) → EncoderConfig → VideoFormat → Option GstEncoder
unfolding first_available
select_encoder makes cfg fmt =
    or_fallback makes cfg fmt (first_available makes (encoders_of fmt cfg))

-- What `validate` reports: a field, or a field of an encoder of a list.
pub data Issue : Type 0 where
  field_is_empty : Text → Issue
  encoder_field_is_empty : Text → ℕ → Text → Issue
  lacks_video_encoder : Text → ℕ → Issue

abbrev pub when_empty : Text → Issue → List Issue
when_empty t i = if is_empty t then i ∷ [] else []

abbrev pub no_encoders : List GstEncoder → List Issue
no_encoders [] = field_is_empty (text "video.h264_encoders") ∷ []
no_encoders (e ∷ es) = []

abbrev pub check_name : Text → ℕ → Text → List Issue
check_name name i pipeline =
    if is_some (find_text (text "name=video_encoder") pipeline)
    then []
    else lacks_video_encoder name i ∷ []

abbrev pub check_fields : Text → ℕ → GstEncoder → List Issue
check_fields name i e =
    when_empty e.plugin_name (encoder_field_is_empty name i (text "plugin_name"))
    ++ when_empty e.encoder_pipeline (encoder_field_is_empty name i (text "encoder_pipeline"))

unfoldable pub check_list : Text → ℕ → List GstEncoder → List Issue
unfolding find_text
check_list name i [] = []
check_list name i (e ∷ es) =
    check_fields name i e ++ (check_name name i e.encoder_pipeline ++ check_list name (i + 1) es)

abbrev pub video_issues : GstVideoCfg → List Issue
video_issues v =
    when_empty v.default_source (field_is_empty (text "video.default_source"))
    ++ (when_empty v.default_sink (field_is_empty (text "video.default_sink"))
        ++ no_encoders v.h264_encoders)

abbrev pub list_issues : GstVideoCfg → List Issue
list_issues v =
    check_list (text "h264_encoders") 0 v.h264_encoders
    ++ (check_list (text "hevc_encoders") 0 v.hevc_encoders
        ++ check_list (text "av1_encoders") 0 v.av1_encoders)

abbrev pub audio_issues : GstAudioCfg → List Issue
audio_issues a =
    when_empty a.sink_name (field_is_empty (text "audio.sink_name"))
    ++ (when_empty a.audio_source (field_is_empty (text "audio.default_source"))
        ++ when_empty a.default_opus_encoder (field_is_empty (text "audio.default_opus_encoder")))

unfoldable pub validate : EncoderConfig → List Issue
unfolding check_list
validate cfg =
    video_issues cfg.video_cfg ++ (list_issues cfg.video_cfg ++ audio_issues cfg.audio_cfg)
