-- ===== src/Media/Heads.antt =====
-- media.cpp (server/src/server): what the template of the video pipeline is made of, and the size of
-- the encoder's buffer.
use steamos_containerized.Common.{is_some, Text, text, ◌≡◌, true, Option, some, ◌++◌, Bool}
use steamos_containerized.Common.Int.{ℤ}
use steamos_containerized.StdLib.{StdLib}
use steamos_containerized.Session.{StreamSession}
use steamos_containerized.Rtsp.Socket.{find_text}
use steamos_containerized.Encoder.{GstEncoder, EncoderConfig}
use steamos_containerized.Encoder.Choice.{IsUsable}
use steamos_containerized.Media.Pipelines.{Env, Args, video_args}

-- A capture head with parameters that fit it: both go through the memory of the system, or neither.
pub data Fit (cfg : EncoderConfig) (e : GstEncoder) : Text → Text → Type 0 where
  system_memory : Fit cfg e cfg.video_cfg.default_source e.video_params
  gpu_memory :
      (source params : Text)
      → cfg.video_cfg.default_source_zero_copy ≡ some source
      → e.video_params_zero_copy ≡ some params
      → Fit cfg e source params

abbrev pub encoder_name : Text
encoder_name = text "name=video_encoder"

module _ (lib : StdLib) (format : Text → Args → Option Text) (atol : Text → ℤ) (env : Env) where
  -- What a text that was built comes from.
  pub record Linked (makes : Text → Bool) (cfg : EncoderConfig) (s : StreamSession) (node t : Text)
      : Type 0 where
    pub encoder : GstEncoder
    pub is_usable : IsUsable makes encoder
    pub source : Text
    pub params : Text
    pub fits : Fit cfg encoder source params
    pub template : Text
    pub links :
        template
        ≡ source
          ++ (text " ! "
              ++ (params
                  ++ (text " ! "
                      ++ (encoder.encoder_pipeline ++ (text " ! " ++ cfg.video_cfg.default_sink)))))
    pub formatted : format template (video_args lib format atol env s node) ≡ some t
    pub names_encoder : is_some (find_text encoder_name template) ≡ true
