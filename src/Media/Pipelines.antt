-- ===== src/Media/Pipelines.antt =====
-- media.cpp (server/src/server): the texts of the two GStreamer pipelines. `cfg` is what `load_or_seed`
-- returns, `makes` as in Encoder. `format` is `fmt::format` with a template that is known only when it
-- runs and with named arguments; it throws, and then is none, on a template that does not fit.
-- `env` is `getenv`, and `atol` that of the C library.
use steamos_containerized.Common.{
  ◌==◌, if◌then◌else◌, value_or, and_then, Text, text, ◌=?◌, Bool, true, false, not, ◌&&◌, Option,
  none, some, List, [], ◌∷◌, ◌++◌,
}
use steamos_containerized.Common.Int.{ℤ, pos, negsuc, ◌*ℤ◌, ltb_ℤ, ◌/ℤ◌}
use steamos_containerized.StdLib.{StdLib}
use steamos_containerized.Session.{ColorRange, mpeg, jpeg, AudioParams, StreamSession}
use steamos_containerized.Encoder.{
  GstEncoder, GstAudioCfg, EncoderConfig, bitrate_for_channels, select_encoder,
}

abbrev pub color_range_str : ColorRange → Text
color_range_str jpeg = text "jpeg"
color_range_str mpeg = text "mpeg2"

-- The values 1 and 2 are BT709 and BT2020.
abbrev pub color_space_str : ℤ → Text
color_space_str (pos n) =
    if n == 1 then text "bt709" else if n == 2 then text "bt2020" else text "bt601"
color_space_str (negsuc n) = text "bt601"

abbrev pub channel_mask : ℤ → Text
channel_mask (pos n) =
    if n == 2
    then text "0x3"
    else if n == 6
    then text "0x3f"
    else if n == 8
    then text "0xc3f"
    else text "0x3"
channel_mask (negsuc n) = text "0x3"

abbrev pub Env : Type 0
Env = Text → Option Text

abbrev pub Args : Type 0
Args = List (Text × Text)

unfoldable pub vbv_ms : (Text → ℤ) → Env → ℤ
vbv_ms atol env = elim (env (text "STEAM_STREAM_VBV_MS")) [
  | none ↦ pos 500
  | some e ↦ if ltb_ℤ (pos 0) (atol e) then atol e else pos 500
]

unfoldable pub encoder_vbv_kbit : (Text → ℤ) → Env → ℤ → ℤ
unfolding vbv_ms
encoder_vbv_kbit atol env bitrate =
    let vbv = ◌/ℤ◌ (bitrate *ℤ vbv_ms atol env) 1000 in if ltb_ℤ (pos 0) vbv then vbv else bitrate

abbrev pub is_on : Option Text → Bool
is_on none = false
is_on (some v) = not (v =? text "FALSE") && not (v =? text "false")

-- The capture head and the parameters of the encoder.
abbrev pub both_parts : Option Text → Option Text → Text × Text → Text × Text
both_parts (some source) (some params) plain = (source, params)
both_parts _ _ plain = plain

abbrev pub plain_path : EncoderConfig → GstEncoder → Text × Text
plain_path cfg e = (cfg.video_cfg.default_source, e.video_params)

unfoldable pub video_path : Env → EncoderConfig → GstEncoder → Text × Text
video_path env cfg e =
    if is_on (env (text "WOLF_USE_ZERO_COPY"))
    then both_parts cfg.video_cfg.default_source_zero_copy e.video_params_zero_copy
        (plain_path cfg e)
    else plain_path cfg e

abbrev pub link : Text
link = text " ! "

unfoldable pub video_template : Env → EncoderConfig → GstEncoder → Text
unfolding video_path
video_template env cfg e =
    let (source, params) = video_path env cfg e in
    source
    ++ (link ++ (params ++ (link ++ (e.encoder_pipeline ++ (link ++ cfg.video_cfg.default_sink)))))

-- What a builder gives: a text, the empty text for want of an encoder, or an exception.
pub data Built : Type 0 where
  built_text : Text → Built
  no_encoder : Built
  format_error : Built

abbrev pub built_of : Option Text → Built
built_of none = format_error
built_of (some t) = built_text t

module _ (lib : StdLib) (format : Text → Args → Option Text) (atol : Text → ℤ) (env : Env) where
  unfoldable pub video_args : StreamSession → Text → Args
  video_args s node =
      let v = s.video in
      (text "node", node)
      ∷ (text "width", lib.to_string v.width)
      ∷ (text "height", lib.to_string v.height)
      ∷ (text "fps", lib.to_string v.fps)
      ∷ (text "color_range", color_range_str v.color_range)
      ∷ (text "color_space", color_space_str v.color_space)
      ∷ (text "bitrate", lib.to_string v.bitrate_kbps)
      ∷ (text "vbv_buffer_size", lib.to_string (encoder_vbv_kbit atol env v.bitrate_kbps))
      ∷ (text "slices_per_frame", lib.to_string v.slices_per_frame)
      ∷ (text "payload_size", lib.to_string v.packet_size)
      ∷ (text "fec_percentage", lib.to_string (pos v.fec_percentage))
      ∷ (text "min_required_fec_packets", lib.to_string v.min_required_fec_packets)
      ∷ []

  abbrev pub video_with : EncoderConfig → StreamSession → Text → Option GstEncoder → Built
  video_with cfg s node none = no_encoder
  video_with cfg s node (some e) = built_of (format (video_template env cfg e) (video_args s node))

  unfoldable pub build_video_pipeline : (Text → Bool) → EncoderConfig → StreamSession → Text → Built
  build_video_pipeline makes cfg s node =
      video_with cfg s node (select_encoder makes cfg s.video.format)

  unfoldable pub audio_source_text : Bool → GstAudioCfg → Option Text
  audio_source_text use_test_src a =
      if use_test_src
      then some
          (text "audiotestsrc is-live=true wave=sine ! audiorate ! audioconvert ! audioresample")
      else format a.audio_source (
          (text "sink_name", a.sink_name)
          ∷ (text "server", value_or (env (text "PULSE_SERVER")) [])
          ∷ [])

  unfoldable pub opus_text : GstAudioCfg → AudioParams → Option Text
  opus_text a p = format a.default_opus_encoder (
      (text "bitrate", lib.to_string (bitrate_for_channels p.channels a))
      ∷ (text "packet_duration", lib.to_string p.packet_duration)
      ∷ [])

  abbrev pub bool_str : Bool → Text
  bool_str true = text "true"
  bool_str false = text "false"

  -- The caps say how many channels there are and where they are.
  unfoldable pub audio_text : StreamSession → Text → Text → Text
  audio_text s src enc =
      let p = s.audio in
      src
      ++ (text " ! audio/x-raw,channels="
          ++ (lib.to_string p.channels
              ++ (text ",channel-mask=(bitmask)"
                  ++ (channel_mask p.channels
                      ++ (text ",rate=48000 ! "
                          ++ (enc
                              ++ (text
                                    " ! rtpmoonlightpay_audio name=moonlight_pay packet_duration="
                                  ++ (lib.to_string p.packet_duration
                                      ++ (text " encrypt="
                                          ++ (bool_str p.encrypt
                                              ++ (text " aes_key=\""
                                                  ++ (s.aes_key
                                                      ++ (text "\" aes_iv=\""
                                                          ++ (s.aes_iv
                                                            ++ text
                                                            "\" ! appsink name=audio_sink sync=false"))))))))))))))

  unfoldable pub build_audio_pipeline : EncoderConfig → StreamSession → Bool → Built
  unfolding audio_source_text opus_text
  build_audio_pipeline cfg s use_test_src = built_of (
      and_then (audio_source_text use_test_src cfg.audio_cfg)
        (λ src. and_then (opus_text cfg.audio_cfg s.audio) (λ enc. some (audio_text s src enc))))
