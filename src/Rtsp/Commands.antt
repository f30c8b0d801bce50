-- ===== src/Rtsp/Commands.antt =====
-- rtsp_commands.hpp: the answers to OPTIONS, DESCRIBE, SETUP, ANNOUNCE and PLAY.
use steamos_containerized.Common.{
  leb, ◌==◌, if◌then◌else◌, value_or, Text, text, ◌=?◌, ℕ, ◌-◌, ◌/◌, ◌%◌, Bool, true, false, Option,
  none, some, List, [], ◌∷◌, ◌++◌, map,
}
use steamos_containerized.Common.Int.{ℤ, pos, negsuc, ◌-ℤ◌, ◌*ℤ◌, ltb_ℤ, ◌/ℤ◌}
use steamos_containerized.Common.Assoc.{lookup, insert}
use steamos_containerized.StdLib.{StdLib}
use steamos_containerized.Session.{
  VideoFormat, h264, hevc, av1, mpeg, jpeg, VideoParams, AudioParams, StreamSession,
}
use steamos_containerized.Rtsp.Packet.{response, RtspPacket, empty_request}
use steamos_containerized.Rtsp.Audio.{Config, configurations, speaker_string, eq_ℤ, for_channels}

abbrev pub error_msg : ℕ → Text → ℤ → RtspPacket
error_msg status_code msg seq = record {
  packet_type = response;
  seq_number = seq;
  request_part = empty_request;
  response_part = record { status_code = status_code; msg = msg };
  options = [];
  payloads = [];
}

abbrev pub ok_msg : ℤ → List (Text × Text) → List (Text × Text) → RtspPacket
ok_msg seq options payloads = record {
  packet_type = response;
  seq_number = seq;
  request_part = empty_request;
  response_part = record { status_code = 200; msg = text "OK" };
  options = options;
  payloads = payloads;
}

-- `n & w` is nonzero, for a power of two `w`, on a two's complement number.
abbrev pub has_bit : ℕ → ℤ → Bool
has_bit w (pos n) = n / w % 2 == 1
has_bit w (negsuc n) = n / w % 2 == 0

-- `n >> 1`
abbrev pub half : ℤ → ℤ
half (pos n) = pos (n / 2)
half (negsuc n) = negsuc (n / 2)

-- `find(':')`, and the two `substr` around it.
unfoldable pub split_colon : Text → Option (Text × Text)
split_colon [] = none
split_colon (c ∷ cs) =
    if c == b':'
    then some ([], cs)
    else elim (split_colon cs) [ none ↦ none | some (k, v) ↦ some (c ∷ k, v) ]

abbrev pub Args : Type 0
Args = List (Text × Option ℤ)

abbrev pub min_ℤ : ℤ → ℤ → ℤ
min_ℤ a b = if ltb_ℤ b a then b else a

module _ (lib : StdLib) where
  surround_line : Config → Text
  unfolding speaker_string
  surround_line c =
      text "fmtp:97 surround-params="
      ++ (lib.to_string (pos c.channels)
          ++ (lib.to_string (pos c.streams)
              ++ (lib.to_string (pos c.coupled_streams) ++ speaker_string c)))

  -- The feature flags are FS_PEN_TOUCH_EVENTS | FS_CONTROLLER_TOUCH_EVENTS.
  unfoldable pub describe : RtspPacket → StreamSession → RtspPacket
  unfolding surround_line
  describe req s =
      let hevc = if s.hevc_supported then ([], text "sprop-parameter-sets=AAAAAU") ∷ [] else [] in
      let av1_line =
        if s.av1_supported then (text "a", text "a=rtpmap:98 AV1/90000") ∷ [] else [] in
      let surround = map (λ c. (text "a", surround_line c)) configurations in
      let flags = (text "a", text "x-ss-general.featureFlags: " ++ lib.to_string (pos 3)) ∷ [] in
      ok_msg req.seq_number [] (hevc ++ (av1_line ++ (surround ++ flags)))

  abbrev transport : ℕ → Text × Text
  transport port = (text "Transport", text "server_port=" ++ lib.to_string (pos port))

  abbrev session_option : Text × Text
  session_option = (text "Session", text "DEADBEEFCAFE;timeout = 90")

  unfoldable pub setup : RtspPacket → StreamSession → RtspPacket
  setup req s =
      let kind = req.request_part.stream.kind in
      let ping : Text × Text = (text "X-SS-Ping-Payload", s.rtp_secret_payload) in
      let connect : Text × Text =
        (text "X-SS-Connect-Data", lib.to_string (pos s.enet_secret_payload)) in
      let ok = λ (os : List (Text × Text)). ok_msg req.seq_number (session_option ∷ os) [] in
      if kind =? text "audio"
      then ok (transport s.audio_stream_port ∷ ping ∷ [])
      else if kind =? text "video"
      then ok (transport s.video_stream_port ∷ ping ∷ [])
      else if kind =? text "control"
      then ok (transport s.control_stream_port ∷ connect ∷ [])
      else error_msg 404 (text "NOT FOUND") req.seq_number

  unfoldable pub parse_arg_line : Text × Text → Text × Option ℤ
  unfolding split_colon
  parse_arg_line line = elim (split_colon line.1) [
    | none ↦ (line.1, none)
    | some (key, value) ↦ (key, lib.stoi value)
  ]

  -- The loop over the payloads: `args[k] = v` for each line "a=…".
  unfoldable pub collect_args : Args → List (Text × Text) → Args
  collect_args args [] = args
  collect_args args (line ∷ lines) =
      let (k, v) = parse_arg_line line in
      collect_args (if line.0 =? text "a" then insert k v args else args) lines

  abbrev pub flatten_arg : Option (Option ℤ) → Option ℤ
  flatten_arg none = none
  flatten_arg (some v) = v

  unfoldable pub arg : Args → Text → ℤ → ℤ
  arg args k def = value_or (flatten_arg (lookup k args)) def

  -- The bitrate that the encoder gets out of the configured one: without the share of the FEC, of
  -- the audio (at most a fifth) and of the overhead (at most a tenth).
  unfoldable pub adjust_bitrate : ℤ → ℕ → ℤ → ℤ
  adjust_bitrate configured fec_percentage audio_channels =
      let b0 =
        if leb fec_percentage 80
        then lib.div_ratio configured (100 - fec_percentage)
        else configured in
      let b1 = b0 -ℤ min_ℤ (pos 96 *ℤ audio_channels) (b0 /ℤ 5) in b1 -ℤ min_ℤ (pos 500) (b1 /ℤ 10)

  abbrev pub bitrate_of : Args → ℕ → ℤ → ℤ
  bitrate_of args fec_percentage audio_channels =
      elim (flatten_arg (lookup (text "x-ml-video.configuredBitrateKbps") args)) [
        | none ↦ arg args (text "x-nv-vqos[0].bw.maximumBitrateKbps") (pos 15500)
        | some configured ↦ adjust_bitrate configured fec_percentage audio_channels
      ]

  abbrev pub format_of : ℤ → VideoFormat
  format_of n = if eq_ℤ 2 n then av1 else if eq_ℤ 1 n then hevc else h264

  unfoldable pub announced_video : Args → StreamSession → VideoParams
  unfolding arg adjust_bitrate
  announced_video args s =
      let fec_percentage : ℕ = 20 in
      let csc = arg args (text "x-nv-video[0].encoderCscMode") (pos 0) in
      let channels = arg args (text "x-nv-audio.surround.numChannels") s.audio_channel_count in
      record {
        width = arg args (text "x-nv-video[0].clientViewportWd") s.client_width;
        height = arg args (text "x-nv-video[0].clientViewportHt") s.client_height;
        fps = arg args (text "x-nv-video[0].maxFPS") s.client_fps;
        format = format_of (arg args (text "x-nv-vqos[0].bitStreamFormat") (pos 0));
        packet_size = arg args (text "x-nv-video[0].packetSize") (pos 1392);
        fec_percentage = fec_percentage;
        min_required_fec_packets = arg args (text "x-nv-vqos[0].fec.minRequiredFecPackets") (pos 2);
        bitrate_kbps = bitrate_of args fec_percentage channels;
        slices_per_frame = arg args (text "x-nv-video[0].videoEncoderSlicesPerFrame") (pos 1);
        frames_with_invalid_ref_threshold =
            arg args (text "x-nv-video[0].framesWithInvalidRefThreshold") (pos 0);
        timeout_ms = arg args (text "x-nv-video[0].timeoutLengthMs") (pos 7000);
        color_range = if has_bit 1 csc then jpeg else mpeg;
        color_space = half csc;
      }

  unfoldable pub announced_audio : Args → StreamSession → AudioParams
  unfolding arg for_channels
  announced_audio args s =
      let cfg =
        for_channels (arg args (text "x-nv-audio.surround.numChannels") s.audio_channel_count) in
      record {
        encrypt = has_bit 32 (arg args (text "x-nv-general.featureFlags") (pos 167));
        channels = pos cfg.channels;
        streams = cfg.streams;
        coupled_streams = cfg.coupled_streams;
        bitrate = cfg.bitrate;
        packet_duration = arg args (text "x-nv-aqos.packetDuration") (pos 5);
      }

  unfoldable pub announce : RtspPacket → StreamSession → RtspPacket × StreamSession
  unfolding announced_video announced_audio
  announce req s =
      let args = collect_args [] req.payloads in
      (
        ok_msg req.seq_number [] [],
        record s {
          video = announced_video args s;
          audio = announced_audio args s;
          announced = true;
        },
      )

  -- The last component says whether `on_play` is called with the session.
  unfoldable pub message_handler : RtspPacket → StreamSession → RtspPacket × StreamSession × Bool
  message_handler req s =
      let cmd = req.request_part.cmd in
      let (announced_reply, announced_session) = announce req s in
      if cmd =? text "OPTIONS"
      then (ok_msg req.seq_number [] [], s, false)
      else if cmd =? text "DESCRIBE"
      then (describe req s, s, false)
      else if cmd =? text "SETUP"
      then (setup req s, s, false)
      else if cmd =? text "ANNOUNCE"
      then (announced_reply, announced_session, false)
      else if cmd =? text "PLAY"
      then (ok_msg req.seq_number [] [], record s { playing = true }, true)
      else (error_msg 404 (text "NOT FOUND") req.seq_number, s, false)
