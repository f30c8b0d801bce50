-- ===== src/Encoder/Defaults.antt =====
-- encoder_config.cpp (server/src/server): the configuration that is compiled in.
use steamos_containerized.Common.{Text, text, none, some, [], ◌∷◌}
use steamos_containerized.Common.Int.{pos}
use steamos_containerized.Encoder.{GstEncoder, EncoderConfig}

abbrev pub k_default_source : Text
k_default_source =
    text
      "waylanddisplaysrc name=wolf_wayland_source render-node={node} ! video/x-raw,format=RGBx,width={width},height={height},framerate={fps}/1"

abbrev pub k_default_source_zero_copy : Text
k_default_source_zero_copy =
    text
      "waylanddisplaysrc name=wolf_wayland_source render-node={node} cuda-device-id=0 ! video/x-raw(memory:CUDAMemory),width={width},height={height},framerate={fps}/1"

abbrev pub k_default_sink : Text
k_default_sink =
    text
      "rtpmoonlightpay_video name=moonlight_pay payload_size={payload_size} fec_percentage={fec_percentage} min_required_fec_packets={min_required_fec_packets} ! appsink name=video_sink sync=false max-buffers=1 drop=true"

abbrev pub k_default_audio_sink_name : Text
k_default_audio_sink_name = text "steam-stream"

abbrev pub k_default_audio_source : Text
k_default_audio_source =
    text
      "pulsesrc device=\"{sink_name}.monitor\" server=\"{server}\" ! audiorate ! audioconvert ! audioresample"

abbrev pub k_default_opus_encoder : Text
k_default_opus_encoder =
    text
      "opusenc bitrate={bitrate} bitrate-type=cbr frame-size={packet_duration} bandwidth=fullband audio-type=restricted-lowdelay max-payload-size=1400"

abbrev pub k_nv_video_params : Text
k_nv_video_params =
    text
      "cudaupload ! cudaconvertscale add-borders=true ! video/x-raw(memory:CUDAMemory),width={width},height={height},chroma-site={color_range},format=NV12,colorimetry={color_space},pixel-aspect-ratio=1/1"

abbrev pub k_nv_video_params_zero_copy : Text
k_nv_video_params_zero_copy =
    text
      "cudaconvertscale add-borders=true ! video/x-raw(memory:CUDAMemory),width={width},height={height},chroma-site={color_range},format=NV12,colorimetry={color_space},pixel-aspect-ratio=1/1"

abbrev pub k_va_video_params : Text
k_va_video_params =
    text
      "vapostproc ! video/x-raw(memory:VAMemory),format=NV12,width={width},height={height},pixel-aspect-ratio=1/1"

abbrev pub k_sw_video_params : Text
k_sw_video_params =
    text
      "videoconvertscale ! videorate ! video/x-raw,width={width},height={height},framerate={fps}/1,format=I420,chroma-site={color_range},colorimetry={color_space}"

abbrev pub nv_h264 : GstEncoder
nv_h264 = record {
  plugin_name = text "nvcodec";
  check_elements = text "nvh264enc" ∷ text "cudaconvertscale" ∷ text "cudaupload" ∷ [];
  encoder_pipeline =
      text
        "nvh264enc name=video_encoder preset=low-latency-hq zerolatency=true gop-size=0 rc-mode=cbr-ld-hq bitrate={bitrate} vbv-buffer-size={vbv_buffer_size} aud=false repeat-sequence-header=true ! h264parse config-interval=-1 ! video/x-h264,profile=main,stream-format=byte-stream";
  video_params = k_nv_video_params;
  video_params_zero_copy = some k_nv_video_params_zero_copy;
}

abbrev pub va_h264 : GstEncoder
va_h264 = record {
  plugin_name = text "va";
  check_elements = text "vah264enc" ∷ text "vapostproc" ∷ [];
  encoder_pipeline =
      text
        "vah264enc name=video_encoder aud=false b-frames=0 ref-frames=1 num-slices={slices_per_frame} bitrate={bitrate} cpb-size={vbv_buffer_size} min-qp=20 key-int-max=1024 rate-control=cbr target-usage=6 ! h264parse config-interval=-1 ! video/x-h264,profile=main,stream-format=byte-stream";
  video_params = k_va_video_params;
  video_params_zero_copy = none;
}

abbrev pub sw_h264 : GstEncoder
sw_h264 = record {
  plugin_name = text "x264";
  check_elements = text "x264enc" ∷ [];
  encoder_pipeline =
      text
        "x264enc name=video_encoder pass=qual tune=zerolatency speed-preset=superfast b-adapt=false bframes=0 ref=1 sliced-threads=true threads={slices_per_frame} option-string=\"slices={slices_per_frame}:keyint=infinite:open-gop=0\" bitrate={bitrate} aud=false ! h264parse config-interval=-1 ! video/x-h264,profile=high,stream-format=byte-stream";
  video_params = k_sw_video_params;
  video_params_zero_copy = none;
}

abbrev pub nv_hevc : GstEncoder
nv_hevc = record {
  plugin_name = text "nvcodec";
  check_elements = text "nvh265enc" ∷ text "cudaconvertscale" ∷ text "cudaupload" ∷ [];
  encoder_pipeline =
      text
        "nvh265enc name=video_encoder gop-size=-1 bitrate={bitrate} vbv-buffer-size={vbv_buffer_size} aud=false rc-mode=cbr zerolatency=true preset=p1 tune=ultra-low-latency multi-pass=two-pass-quarter repeat-sequence-header=true ! h265parse config-interval=-1 ! video/x-h265,profile=main,stream-format=byte-stream";
  video_params = k_nv_video_params;
  video_params_zero_copy = some k_nv_video_params_zero_copy;
}

abbrev pub va_hevc : GstEncoder
va_hevc = record {
  plugin_name = text "va";
  check_elements = text "vah265enc" ∷ text "vapostproc" ∷ [];
  encoder_pipeline =
      text
        "vah265enc name=video_encoder aud=false b-frames=0 ref-frames=1 num-slices={slices_per_frame} bitrate={bitrate} cpb-size={vbv_buffer_size} min-qp=20 key-int-max=1024 rate-control=cbr target-usage=6 ! h265parse config-interval=-1 ! video/x-h265,profile=main,stream-format=byte-stream";
  video_params = k_va_video_params;
  video_params_zero_copy = none;
}

abbrev pub nv_av1 : GstEncoder
nv_av1 = record {
  plugin_name = text "nvcodec";
  check_elements = text "nvav1enc" ∷ text "cudaconvertscale" ∷ text "cudaupload" ∷ [];
  encoder_pipeline =
      text
        "nvav1enc name=video_encoder gop-size=-1 bitrate={bitrate} vbv-buffer-size={vbv_buffer_size} rc-mode=cbr zerolatency=true preset=p1 tune=ultra-low-latency multi-pass=two-pass-quarter ! av1parse ! video/x-av1,stream-format=obu-stream,alignment=frame,profile=main";
  video_params = k_nv_video_params;
  video_params_zero_copy = some k_nv_video_params_zero_copy;
}

unfoldable pub defaults : EncoderConfig
defaults = record {
  video_cfg = record {
    default_source = k_default_source;
    default_source_zero_copy = some k_default_source_zero_copy;
    default_sink = k_default_sink;
    h264_encoders = nv_h264 ∷ va_h264 ∷ sw_h264 ∷ [];
    hevc_encoders = nv_hevc ∷ va_hevc ∷ [];
    av1_encoders = nv_av1 ∷ [];
  };
  audio_cfg = record {
    sink_name = k_default_audio_sink_name;
    audio_source = k_default_audio_source;
    default_opus_encoder = k_default_opus_encoder;
    bitrate_stereo = pos 96000;
    bitrate_51 = pos 256000;
    bitrate_71 = pos 450000;
  };
}
