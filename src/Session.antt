-- ===== src/Session.antt =====
-- session.hpp (server/src/server): the negotiated parameters, a stream session, and the registry
-- that the HTTP, RTSP and control servers share. A `shared_ptr<StreamSession>` is the number of
-- a cell of `heap`, so every holder of a session sees what another one writes to it. Each method
-- of the registry runs under its mutex, and is one step here.
pub mod Registry
pub mod Lookup
use steamos_containerized.Common.{
  ℕ, ◌+◌, ◌%◌, ◌^◌, Bool, false, ◌&&◌, ◌||◌, Option, none, some, List, [], ◌∷◌, ◌++◌, ◌==◌,
  if◌then◌else◌, find_if, remove_if, Text, text, ◌=?◌, is_empty,
}
use steamos_containerized.Common.Int.{ℤ, pos}

pub data VideoFormat : Type 0 where
  h264 hevc av1 : VideoFormat

pub data ColorRange : Type 0 where
  mpeg jpeg : ColorRange

-- `color_space` is the number behind the enum: the source casts any value into it.
pub record VideoParams : Type 0 where
  pub width : ℤ
  pub height : ℤ
  pub fps : ℤ
  pub format : VideoFormat
  pub packet_size : ℤ
  pub fec_percentage : ℕ
  pub min_required_fec_packets : ℤ
  pub bitrate_kbps : ℤ
  pub slices_per_frame : ℤ
  pub frames_with_invalid_ref_threshold : ℤ
  pub timeout_ms : ℤ
  pub color_range : ColorRange
  pub color_space : ℤ

abbrev pub default_video : VideoParams
default_video = record {
  width = pos 0;
  height = pos 0;
  fps = pos 0;
  format = h264;
  packet_size = pos 1392;
  fec_percentage = 20;
  min_required_fec_packets = pos 2;
  bitrate_kbps = pos 15500;
  slices_per_frame = pos 1;
  frames_with_invalid_ref_threshold = pos 0;
  timeout_ms = pos 7000;
  color_range = mpeg;
  color_space = pos 0;
}

pub record AudioParams : Type 0 where
  pub encrypt : Bool
  pub channels : ℤ
  pub streams : ℕ
  pub coupled_streams : ℕ
  pub bitrate : ℕ
  pub packet_duration : ℤ

abbrev pub default_audio : AudioParams
default_audio = record {
  encrypt = false;
  channels = pos 2;
  streams = 1;
  coupled_streams = 1;
  bitrate = 96000;
  packet_duration = pos 5;
}

pub record StreamSession : Type 0 where
  pub session_id : ℕ
  pub client_ip : Text
  pub rtsp_fake_ip : Text
  pub app_id : Text
  pub app_name : Text
  pub aes_key : Text
  pub aes_iv : Text
  pub client_width : ℤ
  pub client_height : ℤ
  pub client_fps : ℤ
  pub audio_channel_count : ℤ
  pub hevc_supported : Bool
  pub av1_supported : Bool
  pub video_stream_port : ℕ
  pub audio_stream_port : ℕ
  pub control_stream_port : ℕ
  pub rtp_secret_payload : Text
  pub enet_secret_payload : ℕ
  pub announced : Bool
  pub playing : Bool
  pub video : VideoParams
  pub audio : AudioParams

abbrev pub default_session : StreamSession
default_session = record {
  session_id = 0;
  client_ip = [];
  rtsp_fake_ip = [];
  app_id = [];
  app_name = [];
  aes_key = [];
  aes_iv = [];
  client_width = pos 0;
  client_height = pos 0;
  client_fps = pos 0;
  audio_channel_count = pos 2;
  hevc_supported = false;
  av1_supported = false;
  video_stream_port = 0;
  audio_stream_port = 0;
  control_stream_port = 0;
  rtp_secret_payload = [];
  enet_secret_payload = 0;
  announced = false;
  playing = false;
  video = default_video;
  audio = default_audio;
}

abbrev pub Ptr : Type 0
Ptr = ℕ

-- `sessions` is `sessions_`, and `next_id` is `next_id_`; the cells below `allocated` are in use.
pub record SessionRegistry : Type 0 where
  pub heap : Ptr → StreamSession
  pub allocated : ℕ
  pub sessions : List Ptr
  pub next_id : ℕ

abbrev pub empty_registry : SessionRegistry
empty_registry = record { heap = λ p. default_session; allocated = 0; sessions = []; next_id = 1 }

unfoldable pub make_shared : StreamSession → SessionRegistry → Ptr × SessionRegistry
make_shared s r = (
  r.allocated,
  record r { heap = λ p. if p == r.allocated then s else r.heap p; allocated = r.allocated + 1 },
)

-- A write to the fields of `*p`.
unfoldable pub modify : Ptr → (StreamSession → StreamSession) → SessionRegistry → SessionRegistry
modify p f r = record r { heap = λ q. if q == p then f (r.heap p) else r.heap q }

unfoldable pub add : Ptr → SessionRegistry → SessionRegistry
add p r = record r { sessions = r.sessions ++ p ∷ [] }

unfoldable pub remove : ℕ → SessionRegistry → SessionRegistry
remove id r = record r { sessions = remove_if (λ p. (r.heap p).session_id == id) r.sessions }

unfoldable pub get_by_client_ip : Text → SessionRegistry → Option Ptr
get_by_client_ip ip r = find_if (λ p. (r.heap p).client_ip =? ip) r.sessions

-- The two `if`s of the loop body both return the session.
abbrev pub matches_rtsp : Text → Text → Text → StreamSession → Bool
matches_rtsp uri_ip host_opt peer_ip s =
    (s.rtsp_fake_ip =? uri_ip || host_opt =? s.rtsp_fake_ip)
    || ((host_opt =? text "0.0.0.0" || is_empty host_opt) && s.client_ip =? peer_ip)

unfoldable pub get_for_rtsp : Text → Text → Text → SessionRegistry → Option Ptr
get_for_rtsp uri_ip host_opt peer_ip r =
    find_if (λ p. matches_rtsp uri_ip host_opt peer_ip (r.heap p)) r.sessions

abbrev front : List Ptr → Option Ptr
front [] = none
front (p ∷ ps) = some p

unfoldable pub get_running : SessionRegistry → Option Ptr
get_running r = front r.sessions

unfoldable pub get_by_id : ℕ → SessionRegistry → Option Ptr
get_by_id id r = find_if (λ p. (r.heap p).session_id == id) r.sessions

-- `fetch_add(1)` on a 64-bit `size_t`.
unfoldable pub take_id : SessionRegistry → ℕ × SessionRegistry
take_id r = (r.next_id, record r { next_id = (r.next_id + 1) % 2 ^ 64 })
