-- ===== src/Launch.antt =====
-- The HTTPS handlers /launch, /resume and /cancel of servers.cpp (server/src/server), and
-- `create_launch_session`.
pub mod Handlers
pub mod Keeps
pub mod Resume
pub mod Info
use steamos_containerized.Common.{
  if◌then◌else◌, value_or, get_elem?, Text, ◌=?◌, is_empty, ℕ, ◌-◌, ◌%◌, Bool, not, Option, List,
  [], ◌∷◌,
}
use steamos_containerized.Common.Int.{ℤ, pos, negsuc}
use steamos_containerized.Session.{SessionRegistry}
use steamos_containerized.Pairing.State.{AppState}
use steamos_containerized.Pairing.Protocol.{Xml}

pub record App : Type 0 where
  pub title : Text
  pub id : Text
  pub support_hdr : Bool

-- The whole of `AppState`: the pairing part, the sessions, and what `main` sets once. `stopped` is
-- the list of the calls of the callback `stop_session`, newest first.
pub record Server : Type 0 where
  pub pairing : AppState
  pub sessions : SessionRegistry
  pub apps : List App
  pub rtsp_port : ℕ
  pub video_stream_port : ℕ
  pub audio_stream_port : ℕ
  pub control_stream_port : ℕ
  pub support_hevc : Bool
  pub support_av1 : Bool
  pub stopped : List ℕ

-- The query string of a launch or a resume, and the addresses of the connection.
pub record LaunchRequest : Type 0 where
  pub appid : Option Text
  pub mode : Option Text
  pub surround_audio_info : Option Text
  pub rikey : Option Text
  pub rikeyid : Option Text
  pub client_ip : Text
  pub local_ip : Text
  pub path : Text

-- What the random generators and the environment variable STEAM_STREAM_RTSP_FAKE_IP supply.
pub record LaunchEnv : Type 0 where
  pub rtp_secret : Text
  pub enet_secret : ℕ
  pub fake_ip : Text
  pub use_fake_ip : Bool

-- A handler answers, or lets an exception out.
pub data Answer : Type 0 where
  answered : ℕ → Xml → Answer
  thrown : Answer

-- The last app with the id names the session.
unfoldable pub app_name_of : Text → List App → Text → Text
app_name_of id [] name = name
app_name_of id (a ∷ apps) name = app_name_of id apps (if a.id =? id then a.title else name)

-- `sscanf` writes the fields that it converts, in order, over the defaults.
abbrev pub nth_or {ℓ} : {A : Type ℓ} → ℕ → List A → A → A
nth_or n xs d = value_or (get_elem? xs n) d

-- `n & 0xffff` on a 32-bit `int`
unfoldable pub low16 : ℤ → ℤ
low16 (pos n) = pos (n % 65536)
low16 (negsuc n) = pos (65535 - n % 65536)

abbrev pub is_nonempty : Text → Bool
is_nonempty t = not (is_empty t)
