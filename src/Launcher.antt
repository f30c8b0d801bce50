-- ===== src/Launcher.antt =====
-- launcher.cpp (server/src/server): the application of a session, and the script that makes the Pulse
-- sink. `env` is `getenv`; `stoul` is none where it throws; what the kernel answers comes with a call.
-- A variable of an environment is a name with a value.
pub mod Credentials
pub mod Environment
use steamos_containerized.Common.{
  ◌==◌, if◌then◌else◌, is_some, and_then, Text, text, ◌=?◌, is_empty, ℕ, ◌%◌, ◌^◌, Bool, true,
  false, not, ◌&&◌, ◌||◌, Option, none, some, List, [], ◌∷◌, ◌++◌,
}
use steamos_containerized.Common.Int.{ℤ, pos, negsuc, ltb_ℤ}
use steamos_containerized.StdLib.{StdLib}
use steamos_containerized.Session.{StreamSession}
use steamos_containerized.Rtsp.Socket.{find_text}

abbrev pub Env : Type 0
Env = Text → Option Text

abbrev pub Variable : Type 0
Variable = Text × Text

abbrev pub set_or : Option Text → Text → Text
set_or none def = def
set_or (some v) def = if is_empty v then def else v

abbrev pub env_or : Env → Text → Text → Text
env_or env k def = set_or (env k) def

pub record LaunchSpec : Type 0 where
  pub gow_var : Variable
  pub spec_label : Text
  pub is_sway : Bool

unfoldable pub is_desktop : StreamSession → Bool
is_desktop s = s.app_id =? text "2" || is_some (find_text (text "Desktop") s.app_name)

abbrev pub spec_of : Bool → LaunchSpec
spec_of true = record {
  gow_var = (text "RUN_SWAY", text "1");
  spec_label = text "Steam Desktop (sway)";
  is_sway = true;
}
spec_of false = record {
  gow_var = (text "RUN_GAMESCOPE", text "1");
  spec_label = text "Steam Big Picture (gamescope)";
  is_sway = false;
}

unfoldable pub spec_for : StreamSession → LaunchSpec
spec_for s = spec_of (is_desktop s)

-- Who the child is to be.
pub record RunAs : Type 0 where
  pub run_uid : ℕ
  pub run_gid : ℕ
  pub home : Text
  pub xdg : Text
  pub user : Text

-- A `uid_t` is 32 bits wide.
unfoldable pub read_run_as : (Text → Option ℕ) → Env → Option RunAs
read_run_as stoul env =
    and_then (stoul (env_or env (text "STEAM_STREAM_RUN_UID") (text "1000"))) (λ u.
      and_then (stoul (env_or env (text "STEAM_STREAM_RUN_GID") (text "1000"))) (λ g. some (record {
        run_uid = u % 2 ^ 32;
        run_gid = g % 2 ^ 32;
        home = env_or env (text "STEAM_STREAM_HOME") (text "/home/retro");
        xdg = env_or env (text "XDG_RUNTIME_DIR") (text "/tmp/sockets");
        user = env_or env (text "STEAM_STREAM_RUN_USER") (text "retro");
      })))

-- The calls of a child, with what the kernel answers.
pub data Sys : Type 0 where
  call_setsid : Sys
  call_initgroups : Text → ℕ → Bool → Sys
  call_setgid : ℕ → Bool → Sys
  call_setuid : ℕ → Bool → Sys
  call_chdir : Text → Sys
  exec_script : Text → List Text → List Variable → Sys
  exit_with : ℕ → Sys

-- `root` is whether the effective user is root.
unfoldable pub drop_privileges : Bool → Bool → Bool → Bool → RunAs → List Sys → List Sys
drop_privileges root groups_ok gid_ok uid_ok r rest =
    if root
    then call_initgroups r.user r.run_gid groups_ok
      ∷ call_setgid r.run_gid gid_ok
      ∷ (if gid_ok
          then call_setuid r.run_uid uid_ok ∷ (if uid_ok then rest else exit_with 126 ∷ [])
          else exit_with 126 ∷ [])
    else rest

abbrev pub pulse_value : Option Text → List Variable
pulse_value none = []
pulse_value (some p) = if is_empty p then [] else (text "PULSE_SERVER", p) ∷ []

abbrev pub pulse_server : Env → List Variable
pulse_server env = pulse_value (env (text "PULSE_SERVER"))

abbrev pub sink_env : Env → RunAs → List Variable
sink_env env r =
    (text "HOME", r.home)
    ∷ (text "USER", r.user)
    ∷ (text "XDG_RUNTIME_DIR", r.xdg)
    ∷ (text "PATH", text "/usr/local/sbin:/usr/local/bin:/usr/sbin:/usr/bin:/sbin:/bin")
    ∷ pulse_server env

-- What the kernel answers to the one who forks: whether the script can be read, the number that
-- `fork` gives to the parent, none if it fails, and how the child ends, if it exits by itself.
pub record Answers : Type 0 where
  pub readable : Bool
  pub forked : Option ℕ
  pub exit_status : Option ℕ
  pub is_root : Bool
  pub groups_ok : Bool
  pub gid_ok : Bool
  pub uid_ok : Bool

-- The result of a launch, with the calls of the child. A bad number throws.
pub data Launched (A : Type 0) : Type 0 where
  throws : Launched A
  returned : A → List Sys → Launched A

abbrev pub sink_script : Text
sink_script = text "/opt/steam-stream/pulse-sink.sh"

unfoldable pub sink_child : StdLib → Answers → Env → RunAs → ℤ → Text → List Sys
unfolding drop_privileges
sink_child lib k env r channels name = drop_privileges k.is_root k.groups_ok k.gid_ok k.uid_ok r (
    exec_script sink_script (lib.to_string channels ∷ name ∷ []) (sink_env env r)
    ∷ exit_with 127
    ∷ [])

abbrev pub exited_well : Option ℕ → Bool
exited_well none = false
exited_well (some status) = status == 0

abbrev pub sink_by : StdLib → Answers → Env → ℤ → Text → Option RunAs → Launched Bool
sink_by lib k env channels name none = throws
sink_by lib k env channels name (some r) = elim k.forked [
  | none ↦ returned false []
  | some pid ↦ returned (exited_well k.exit_status) (sink_child lib k env r channels name)
]

unfoldable pub ensure_audio_sink :
    StdLib → (Text → Option ℕ) → Answers → Env → ℤ → Text → Launched Bool
unfolding sink_child
ensure_audio_sink lib stoul k env channels name =
    if k.readable
    then sink_by lib k env channels name (read_run_as stoul env)
    else returned false []

-- The negotiated value, else the one of the client, else a default.
abbrev pub chosen_size : ℤ → ℤ → ℤ → ℤ
chosen_size negotiated client def =
    if ltb_ℤ (pos 0) negotiated then negotiated else if ltb_ℤ (pos 0) client then client else def

abbrev pub passthrough_keys : List Text
passthrough_keys =
    text "NVIDIA_DRIVER_CAPABILITIES"
    ∷ text "NVIDIA_VISIBLE_DEVICES"
    ∷ text "LD_LIBRARY_PATH"
    ∷ text "WLR_RENDERER"
    ∷ text "WLR_NO_HARDWARE_CURSORS"
    ∷ text "STEAM_STARTUP_FLAGS"
    ∷ text "GAMESCOPE_MODE"
    ∷ text "GAMESCOPE_XWAYLAND_COUNT"
    ∷ text "STEAM_MULTIPLE_XWAYLANDS"
    ∷ text "PROTON_LOG"
    ∷ text "DISPLAY"
    ∷ []

unfoldable pub push_passthrough : Env → List Text → List Variable
push_passthrough env [] = []
push_passthrough env (k ∷ ks) =
    let rest = push_passthrough env ks in elim (env k) [ none ↦ rest | some v ↦ (k, v) ∷ rest ]

abbrev pub software_renderer : Env → LaunchSpec → List Variable
software_renderer env spec =
    if spec.is_sway && not (is_some (env (text "WLR_RENDERER")))
    then (text "WLR_RENDERER", text "pixman") ∷ (text "WLR_NO_HARDWARE_CURSORS", text "1") ∷ []
    else []

abbrev pub fixed_env :
    StdLib → Env → RunAs → StreamSession → LaunchSpec → Text → Text → List Variable
fixed_env lib env r s spec display sink =
    (text "HOME", r.home)
    ∷ (text "USER", r.user)
    ∷ (text "LOGNAME", r.user)
    ∷ (text "XDG_RUNTIME_DIR", r.xdg)
    ∷ (text "WAYLAND_DISPLAY", display)
    ∷ spec.gow_var
    ∷ (text "APPIMAGE_EXTRACT_AND_RUN", text "1")
    ∷ (
      text "PULSE_SINK",
      if is_empty sink then env_or env (text "PULSE_SINK") (text "steam-stream") else sink,
    )
    ∷ (text "GAMESCOPE_WIDTH", lib.to_string (chosen_size s.video.width s.client_width (pos 1920)))
    ∷ (
      text "GAMESCOPE_HEIGHT",
      lib.to_string (chosen_size s.video.height s.client_height (pos 1080)),
    )
    ∷ (text "GAMESCOPE_REFRESH", lib.to_string (chosen_size s.video.fps s.client_fps (pos 60)))
    ∷ (text "PATH", text "/usr/local/sbin:/usr/local/bin:/usr/sbin:/usr/bin:/sbin:/bin:/usr/games")
    ∷ []

unfoldable pub env_with :
    StdLib → Env → RunAs → StreamSession → LaunchSpec → Text → Text → List Variable
env_with lib env r s spec display sink =
    fixed_env lib env r s spec display sink
    ++ (pulse_server env ++ (software_renderer env spec ++ push_passthrough env passthrough_keys))

unfoldable pub app_env : StdLib → Env → RunAs → StreamSession → Text → Text → List Variable
unfolding spec_for
app_env lib env r s display sink = env_with lib env r s (spec_for s) display sink

unfoldable pub app_child :
    StdLib → Answers → Env → RunAs → StreamSession → Text → Text → Text → List Sys
unfolding drop_privileges app_env
app_child lib k env r s script display sink =
    call_setsid
    ∷ drop_privileges k.is_root k.groups_ok k.gid_ok k.uid_ok r (
        call_chdir r.home
        ∷ exec_script script [] (app_env lib env r s display sink)
        ∷ exit_with 127
        ∷ [])

abbrev pub app_by :
    StdLib → Answers → Env → StreamSession → Text → Text → Text → Option RunAs → Launched ℤ
app_by lib k env s script display sink none = throws
app_by lib k env s script display sink (some r) = elim k.forked [
  | none ↦ returned (negsuc 0) []
  | some pid ↦ returned (pos pid) (app_child lib k env r s script display sink)
]

unfoldable pub launch_app :
    StdLib → (Text → Option ℕ) → Answers → Env → StreamSession → Text → Text → Launched ℤ
unfolding app_child
launch_app lib stoul k env s display sink =
    let script = env_or env (text "STEAM_STREAM_LAUNCH_SCRIPT") (text "/opt/gow/startup-app.sh") in
    if k.readable
    then app_by lib k env s script display sink (read_run_as stoul env)
    else returned (negsuc 0) []
