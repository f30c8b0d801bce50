-- ===== src/Media/Live.antt =====
-- media.cpp (server/src/server): a media session. What GStreamer keeps is here what the code sets and
-- reads of it: the properties of the element `video_encoder`, and the key and IV of `moonlight_pay`.
-- `D` is the type of the coordinates, which are `double`s. The answers of GStreamer and of the kernel
-- come with each call, and the time of the last client mouse event with the pointer synchronisation.
use steamos_containerized.Common.{
  if◌then◌else◌, is_some, and_then, Text, is_empty, ℕ, ◌%◌, ◌^◌, Bool, false, Option, none, some,
  List, [], ◌∷◌, text, ◌=?◌, true, not, ◌&&◌, ◌++◌,
}
use steamos_containerized.Common.Int.{ℤ, pos, negsuc, pos_part, leb_ℤ, ltb_ℤ}
use steamos_containerized.Session.{StreamSession}
use steamos_containerized.Control.Pads.{Gamepads}
use steamos_containerized.Input.Pad.{new_chord}
use steamos_containerized.Media.{UdpSink, drop_client}
use steamos_containerized.Media.Processes.{Host, Act, eq_ℤ, stop_app}
use steamos_containerized.Media.Pipelines.{Env, encoder_vbv_kbit, Built}

pub record VideoEncoder : Type 0 where
  pub bitrate_prop : ℕ
  pub vbv_prop : ℕ

-- The element `video_encoder`, if the pipeline has one.
pub record VideoPipeline : Type 0 where
  pub video_encoder : Option VideoEncoder

-- The key and the IV of the payloader, if the pipeline has one.
pub record AudioPipeline : Type 0 where
  pub moonlight_pay : Option (Text × Text)

pub record MediaSession : Type 0 where
  pub media_id : ℕ
  pub video_pipeline : Option VideoPipeline
  pub wayland_src : Bool
  pub audio_pipeline : Option AudioPipeline
  pub audio_channels : ℤ
  pub app_pid : ℤ
  pub gamepads : Gamepads
  pub pointer_sync : Option ℕ
  pub video_sink : Option UdpSink
  pub audio_sink : Option UdpSink

abbrev pub is_active : MediaSession → Bool
is_active m = is_some m.video_pipeline

pub data UpstreamEvent (D : Type 0) : Type 0 where
  mouse_move_relative mouse_move_absolute : D → D → UpstreamEvent D
  mouse_axis_event : D → D → UpstreamEvent D
  mouse_button_event keyboard_key_event : ℕ → Bool → UpstreamEvent D
  force_key_unit : UpstreamEvent D

unfoldable pub send_wayland_event :
    {D : Type 0} → MediaSession → UpstreamEvent D → List (UpstreamEvent D)
send_wayland_event m e = if m.wayland_src then e ∷ [] else []

-- `note_client_mouse`
unfoldable pub note_client_mouse : ℕ → MediaSession → MediaSession
note_client_mouse now m = record m { pointer_sync = and_then m.pointer_sync (λ last. some now) }

unfoldable pub force_idr : {D : Type 0} → MediaSession → List (UpstreamEvent D)
force_idr m = if is_active m then force_key_unit ∷ [] else []

-- The element after the change, for a bitrate above 0.
abbrev pub set_bitrate : ℤ → ℤ → VideoEncoder → VideoEncoder
set_bitrate bitrate vbv e =
    if eq_ℤ (pos e.bitrate_prop) bitrate
    then e
    else record { bitrate_prop = pos_part bitrate % 2 ^ 32; vbv_prop = pos_part vbv % 2 ^ 32 }

abbrev pub in_pipeline : (VideoEncoder → VideoEncoder) → VideoPipeline → VideoPipeline
in_pipeline f p = record { video_encoder = and_then p.video_encoder (λ e. some (f e)) }

unfoldable pub update_bitrate : (Text → ℤ) → Env → ℤ → MediaSession → MediaSession
update_bitrate atol env bitrate m =
    let vbv = encoder_vbv_kbit atol env bitrate in
    if leb_ℤ bitrate (pos 0) then m else record m {
      video_pipeline =
          and_then m.video_pipeline (λ p. some (in_pipeline (set_bitrate bitrate vbv) p));
    }

-- `s` is what the shared session holds now.
abbrev pub refresh_key : StreamSession → AudioPipeline → AudioPipeline
refresh_key s p = record {
  moonlight_pay = and_then p.moonlight_pay (λ old. some (s.aes_key, s.aes_iv));
}

abbrev pub drop_sinks : MediaSession → MediaSession
drop_sinks m = record m {
  video_sink = and_then m.video_sink (λ k. some (drop_client k));
  audio_sink = and_then m.audio_sink (λ k. some (drop_client k));
}

unfoldable pub refresh_unless : Bool → StreamSession → MediaSession → MediaSession
refresh_unless true s m = m
refresh_unless false s m = record m {
  audio_pipeline = and_then m.audio_pipeline (λ p. some (refresh_key s p));
}

unfoldable pub retarget : StreamSession → MediaSession → MediaSession
unfolding drop_client refresh_unless
retarget s m = refresh_unless (is_empty s.aes_key) s (drop_sinks m)

-- `launched` is the pipeline that `launch` gives for the text, if any.
unfoldable pub rebuild_audio :
    (Built → Option AudioPipeline) → Built → ℤ → MediaSession → MediaSession
rebuild_audio launched t channels m = record m {
  audio_pipeline = launched t;
  audio_channels = channels;
}

-- What is released after the application has ended, one after the other.
unfoldable pub release_pads : MediaSession → MediaSession
release_pads m = record m { gamepads = [] }

unfoldable pub release_pointer : MediaSession → MediaSession
release_pointer m = record m { pointer_sync = none }

unfoldable pub release_wayland : MediaSession → MediaSession
release_wayland m = record m { wayland_src = false }

unfoldable pub release_video : MediaSession → MediaSession
release_video m = record m { video_pipeline = none }

unfoldable pub release_audio : MediaSession → MediaSession
release_audio m = record m { audio_pipeline = none }

abbrev pub forget_app : MediaSession → MediaSession
forget_app m = record m { app_pid = negsuc 0 }

-- The states that `stop` goes through.
unfoldable pub teardown : MediaSession → List MediaSession
unfolding release_pads release_pointer release_wayland release_video release_audio
teardown m =
    let m1 = forget_app m in
    let m2 = release_pads m1 in
    let m3 = release_pointer m2 in
    let m4 = release_wayland m3 in
    let m5 = release_video m4 in m1 ∷ m2 ∷ m3 ∷ m4 ∷ m5 ∷ release_audio m5 ∷ []

unfoldable pub torn_down : MediaSession → MediaSession
unfolding release_pads release_pointer release_wayland release_video release_audio
torn_down m =
    release_audio (release_video (release_wayland (release_pointer (release_pads (forget_app m)))))

module _ (H : Host) where
  unfoldable pub stop : MediaSession → H.State → MediaSession × (H.State × List Act)
  stop m st =
      let (gone, (after, acts)) = stop_app H m.app_pid st in
      if ltb_ℤ (pos 0) m.app_pid then (torn_down m, (after, acts)) else (torn_down m, (st, []))

-- The thread that launched the application stores its number when it runs.
unfoldable pub store_app_pid : ℤ → MediaSession → MediaSession
store_app_pid pid m = if ltb_ℤ (pos 0) pid then record m { app_pid = pid } else m

-- What GStreamer and the kernel answer when a session starts.
pub record StartAnswers : Type 0 where
  pub launch_video : Built → Option VideoPipeline
  pub launch_audio : Built → Option AudioPipeline
  pub finds_wayland_src : Bool
  pub makes_pad : Bool

abbrev pub new_sink : Text → ℕ → StreamSession → UdpSink
new_sink label port s = record {
  listen_port = port;
  label = label;
  client_ip = s.client_ip;
  have_client = false;
  dest = record { s_addr = 0; sin_port = 0 };
  counter = 0;
}

-- STEAM_STREAM_POINTER_SYNC
abbrev pub syncs_pointer : Option Text → Bool
syncs_pointer none = true
syncs_pointer (some v) = not (v =? text "0") && not (v =? text "false")

-- What `start` does besides filling in the session, in order.
pub data StartAct : Type 0 where
  ensure_sink : ℤ → Text → StartAct
  listen_on : ℕ → StartAct
  play_video play_audio : Built → StartAct
  plug_pad : StartAct
  watch_wayland : Text → StartAct
  sync_pointer : StartAct

-- `vtext` and `atext` are the texts of the pipelines, `name` that of the Pulse sink.
unfoldable pub start :
    StartAnswers → Env → StreamSession → Built → Built → Text → MediaSession × List StartAct
start ans env s vtext atext name =
    let video = ans.launch_video vtext in
    let found = is_some video && ans.finds_wayland_src in
    let synced = found && syncs_pointer (env (text "STEAM_STREAM_POINTER_SYNC")) in
    (
      record {
        media_id = s.session_id;
        video_pipeline = video;
        wayland_src = found;
        audio_pipeline = ans.launch_audio atext;
        audio_channels = s.audio.channels;
        app_pid = negsuc 0;
        gamepads = if ans.makes_pad then (0, new_chord) ∷ [] else [];
        pointer_sync = if synced then some 0 else none;
        video_sink = some (new_sink (text "video") s.video_stream_port s);
        audio_sink = some (new_sink (text "audio") s.audio_stream_port s);
      },
      (ensure_sink s.audio.channels name
            ∷ listen_on s.video_stream_port
            ∷ play_video vtext
            ∷ plug_pad
            ∷ [])
          ++ ((if is_some video then watch_wayland name ∷ [] else [])
              ++ ((if synced then sync_pointer ∷ [] else [])
                  ++ (listen_on s.audio_stream_port ∷ play_audio atext ∷ []))),
    )
