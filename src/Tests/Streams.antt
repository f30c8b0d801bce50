-- ===== src/Tests/Streams.antt =====
-- A sink with two clients, an application that does not end, a session and its pipelines.
use steamos_containerized.Common.{
  if◌then◌else◌, All, Text, text, ◌=?◌, ℕ, ◌≤◌, ◌≡◌, refl, Bool, true, false, Option, none, some,
  List, [], ◌∷◌, ◌++◌,
}
use steamos_containerized.Common.Int.{ℤ, pos}
use steamos_containerized.Session.{default_session}
use steamos_containerized.Encoder.Defaults.{nv_h264, defaults}
use steamos_containerized.Media.{
  Addr, UdpSink, buffer_list, one_buffer, SinkStep, sampled, received, retargeted, sink_steps,
}
use steamos_containerized.Media.Destination.{sink_steps-told_all}
use steamos_containerized.Media.Processes.{
  Host, Act, eq_ℤ, steam_pids, steam_gone, poll_until, stop_steam, stop_group, stop_app,
}
use steamos_containerized.Media.Signals.{Swept}
use steamos_containerized.Media.Ending.{sleeps, SteamDone, stop_app-Swept, sleeps-stop_app_le}
use steamos_containerized.Media.Pipelines.{Env, Args, video_template, Built, no_encoder}
use steamos_containerized.Media.Live.{
  AudioPipeline, MediaSession, mouse_move_relative, mouse_move_absolute, keyboard_key_event,
  force_key_unit, teardown, StartAnswers, new_sink, start,
}
use steamos_containerized.Media.Running.{
  MediaCall, mouse_move_rel, keyboard_key, pointer_injects, wants_idr, new_bitrate, retargets,
  IsValid, media_calls,
}
use steamos_containerized.Media.Injected.{media_calls-events_of}
use steamos_containerized.Media.Stopping.{teardown-media_calls-start}

abbrev addr : ℕ → Addr
addr n = record { s_addr = n; sin_port = 47998 }

abbrev fresh_sink : UdpSink
fresh_sink = new_sink (text "video") 48100 default_session

-- A buffer before any ping, a client, a buffer, another client, a list of buffers of which one cannot
-- be mapped, a resume, and a buffer.
abbrev sink_trace : List SinkStep
sink_trace =
    sampled (one_buffer (some (1 ∷ [])))
    ∷ received (pos 4) (addr 7)
    ∷ sampled (one_buffer (some (2 ∷ [])))
    ∷ received (pos 4) (addr 8)
    ∷ sampled (buffer_list (some (3 ∷ []) ∷ none ∷ some (4 ∷ []) ∷ []))
    ∷ retargeted
    ∷ sampled (one_buffer (some (5 ∷ [])))
    ∷ []

sink_trace_sent :
    (sink_steps sink_trace fresh_sink).1
    ≡ (addr 7, 2 ∷ []) ∷ (addr 8, 3 ∷ []) ∷ (addr 8, 4 ∷ []) ∷ []
unfolding sink_steps
sink_trace_sent = refl

sink_steps-told_all_example :
    (sink_steps sink_trace fresh_sink).1
    ≡ (addr 7, 2 ∷ []) ∷ (addr 8, 3 ∷ []) ∷ (addr 8, 4 ∷ []) ∷ []
sink_steps-told_all_example = sink_steps-told_all sink_trace fresh_sink

-- A machine with one group, of a Steam client and another process, that only SIGKILL ends.
abbrev stubborn : Host
stubborn = record {
  State = Bool;
  proc_entries = λ st. some (pos 50 ∷ pos 51 ∷ []);
  getpgid = λ p st. pos 50;
  proc_comm = λ p st. if eq_ℤ p (pos 51) then text "steam" else text "bash";
  term_process = λ p st. st;
  term_group = λ p st. st;
  kill_group = λ p st. false;
  group_alive = λ p st. st;
  sleep = λ st. st;
}

stop_app-Swept_example :
    (first rest : List Act) × (((stop_app stubborn (pos 50) true).1.1 ≡ first ++ rest)
      × (SteamDone stubborn (pos 50) true (stop_steam stubborn (pos 50) true).0 first
          × Swept stubborn
              (pos 50)
              (stop_steam stubborn (pos 50) true).0
              (stop_app stubborn (pos 50) true).0
              (stop_app stubborn (pos 50) true).1.0
              rest))
stop_app-Swept_example = stop_app-Swept stubborn (pos 50) true

-- Both waits run out before the group is killed.
stubborn_waits : sleeps (stop_app stubborn (pos 50) true).1.1 ≡ 200
unfolding sleeps stop_app stop_steam steam_gone poll_until steam_pids stop_group text ◌=?◌
stubborn_waits = refl

sleeps-stop_app_le_example : sleeps (stop_app stubborn (pos 50) true).1.1 ≤ 220
sleeps-stop_app_le_example = sleeps-stop_app_le stubborn (pos 50) true

abbrev unset : Env
unset k = none

-- A formatter that fills nothing in, and a C library that reads no number.
abbrev keeps_template : Text → Args → Option Text
keeps_template t args = some t

abbrev no_number : Text → ℤ
no_number t = pos 0

abbrev all_made_here : Text → Bool
all_made_here el = true

abbrev default_template : Text
default_template = video_template unset defaults nv_h264

abbrev no_audio : Built → Option AudioPipeline
no_audio t = none

abbrev answers : StartAnswers
answers = record {
  launch_video = λ t. some (record { video_encoder = none });
  launch_audio = no_audio;
  finds_wayland_src = true;
  makes_pad = true;
}

abbrev started : MediaSession
started = (start answers unset default_session no_encoder no_encoder []).0

abbrev calls_made : List (MediaCall ℕ)
calls_made =
    mouse_move_rel 5 1 2
    ∷ pointer_injects 3 4
    ∷ keyboard_key 30 true
    ∷ wants_idr
    ∷ new_bitrate (pos 1000)
    ∷ retargets default_session
    ∷ []

media_calls-events_of_example :
    ((media_calls no_number unset no_audio calls_made started).1
      ≡ mouse_move_relative 1 2
        ∷ mouse_move_absolute 3 4
        ∷ keyboard_key_event 30 true
        ∷ force_key_unit
        ∷ [])
    × ((media_calls no_number unset no_audio calls_made started).0.pointer_sync ≡ some 5)
unfolding start
media_calls-events_of_example = media_calls-events_of no_number unset no_audio calls_made started

teardown-media_calls-start_example : All IsValid (
    (media_calls no_number unset no_audio calls_made started).0
    ∷ teardown (media_calls no_number unset no_audio calls_made started).0)
teardown-media_calls-start_example =
    teardown-media_calls-start no_number no_audio answers unset default_session no_encoder
      no_encoder [] calls_made
