-- ===== src/Lifecycle.antt =====
-- main.cpp (server/src/server): `on_play` and `stop_session`, with the media session that they share.
-- What they call of a `MediaSession` (media.cpp) is an action; a call of either runs to its end here
-- before the next one begins.
pub mod OneLive
pub mod Threads
pub mod Ownership
pub mod Races
use steamos_containerized.Common.{
  ◌==◌, if◌then◌else◌, ℕ, Bool, false, not, ◌&&◌, Option, none, some, List, [], ◌∷◌, ◌++◌,
}
use steamos_containerized.Common.Int.{ℤ, leb_ℤ}
use steamos_containerized.Session.{StreamSession, Ptr, SessionRegistry, get_by_id}

-- `media_holder`: the session it was started for, and the channels of its audio pipeline. Whether
-- its video pipeline runs, which `is_active` asks, is told when it is asked.
pub record Media : Type 0 where
  pub session_id : ℕ
  pub audio_channels : ℤ

pub data Action : Type 0 where
  start_media : ℕ → Action
  stop_media : ℕ → Action
  update_bitrate : ℤ → ℤ → Action
  rebuild_audio : ℤ → Action
  retarget : Action
  force_idr : Action

-- What was called, and the holder after it.
abbrev pub Effect : Type 0
Effect = List Action × Option Media

unfoldable pub stop_session : ℕ → Option Media → Effect
stop_session sid none = ([], none)
stop_session sid (some m) =
    if m.session_id == sid then (stop_media m.session_id ∷ [], none) else ([], some m)

unfoldable pub resume_media : StreamSession → Media → Effect
resume_media s m =
    let rebuild = not (eq_channels m.audio_channels s.audio.channels) in
    (
      update_bitrate s.video.bitrate_kbps s.video.fps
          ∷ ((if rebuild then rebuild_audio s.audio.channels ∷ [] else [])
              ++ retarget ∷ force_idr ∷ []),
      some (record m { audio_channels = if rebuild then s.audio.channels else m.audio_channels }),
    )
  where
    eq_channels : ℤ → ℤ → Bool
    eq_channels a b = leb_ℤ a b && leb_ℤ b a

abbrev pub stop_previous : Option Media → List Action
stop_previous none = []
stop_previous (some m) = stop_media m.session_id ∷ []

-- `sess` is the session of the registry; `MediaSession::start` always returns a media session of it.
unfoldable pub launch_media : StreamSession → Option Media → Effect
launch_media sess previous = (
  stop_previous previous ++ start_media sess.session_id ∷ [],
  some (record { session_id = sess.session_id; audio_channels = sess.audio.channels }),
)

unfoldable pub is_resume : Bool → StreamSession → Option Media → Bool
is_resume is_active s none = false
is_resume is_active s (some m) = m.session_id == s.session_id && is_active

unfoldable pub play_found : Bool → StreamSession → StreamSession → Option Media → Effect
unfolding resume_media launch_media is_resume
play_found is_active s sess none = launch_media sess none
play_found is_active s sess (some m) =
    if is_resume is_active s (some m) then resume_media s m else launch_media sess (some m)

-- By what the registry finds under the id of the session.
abbrev pub play_by : Bool → SessionRegistry → StreamSession → Option Media → Option Ptr → Effect
play_by is_active r s holder none = ([], holder)
play_by is_active r s holder (some p) = play_found is_active s (r.heap p) holder

unfoldable pub on_play : Bool → SessionRegistry → StreamSession → Option Media → Effect
unfolding play_found
on_play is_active r s holder = play_by is_active r s holder (get_by_id s.session_id r)

-- The callers: RTSP threads play; `/cancel` and the control channel stop.
pub data Call : Type 0 where
  play : Bool → SessionRegistry → StreamSession → Call
  stop : ℕ → Call

unfoldable pub call : Call → Option Media → Effect
unfolding on_play stop_session
call (play is_active r s) holder = on_play is_active r s holder
call (stop sid) holder = stop_session sid holder

-- All the actions of the calls, in order.
unfoldable pub calls : List Call → Option Media → Effect
unfolding call
calls [] holder = ([], holder)
calls (c ∷ cs) holder =
    let (done, now) = call c holder in let (rest, after) = calls cs now in (done ++ rest, after)
