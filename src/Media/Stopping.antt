-- ===== src/Media/Stopping.antt =====
-- media.cpp (server/src/server): the end of a media session.
use steamos_containerized.Common.{
  All, Text, ◌≡◌, arith, sym, subst, true, Option, List, [], ◌∷◌, refl, Bool-cases, inl, inr,
}
use steamos_containerized.Common.Int.{ℤ, pos, ltb_ℤ}
use steamos_containerized.Session.{StreamSession}
use steamos_containerized.Media.Processes.{Host, stop_app}
use steamos_containerized.Media.Pipelines.{Env, Built}
use steamos_containerized.Media.Live.{
  MediaSession, teardown, StartAnswers, start, AudioPipeline, release_pads, release_pointer,
  release_wayland, release_video, release_audio, torn_down, stop, store_app_pid,
}
use steamos_containerized.Media.Running.{
  IsValid, MediaCall, ValidParts, media_calls, parts-media_calls,
}

start-IsValid :
    (ans : StartAnswers) (env : Env) (s : StreamSession) (vtext atext : Built) (name : Text)
    → IsValid (start ans env s vtext atext name).0
unfolding start
start-IsValid ans env s vtext atext name = (λ w. ground arith, λ p. ground arith)

teardown-IsValid : (m : MediaSession) → IsValid m → All IsValid (teardown m)
unfolding teardown release_pads release_pointer release_wayland release_video release_audio
teardown-IsValid m h = (
  h,
  (
    h,
    (
      (h.0, λ e. cc e),
      ((λ e. cc e, λ e. cc e), ((λ e. cc e, λ e. cc e), ((λ e. cc e, λ e. cc e), tt))),
    ),
  ),
)

-- From the start of a session through any calls, and at each step of its end, the session holds its
-- source of input only while its video pipeline is there, and the thread that injects into the
-- source runs only while it is held.
pub teardown-media_calls-start :
    {D : Type 0} (atol : Text → ℤ) (launched : Built → Option AudioPipeline)
    → (ans : StartAnswers) (env : Env) (s : StreamSession) (vtext atext : Built) (name : Text)
    → (cs : List (MediaCall D))
    → All IsValid (
        (media_calls atol env launched cs (start ans env s vtext atext name).0).0
        ∷ teardown (media_calls atol env launched cs (start ans env s vtext atext name).0).0)
teardown-media_calls-start atol launched ans env s vtext atext name cs =
    let first = (start ans env s vtext atext name).0 in
    let valid =
      subst ValidParts (sym (parts-media_calls atol env launched cs first))
        (start-IsValid ans env s vtext atext name) in
    (valid, teardown-IsValid (media_calls atol env launched cs first).0 valid)

stop-torn_down : (H : Host) (m : MediaSession) (st : H.State) → (stop H m st).0 ≡ torn_down m
unfolding stop
stop-torn_down H m st = elim (Bool-cases (ltb_ℤ (pos 0) m.app_pid)) [
  | inl t ↦ rw t refl
  | inr f ↦ rw f refl
]

-- After a stop, another one signals nobody and changes nothing; and if the application was launched
-- so late that its number is stored only after the first stop, the second one ends it.
pub stop-stop :
    (H : Host) (m : MediaSession) (st now : H.State) (late : ℤ)
    → ltb_ℤ (pos 0) late ≡ true
    → (stop H (stop H m st).0 now ≡ ((stop H m st).0, (now, [])))
      × ((stop H (store_app_pid late (stop H m st).0) now).1 ≡ (stop_app H late now).1)
unfolding stop torn_down store_app_pid
stop-stop H m st now late l = rw (stop-torn_down H m st) (refl, rw l (rw l refl))
