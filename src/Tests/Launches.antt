-- ===== src/Tests/Launches.antt =====
-- Launch, resume, cancel and the RTSP lookup on two sessions.
use steamos_containerized.Common.{
  ◌⊎◌, ◌==◌, if◌then◌else◌, ◌=?◌, ℕ, ◌≡◌, refl, true, false, none, some, List, [], ◌∷◌, arith,
}
use steamos_containerized.StdLib.{plain_lib}
use steamos_containerized.Common.Int.{pos}
use steamos_containerized.Session.{empty_registry, get_by_client_ip, get_by_id}
use steamos_containerized.Session.Registry.{IsValid}
use steamos_containerized.Pairing.Crypto.{plain_crypto}
use steamos_containerized.Pairing.State.{get_client_via_ssl}
use steamos_containerized.Launch.{LaunchRequest}
use steamos_containerized.Launch.Handlers.{is_paired, launch_like, cancel_handler}
use steamos_containerized.Launch.Keeps.{IsStored, Allowed, Refusal, unpaired_is_refused}
use steamos_containerized.Launch.Resume.{cancel_stops}
use steamos_containerized.Lifecycle.{
  start_media, stop_media, update_bitrate, retarget, force_idr, stop_session, resume_media,
  launch_media, is_resume, play_found, on_play, Call, play, stop, call, calls,
}
use steamos_containerized.Lifecycle.OneLive.{observe_all, live_of, calls-Tracks}
use steamos_containerized.Tests.Data.{
  bob_ip, alice_session, bob_session, two_sessions, server_of, request_from, launch_env,
}

two_sessions-IsValid : IsValid two_sessions
two_sessions-IsValid = record {
  known = ((omega arith, omega arith), ((omega arith, omega arith), tt));
  distinct = (((λ e. omega arith), tt), (tt, tt));
}

empty_registry-IsValid : IsValid empty_registry
empty_registry-IsValid = record { known = tt; distinct = (tt) }

paired_client : is_paired plain_lib plain_crypto (some 3) (server_of two_sessions) ≡ true
unfolding get_client_via_ssl
paired_client = refl

abbrev carol : LaunchRequest
carol = request_from (67 ∷ [])

cancel_stops_example :
    let sv = server_of two_sessions in
    let out = cancel_handler plain_lib plain_crypto (request_from bob_ip) (some 3) sv in
    (out.0.stopped ≡ 2 ∷ [])
    × ((j : ℕ) → get_by_id j out.0.sessions ≡ (if 2 == j then none else get_by_id j two_sessions))
    × (out.0.sessions.heap ≡ two_sessions.heap)
unfolding ◌=?◌
cancel_stops_example =
    cancel_stops plain_lib plain_crypto (request_from bob_ip) (some 3) (server_of two_sessions) 1
      paired_client (unfold get_by_client_ip in refl)

-- Certificate 4 is not the stored one.
unpaired_is_refused_example :
    let sv = server_of two_sessions in
    (IsStored plain_lib plain_crypto (some 4) sv
      × (Allowed plain_lib (launch_like plain_lib plain_crypto launch_env carol (some 4) true sv)
          × Allowed plain_lib (cancel_handler plain_lib plain_crypto carol (some 4) sv)))
    ⊎ ((¬ IsStored plain_lib plain_crypto (some 4) sv)
        × (Refusal plain_lib carol sv
              (launch_like plain_lib plain_crypto launch_env carol (some 4) true sv)
            × Refusal plain_lib carol sv (cancel_handler plain_lib plain_crypto carol (some 4) sv)))
unpaired_is_refused_example =
    unpaired_is_refused plain_lib plain_crypto launch_env carol (some 4) true
      (server_of two_sessions)

-- Alice plays, resumes, is replaced by Bob, whom a late stop of Alice's session does not end.
abbrev evening : List Call
evening =
    play false two_sessions alice_session
    ∷ play true two_sessions alice_session
    ∷ play true two_sessions bob_session
    ∷ stop 1
    ∷ stop 2
    ∷ []

evening_actions :
    (calls evening none).0
    ≡ start_media 1
      ∷ update_bitrate (pos 15500) (pos 0)
      ∷ retarget
      ∷ force_idr
      ∷ stop_media 1
      ∷ start_media 2
      ∷ stop_media 2
      ∷ []
unfolding calls call on_play play_found resume_media launch_media is_resume stop_session get_by_id
evening_actions = refl

calls-Tracks_example :
    observe_all (calls evening none).0 none ≡ some (live_of (calls evening none).1)
calls-Tracks_example = calls-Tracks evening none
