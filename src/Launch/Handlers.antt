-- ===== src/Launch/Handlers.antt =====
-- `create_launch_session`, `launch_like`, `/cancel`.
use steamos_containerized.Common.{
  if◌then◌else◌, is_some, value_or, Text, text, ◌=?◌, ℕ, Bool, true, false, not, ◌&&◌, Option, none,
  some, [], ◌∷◌, ◌++◌,
}
use steamos_containerized.Common.Int.{ℤ, pos}
use steamos_containerized.Session.{
  default_video, default_audio, StreamSession, Ptr, SessionRegistry, make_shared, modify, add,
  remove, get_by_client_ip, get_running, take_id,
}
use steamos_containerized.Pairing.Crypto.{Cert, Crypto}
use steamos_containerized.Pairing.State.{get_client_via_ssl}
use steamos_containerized.Pairing.Protocol.{
  status_code, status_message, query, session_url, gamesession, resume, cancel, fail_pair,
}
use steamos_containerized.StdLib.{StdLib}
use steamos_containerized.Launch.{
  Server, LaunchRequest, LaunchEnv, Answer, answered, thrown, app_name_of, nth_or, low16,
  is_nonempty,
}

abbrev pub reply_unauthorized : LaunchRequest → Answer
reply_unauthorized req = answered 401 (
    status_code 401
    ∷ query req.path
    ∷ status_message (text "The client is not authorized. Certificate verification failed.")
    ∷ [])

module _ (lib : StdLib) where
  -- The new session, before its id is written.
  unfoldable pub new_session : LaunchEnv → LaunchRequest → Server → ℤ → ℕ → StreamSession
  unfolding app_name_of low16
  new_session env req sv surround id =
      let app_id = value_or req.appid (text "1") in
      let numbers = lib.scan_mode (value_or req.mode (text "1920x1080x60")) in
      record {
        session_id = id;
        client_ip = req.client_ip;
        rtsp_fake_ip = env.fake_ip;
        app_id = app_id;
        app_name = app_name_of app_id sv.apps [];
        aes_key = value_or req.rikey [];
        aes_iv = value_or req.rikeyid [];
        client_width = nth_or 0 numbers (pos 1920);
        client_height = nth_or 1 numbers (pos 1080);
        client_fps = nth_or 2 numbers (pos 60);
        audio_channel_count = low16 surround;
        hevc_supported = sv.support_hevc;
        av1_supported = sv.support_av1;
        video_stream_port = sv.video_stream_port;
        audio_stream_port = sv.audio_stream_port;
        control_stream_port = sv.control_stream_port;
        rtp_secret_payload = env.rtp_secret;
        enet_secret_payload = env.enet_secret;
        announced = false;
        playing = false;
        video = default_video;
        audio = default_audio;
      }

  -- The id is taken first, so an exception of `stoi` has used it up.
  abbrev pub create_with :
      LaunchEnv
      → LaunchRequest
      → Server
      → ℕ
      → SessionRegistry
      → Option ℤ
      → Option Ptr × SessionRegistry
  create_with env req sv id r none = (none, r)
  create_with env req sv id r (some surround) =
      let made = make_shared (new_session env req sv surround id) r in (some made.0, made.1)

  unfoldable pub create_launch_session :
      LaunchEnv → LaunchRequest → Server → Option Ptr × SessionRegistry
  unfolding take_id make_shared new_session
  create_launch_session env req sv =
      let (id, r) = take_id sv.sessions in
      create_with env req sv id r (lib.stoi (value_or req.surround_audio_info (text "196610")))

  -- The first `if` of a resume adopts the new address, the second one the new key, if it is whole.
  unfoldable pub adopt : Text → Text → Text → StreamSession → StreamSession
  adopt client_ip new_key new_iv s =
      let moved = if s.client_ip =? client_ip then s else record s { client_ip = client_ip } in
      if is_nonempty new_key && is_nonempty new_iv
      then record moved { aes_key = new_key; aes_iv = new_iv }
      else moved

  abbrev pub session_reply : LaunchEnv → LaunchRequest → Server → Bool → Ptr → Answer
  session_reply env req sv is_resume p =
      let host = if env.use_fake_ip then (sv.sessions.heap p).rtsp_fake_ip else req.local_ip in
      let url = text "rtsp://" ++ (host ++ (text ":" ++ lib.to_string (pos sv.rtsp_port))) in
      answered 200
        (status_code 200 ∷ session_url url ∷ (if is_resume then resume 1 else gamesession 1) ∷ [])

  -- `get_by_client_ip`, and for a resume the one running session after it.
  unfoldable pub resumed : Text → SessionRegistry → Option Ptr
  unfolding get_by_client_ip get_running
  resumed ip r = elim (get_by_client_ip ip r) [ some p ↦ some p | none ↦ get_running r ]

  abbrev pub resume_found : LaunchEnv → LaunchRequest → Server → Option Ptr → Server × Answer
  resume_found env req sv none = (sv, answered 400 (fail_pair (text "no session")))
  resume_found env req sv (some p) =
      let new_key = value_or req.rikey [] in
      let new_iv = value_or req.rikeyid [] in
      let sv' = record sv {
        sessions = modify p (adopt req.client_ip new_key new_iv) sv.sessions;
      } in
      (sv', session_reply env req sv' true p)

  abbrev pub launch_created :
      LaunchEnv → LaunchRequest → Server → Option Ptr × SessionRegistry → Server × Answer
  launch_created env req sv (none, r) = (record sv { sessions = r }, thrown)
  launch_created env req sv (some p, r) =
      let sv' = record sv { sessions = add p r } in (sv', session_reply env req sv' false p)

  abbrev pub launch_found : LaunchEnv → LaunchRequest → Server → Option Ptr → Server × Answer
  launch_found env req sv (some p) = (sv, session_reply env req sv false p)
  launch_found env req sv none = launch_created env req sv (create_launch_session env req sv)

  module _ (c : Crypto) where
    abbrev pub is_paired : Option Cert → Server → Bool
    is_paired cert sv = is_some (get_client_via_ssl c cert sv.pairing)

    unfoldable pub launch_like :
        LaunchEnv → LaunchRequest → Option Cert → Bool → Server → Server × Answer
    launch_like env req cert is_resume sv =
        if not (is_paired cert sv)
        then (sv, reply_unauthorized req)
        else if is_resume
        then resume_found env req sv (resumed req.client_ip sv.sessions)
        else launch_found env req sv (get_by_client_ip req.client_ip sv.sessions)

    abbrev pub cancelled : Server → Option Ptr → Server
    cancelled sv none = sv
    cancelled sv (some p) =
        let sid = (sv.sessions.heap p).session_id in
        record sv { sessions = remove sid sv.sessions; stopped = sid ∷ sv.stopped }

    unfoldable pub cancel_handler : LaunchRequest → Option Cert → Server → Server × Answer
    cancel_handler req cert sv =
        if is_paired cert sv
        then (
          cancelled sv (get_by_client_ip req.client_ip sv.sessions),
          answered 200 (status_code 200 ∷ cancel 1 ∷ []),
        )
        else (sv, reply_unauthorized req)
