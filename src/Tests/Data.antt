-- ===== src/Tests/Data.antt =====
-- The test data that the runs share.
use steamos_containerized.Common.{
  ◌==◌, if◌then◌else◌, replicate, Text, true, false, none, some, [], ◌∷◌,
}
use steamos_containerized.Session.{StreamSession, default_session, SessionRegistry}
use steamos_containerized.Pairing.State.{serverchallengeresp, PairCache, AppState, fresh_state}
use steamos_containerized.Pairing.Server.{PairRequest, Env, cache_key_of}
use steamos_containerized.Launch.{Server, LaunchRequest, LaunchEnv}

-- Short addresses, keys and certificates; each is told by its bytes.
abbrev pub alice_ip : Text
alice_ip = 65 ∷ []

abbrev pub bob_ip : Text
bob_ip = 66 ∷ []

abbrev pub alice_fake : Text
alice_fake = 1 ∷ []

abbrev pub bob_fake : Text
bob_fake = 2 ∷ []

abbrev pub alice_pem : Text
alice_pem = 7 ∷ 7 ∷ 7 ∷ []

abbrev pub alice_session : StreamSession
alice_session = record default_session {
  session_id = 1;
  client_ip = alice_ip;
  rtsp_fake_ip = alice_fake;
}

abbrev pub bob_session : StreamSession
bob_session = record default_session { session_id = 2; client_ip = bob_ip; rtsp_fake_ip = bob_fake }

abbrev pub two_sessions : SessionRegistry
two_sessions = record {
  heap = λ p. if p == 0 then alice_session else bob_session;
  allocated = 2;
  sessions = 0 ∷ 1 ∷ [];
  next_id = 3;
}

abbrev pub paired_state : AppState
paired_state = record (fresh_state 0 []) { paired_clients = alice_pem ∷ [] }

abbrev pub server_of : SessionRegistry → Server
server_of r = record {
  pairing = paired_state;
  sessions = r;
  apps = [];
  rtsp_port = 48010;
  video_stream_port = 47998;
  audio_stream_port = 48000;
  control_stream_port = 47999;
  support_hevc = true;
  support_av1 = false;
  stopped = [];
}

abbrev pub request_from : Text → LaunchRequest
request_from ip = record {
  appid = none;
  mode = none;
  surround_audio_info = none;
  rikey = some (9 ∷ []);
  rikeyid = some (8 ∷ []);
  client_ip = ip;
  local_ip = 0 ∷ [];
  path = [];
}

abbrev pub launch_env : LaunchEnv
launch_env = record { rtp_secret = []; enet_secret = 0; fake_ip = alice_fake; use_fake_ip = true }

abbrev pub pair_env : Env
pair_env = record {
  pin_secret = 5 ∷ [];
  server_secret = 6 ∷ [];
  server_challenge = [];
  iv = [];
  disk_ok = true;
}

abbrev pub alice_id : Text
alice_id = 97 ∷ []

abbrev pub alice_key : Text
alice_key = cache_key_of alice_id alice_ip

abbrev pub blank_request : PairRequest
blank_request = record {
  salt = none;
  clientcert = none;
  uniqueid = some alice_id;
  clientchallenge = none;
  serverchallengeresp = none;
  clientpairingsecret = none;
  client_ip = alice_ip;
}

-- The secret and its signature in one.
abbrev pub signed_secret : Text
signed_secret = replicate 272 7

abbrev pub phase1_request : PairRequest
phase1_request = record blank_request { salt = some []; clientcert = some alice_pem }

abbrev pub phase2_request : PairRequest
phase2_request = record blank_request { clientchallenge = some [] }

abbrev pub phase3_request : PairRequest
phase3_request = record blank_request { serverchallengeresp = some (replicate 16 7) }

abbrev pub phase4_request : PairRequest
phase4_request = record blank_request { clientpairingsecret = some signed_secret }

-- Before phase 4.
abbrev pub answered_cache : PairCache
answered_cache = record {
  client_cert = alice_pem;
  aes_key = [];
  last_phase = serverchallengeresp;
  server_secret = some (6 ∷ []);
  server_challenge = some [];
  client_hash = some (replicate 16 7);
}

abbrev pub answered_state : AppState
answered_state = record (fresh_state 0 []) { pairing_cache = (alice_key, answered_cache) ∷ [] }
