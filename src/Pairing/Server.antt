-- ===== src/Pairing/Server.antt =====
-- servers.cpp: `http_pair` with its four phases, the PIN page and `/unpair`, as steps on `AppState`.
-- The values of `crypto::random`, the name of a certificate's file and the outcome of a disk write
-- are arguments.
use steamos_containerized.Common.{
  ◌==◌, if◌then◌else◌, is_some, remove_if, Text, text, ◌=?◌, ℕ, Bool, true, false, not, Option,
  none, some, List, ◌∷◌, ◌++◌, map,
}
use steamos_containerized.Common.Assoc.{lookup, erase, insert}
use steamos_containerized.Pairing.Crypto.{Cert, Crypto}
use steamos_containerized.Pairing.Protocol.{
  Xml, get_paired, fail_pair, get_server_cert, send_server_challenge, get_client_hash, client_pair,
}
use steamos_containerized.Pairing.State.{
  PairPhase, no_phase, getservercert, clientchallenge, serverchallengeresp, clientpairingsecret,
  PairCache, Waiter, AppState, get_pair_cache, set_pair_cache, remove_pair_cache, add_paired_client,
  remove_paired_client,
}

-- The fields of the query string that `get_header` looks up, and the peer's address.
pub record PairRequest : Type 0 where
  pub salt : Option Text
  pub clientcert : Option Text
  pub uniqueid : Option Text
  pub clientchallenge : Option Text
  pub serverchallengeresp : Option Text
  pub clientpairingsecret : Option Text
  pub client_ip : Text

-- What the environment supplies to one request.
pub record Env : Type 0 where
  pub pin_secret : Text
  pub server_secret : Text
  pub server_challenge : Text
  pub iv : Text
  pub disk_ok : Bool

-- An answer with its HTTP status; none where the handler returns before it answers.
abbrev pub Reply : Type 0
Reply = Option (ℕ × Xml)

abbrev pub bad_request : Text → Reply
bad_request msg = some (400, fail_pair msg)

-- Phase 1: one pending PIN for each address.
unfoldable pub drop_pins_of : Text → List (Text × Text) → List (Text × Text)
drop_pins_of ip pins = remove_if (λ p. p.1 =? ip) pins

unfoldable pub pair_phase1 : Env → Text → Text → Text → Text → AppState → AppState × Reply
unfolding get_pair_cache remove_pair_cache drop_pins_of
pair_phase1 env cache_key client_ip salt client_cert_str st =
    if is_some (get_pair_cache cache_key st)
    then (remove_pair_cache cache_key st, bad_request (text "Out of order pair request (phase 1)"))
    else (
      record st {
        pending_pins = insert env.pin_secret client_ip (drop_pins_of client_ip st.pending_pins);
        waiters =
            record {
              secret = env.pin_secret;
              salt = salt;
              client_cert_str = client_cert_str;
              cache_key = cache_key;
              pin = none;
            }
            ∷ st.waiters;
      },
      none,
    )

abbrev pub is_phase : PairPhase → PairPhase → Bool
is_phase no_phase no_phase = true
is_phase getservercert getservercert = true
is_phase clientchallenge clientchallenge = true
is_phase serverchallengeresp serverchallengeresp = true
is_phase clientpairingsecret clientpairingsecret = true
is_phase _ _ = false

abbrev pub cache_key_of : Text → Text → Text
cache_key_of client_id client_ip = client_id ++ (text "@" ++ client_ip)

-- POST /pin/: the promise of the secret is set, once.
unfoldable pub set_value : Text → Text → List Waiter → List Waiter
set_value secret pin = map (λ w. if w.secret =? secret then record w { pin = some pin } else w)

unfoldable pub post_pin : Text → Text → AppState → AppState × ℕ
unfolding set_value
post_pin secret pin st =
    if is_some (lookup secret st.pending_pins)
    then (
      record st {
        pending_pins = erase secret st.pending_pins;
        waiters = set_value secret pin st.waiters;
      },
      200,
    )
    else (st, 404)

module _ (c : Crypto) (file_name : Text → Text) where
  unfoldable pub pair_phase2 : Env → Text → PairCache → Text → AppState → AppState × Reply
  unfolding set_pair_cache remove_pair_cache
  pair_phase2 env cache_key cache client_challenge st =
      if not (is_phase cache.last_phase getservercert)
      then (
        remove_pair_cache cache_key st,
        bad_request (text "Out of order pair request (phase 2)"),
      )
      else let (xml, secrets) =
          send_server_challenge c cache.aes_key client_challenge
            (c.get_cert_signature st.server_cert) env.server_secret env.server_challenge env.iv in
        (
          set_pair_cache cache_key
              (record cache {
                last_phase = clientchallenge;
                server_secret = some secrets.0;
                server_challenge = some secrets.1;
              })
              st,
          some (200, xml),
        )

  unfoldable pub pair_phase3 : Text → PairCache → Text → Text → AppState → AppState × Reply
  unfolding set_pair_cache remove_pair_cache
  pair_phase3 cache_key cache server_secret challenge_resp st =
      if not (is_phase cache.last_phase clientchallenge)
      then (
        remove_pair_cache cache_key st,
        bad_request (text "Out of order pair request (phase 3)"),
      )
      else let (xml, hash) =
          get_client_hash c cache.aes_key server_secret challenge_resp st.server_key in
        (
          set_pair_cache cache_key
              (record cache { last_phase = serverchallengeresp; client_hash = some hash }) st,
          some (200, xml),
        )

  -- Phase 4 from the parsed certificate on.
  unfoldable pub finish_pair :
      Env → Text → PairCache → Text → Text → Text → Cert → AppState → AppState × Reply
  unfolding add_paired_client remove_pair_cache
  finish_pair env cache_key cache server_challenge client_hash client_secret client_cert st =
      let client_sig = c.get_cert_signature client_cert in
      let public_key = c.get_cert_public_key client_cert in
      let xml = client_pair c server_challenge client_hash client_secret client_sig public_key in
      let is_paired = get_paired xml == 1 in
      let st' =
        if is_paired then add_paired_client file_name env.disk_ok cache.client_cert st else st in
      (remove_pair_cache cache_key st', some (if is_paired then 200 else 400, xml))

  unfoldable pub pair_phase4 :
      Env → Text → PairCache → Text → Text → Text → AppState → AppState × Reply
  unfolding finish_pair remove_pair_cache
  pair_phase4 env cache_key cache server_challenge client_hash client_secret st =
      if not (is_phase cache.last_phase serverchallengeresp)
      then (
        remove_pair_cache cache_key st,
        bad_request (text "Out of order pair request (phase 4)"),
      )
      else elim (c.cert_from_string cache.client_cert) [
        | none ↦ (
          remove_pair_cache cache_key st,
          bad_request (text "Unable to parse client certificate"),
        )
        | some cert ↦
            finish_pair env cache_key cache server_challenge client_hash client_secret cert st
      ]

  -- The last `if` asks for three values at once; without them no phase matches.
  abbrev pub try_phase4 :
      Env → Text → PairCache → Option Text → Option Text → Option Text → AppState → AppState × Reply
  try_phase4 env key cache (some secret) (some challenge) (some hash) st =
      pair_phase4 env key cache challenge hash secret st
  try_phase4 env key cache _ _ _ st = (st, none)

  abbrev pub try_phase3 :
      Env → PairRequest → Text → PairCache → Option Text → Option Text → AppState → AppState × Reply
  try_phase3 env req key cache (some resp) (some secret) st = pair_phase3 key cache secret resp st
  try_phase3 env req key cache _ _ st =
      try_phase4 env key cache req.clientpairingsecret cache.server_challenge cache.client_hash st

  abbrev pub try_phase2 :
      Env → PairRequest → Text → PairCache → Option Text → AppState → AppState × Reply
  try_phase2 env req key cache (some challenge) st = pair_phase2 env key cache challenge st
  try_phase2 env req key cache none st =
      try_phase3 env req key cache req.serverchallengeresp cache.server_secret st

  abbrev pub with_cache : Env → PairRequest → Text → Option PairCache → AppState → AppState × Reply
  with_cache env req key none st =
      (st, bad_request (text "Unable to find " ++ (key ++ text " in the pairing cache")))
  with_cache env req key (some cache) st = try_phase2 env req key cache req.clientchallenge st

  abbrev pub try_phase1 :
      Env → PairRequest → Text → Option Text → Option Text → AppState → AppState × Reply
  try_phase1 env req key (some salt) (some cert) st = pair_phase1 env key req.client_ip salt cert st
  try_phase1 env req key _ _ st = with_cache env req key (get_pair_cache key st) st

  abbrev pub pair_as : Env → PairRequest → Option Text → AppState → AppState × Reply
  pair_as env req none st =
      (st, bad_request (text "Received pair request without uniqueid, stopping."))
  pair_as env req (some client_id) st =
      try_phase1 env req (cache_key_of client_id req.client_ip) req.salt req.clientcert st

  unfoldable pub http_pair : Env → PairRequest → AppState → AppState × Reply
  http_pair env req st = pair_as env req req.uniqueid st

  -- The detached thread goes on: with the PIN, or after 180 s without one.
  unfoldable pub finish_wait : Waiter → Option Text → AppState → AppState × Reply
  unfolding set_pair_cache
  finish_wait w none st = (
    record st { pending_pins = erase w.secret st.pending_pins },
    bad_request (text "Timed out waiting for PIN"),
  )
  finish_wait w (some pin) st =
      let server_pem = c.get_cert_pem st.server_cert in
      let (xml, aes_key) = get_server_cert c pin w.salt server_pem in
      (
        set_pair_cache w.cache_key
            (record {
              client_cert = c.hex_to_str w.client_cert_str;
              aes_key = aes_key;
              last_phase = getservercert;
              server_secret = none;
              server_challenge = none;
              client_hash = none;
            })
            st,
        some (200, xml),
      )

  -- GET /unpair
  unfoldable pub unpair : Option Text → Text → AppState → AppState
  unfolding get_pair_cache remove_paired_client
  unpair client_id client_ip st = elim client_id [
    | none ↦ st
    | some id ↦ elim (get_pair_cache (cache_key_of id client_ip) st) [
      | none ↦ st
      | some cache ↦ remove_paired_client file_name cache.client_cert st
    ]
  ]
