-- ===== src/Pairing/Trust.antt =====
-- The handshake as a whole: requests, PINs, timeouts and unpair requests in any order (servers.cpp,
-- moonlight_proto.cpp), and what it takes to become a trusted client.
pub mod Keeps
pub mod Waiting
pub mod Sound
use steamos_containerized.Common.{
  take, drop, get_elem?, All, In, Text, ℕ, zero, suc, ◌≡◌, ◌⊎◌, true, Option, none, some, List, [],
  ◌∷◌, ◌++◌,
}
use steamos_containerized.Common.Assoc.{lookup}
use steamos_containerized.Pairing.Crypto.{Cert, Crypto}
use steamos_containerized.Pairing.Protocol.{gen_aes_key}
use steamos_containerized.Pairing.State.{
  PairCache, Waiter, AppState, clientchallenge, serverchallengeresp, clientpairingsecret,
}
use steamos_containerized.Pairing.Server.{
  PairRequest, Env, http_pair, post_pin, finish_wait, unpair,
}

-- `wake n` lets the n-th waiting thread go on, with its PIN or by its timeout.
pub data Event : Type 0 where
  pair_request : Env → PairRequest → Event
  pin_posted : Text → Text → Event
  wake : ℕ → Event
  unpair_request : Option Text → Text → Event

unfoldable pub remove_at : ℕ → List Waiter → List Waiter
remove_at n [] = []
remove_at zero (w ∷ ws) = ws
remove_at (suc n) (w ∷ ws) = w ∷ remove_at n ws

module _ (c : Crypto) (file_name : Text → Text) where
  abbrev pub wake_up : ℕ → Option Waiter → AppState → AppState
  wake_up n none st = st
  wake_up n (some w) st =
      (finish_wait c file_name w w.pin (record st { waiters = remove_at n st.waiters })).0

  abbrev pub step : AppState → Event → AppState
  step st (pair_request env req) = (http_pair c file_name env req st).0
  step st (pin_posted secret pin) = (post_pin secret pin st).0
  step st (wake n) = wake_up n (get_elem? st.waiters n) st
  step st (unpair_request id ip) = unpair c file_name id ip st

  -- The history is kept newest event first.
  unfoldable pub run : AppState → List Event → AppState
  run st [] = st
  run st (e ∷ es) = step (run st es) e

-- A phase 1 request with this salt and certificate was answered with this one-time secret.
pub record Asked (h : List Event) (secret salt cert_str : Text) : Type 0 where
  pub env : Env
  pub req : PairRequest
  pub happened : In (pair_request env req) h
  pub salt_is : req.salt ≡ some salt
  pub cert_is : req.clientcert ≡ some cert_str
  pub secret_is : env.pin_secret ≡ secret

-- And somebody posted this PIN for the secret.
pub record Entered (c : Crypto) (h : List Event) (pem aes_key : Text) : Type 0 where
  pub secret : Text
  pub salt : Text
  pub cert_str : Text
  pub pin : Text
  pub asked : Asked h secret salt cert_str
  pub posted : In (pin_posted secret pin) h
  pub pem_is : pem ≡ c.hex_to_str cert_str
  pub key_is : aes_key ≡ gen_aes_key c salt pin

-- What the server drew when it answered a phase 2 request.
pub record Challenged (h : List Event) (challenge : Text) : Type 0 where
  pub env : Env
  pub req : PairRequest
  pub client_challenge : Text
  pub happened : In (pair_request env req) h
  pub asks : req.clientchallenge ≡ some client_challenge
  pub drawn : challenge ≡ env.server_challenge

-- A phase 3 request brought this response.
pub record Answered (h : List Event) (resp : Text) : Type 0 where
  pub env : Env
  pub req : PairRequest
  pub happened : In (pair_request env req) h
  pub brings : req.serverchallengeresp ≡ some resp

-- A phase 4 request brought this secret.
pub record Revealed (h : List Event) (secret : Text) : Type 0 where
  pub env : Env
  pub req : PairRequest
  pub happened : In (pair_request env req) h
  pub brings : req.clientpairingsecret ≡ some secret

abbrev pub ChallengeOk : List Event → Option Text → Type 0
ChallengeOk h o = (o ≡ none) ⊎ ((t : Text) × (o ≡ some t) × Challenged h t)

-- The hash that a client sent back under the key of the PIN.
abbrev pub HashOk : Crypto → List Event → Text → Option Text → Type 0
HashOk c h aes_key o =
    (o ≡ none)
    ⊎ ((resp : Text) × (o ≡ some (c.aes_decrypt_ecb (c.hex_to_str resp) aes_key)) × Answered h resp)

pub record CacheOk (c : Crypto) (h : List Event) (cache : PairCache) : Type 0 where
  pub entered : Entered c h cache.client_cert cache.aes_key
  pub challenge_ok : ChallengeOk h cache.server_challenge
  pub hash_ok : HashOk c h cache.aes_key cache.client_hash

abbrev pub PinOk : List Event → Text → Option Text → Type 0
PinOk h secret o = (o ≡ none) ⊎ ((pin : Text) × (o ≡ some pin) × In (pin_posted secret pin) h)

pub record WaiterOk (h : List Event) (w : Waiter) : Type 0 where
  pub asked : Asked h w.secret w.salt w.client_cert_str
  pub pin_ok : PinOk h w.secret w.pin

-- `pem` was sent with a pairing request whose one-time secret got a PIN. A challenge that the server
-- drew was answered, under the key that the PIN gives, by a request with a hash over it, and over a
-- secret that a request brought with its signature by the key of `pem`.
pub record Trusted (c : Crypto) (h : List Event) (pem : Text) : Type 0 where
  pub aes_key : Text
  pub entered : Entered c h pem aes_key
  pub cert : Cert
  pub challenge : Text
  pub answer : Text
  pub secret : Text
  pub challenged : Challenged h challenge
  pub answered : Answered h answer
  pub revealed : Revealed h secret
  pub parsed : c.cert_from_string pem ≡ some cert
  pub answers :
      c.hex_to_str
        (c.sha256 (challenge ++ (c.get_cert_signature cert ++ take 16 (c.hex_to_str secret))))
      ≡ c.aes_decrypt_ecb (c.hex_to_str answer) aes_key
  pub signed :
      c.verify
        (take 16 (c.hex_to_str secret))
        (take 256 (drop 16 (c.hex_to_str secret)))
        (c.get_cert_public_key cert)
      ≡ true

pub record IsSound (c : Crypto) (h : List Event) (st : AppState) : Type 0 where
  pub waiting : All (WaiterOk h) st.waiters
  pub cached :
      (k : Text) (cache : PairCache) → lookup k st.pairing_cache ≡ some cache → CacheOk c h cache
  pub trusted : All (Trusted c h) st.paired_clients
