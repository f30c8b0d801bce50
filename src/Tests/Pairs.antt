-- ===== src/Tests/Pairs.antt =====
-- A handshake from the first request to the last, and the theorems about it.
use steamos_containerized.Common.{All, Text, text, ◌=?◌, ◌≡◌, refl, ◌⊎◌, inl, List, [], ◌∷◌}
use steamos_containerized.Common.Assoc.{lookup, insert}
use steamos_containerized.Pairing.Crypto.{plain_crypto}
use steamos_containerized.Pairing.State.{getservercert, fresh_state, get_pair_cache}
use steamos_containerized.Pairing.Protocol.{
  gen_aes_key, get_server_cert, send_server_challenge, get_client_hash, client_pair,
}
use steamos_containerized.Pairing.Server.{
  pair_phase1, post_pin, pair_phase2, pair_phase3, finish_pair, pair_phase4, http_pair, finish_wait,
}
use steamos_containerized.Pairing.Trust.{
  Event, pair_request, pin_posted, wake, remove_at, run, Trusted,
}
use steamos_containerized.Pairing.Trust.Sound.{run-Trusted}
use steamos_containerized.Pairing.Order.{PairedBy, http_pair-PairedBy}
use steamos_containerized.Pairing.Branches.{phase2, EndsRefused, http_pair_out_of_order}
use steamos_containerized.Tests.Data.{
  alice_pem, pair_env, alice_id, alice_key, phase1_request, phase2_request, phase3_request,
  phase4_request, answered_cache, answered_state,
}

abbrev no_name : Text → Text
no_name t = t

-- Newest first.
abbrev handshake : List Event
handshake =
    pair_request pair_env phase4_request
    ∷ pair_request pair_env phase3_request
    ∷ pair_request pair_env phase2_request
    ∷ wake 0
    ∷ pin_posted (5 ∷ []) (1 ∷ [])
    ∷ pair_request pair_env phase1_request
    ∷ []

handshake_pairs :
    (run plain_crypto no_name (fresh_state 0 []) handshake).paired_clients ≡ alice_pem ∷ []
unfolding run http_pair pair_phase1 pair_phase2 pair_phase3 pair_phase4 finish_pair post_pin
    finish_wait client_pair get_client_hash send_server_challenge get_server_cert gen_aes_key
    remove_at lookup insert ◌=?◌ text
handshake_pairs = refl

run-Trusted_example :
    All
      (Trusted plain_crypto handshake)
      (run plain_crypto no_name (fresh_state 0 []) handshake).paired_clients
run-Trusted_example = run-Trusted plain_crypto no_name 0 [] handshake

http_pair-PairedBy_example :
    ((http_pair plain_crypto no_name pair_env phase4_request answered_state).0.paired_clients
      ≡ answered_state.paired_clients)
    ⊎ PairedBy plain_crypto no_name phase4_request answered_state
        (http_pair plain_crypto no_name pair_env phase4_request answered_state).0.paired_clients
http_pair-PairedBy_example =
    http_pair-PairedBy plain_crypto no_name pair_env phase4_request answered_state

http_pair_out_of_order_example :
    EndsRefused plain_crypto no_name phase2_request alice_key answered_cache answered_state
      (http_pair plain_crypto no_name pair_env phase2_request answered_state)
      getservercert
unfolding ◌=?◌ text
http_pair_out_of_order_example =
    http_pair_out_of_order plain_crypto no_name pair_env phase2_request answered_state alice_id
      answered_cache getservercert refl (inl refl) (unfold lookup in refl) (phase2 _ refl) (λ e. cc)

phase4_pairs :
    (http_pair plain_crypto no_name pair_env phase4_request answered_state).0.paired_clients
    ≡ alice_pem ∷ []
unfolding http_pair pair_phase4 finish_pair client_pair get_pair_cache lookup ◌=?◌ text
phase4_pairs = refl
