-- ===== src/Pairing/State.antt =====
-- The pairing part of `AppState` (state.hpp, state.cpp), and the PINs that are awaited
-- (`g_pending_pins` and the detached threads of servers.cpp).
use steamos_containerized.Common.{
  if◌then◌else◌, find_if, remove_if, Text, ◌=?◌, Bool, not, Option, none, some, List, [], ◌∷◌, ◌++◌,
  is_some,
}
use steamos_containerized.Common.Assoc.{lookup, erase, insert}
use steamos_containerized.Pairing.Crypto.{Cert, Crypto}

pub data PairPhase : Type 0 where
  no_phase getservercert clientchallenge serverchallengeresp clientpairingsecret : PairPhase

pub record PairCache : Type 0 where
  pub client_cert : Text
  pub aes_key : Text
  pub last_phase : PairPhase
  pub server_secret : Option Text
  pub server_challenge : Option Text
  pub client_hash : Option Text

-- A detached thread of phase 1: what its lambda captured, and the value of its promise.
pub record Waiter : Type 0 where
  pub secret : Text
  pub salt : Text
  pub client_cert_str : Text
  pub cache_key : Text
  pub pin : Option Text

-- `clients_dir` holds the files of state_dir/clients by name, and `server_cert`, `server_key` are
-- the identity. A pending PIN is its secret with the `client_ip` that asked for it.
pub record AppState : Type 0 where
  pub pairing_cache : List (Text × PairCache)
  pub paired_clients : List Text
  pub clients_dir : List (Text × Text)
  pub pending_pins : List (Text × Text)
  pub waiters : List Waiter
  pub server_cert : Cert
  pub server_key : Text

abbrev pub fresh_state : Cert → Text → AppState
fresh_state cert key = record {
  pairing_cache = [];
  paired_clients = [];
  clients_dir = [];
  pending_pins = [];
  waiters = [];
  server_cert = cert;
  server_key = key;
}

unfoldable pub get_pair_cache : Text → AppState → Option PairCache
get_pair_cache key st = lookup key st.pairing_cache

unfoldable pub set_pair_cache : Text → PairCache → AppState → AppState
set_pair_cache key v st = record st { pairing_cache = insert key v st.pairing_cache }

unfoldable pub remove_pair_cache : Text → AppState → AppState
remove_pair_cache key st = record st { pairing_cache = erase key st.pairing_cache }

-- `write_file`: the temporary file is renamed over `path` only after a complete write, so a failed
-- write or rename (`disk_ok` is false) leaves the directory as it was.
abbrev pub write_file : Bool → Text → Text → List (Text × Text) → List (Text × Text)
write_file disk_ok path content files = if disk_ok then insert path content files else files

-- `file_name` is the name built from `std::hash` of the certificate.
unfoldable pub add_paired_client : (Text → Text) → Bool → Text → AppState → AppState
add_paired_client file_name disk_ok pem st = record st {
  paired_clients = st.paired_clients ++ pem ∷ [];
  clients_dir = write_file disk_ok (file_name pem) pem st.clients_dir;
}

unfoldable pub remove_paired_client : (Text → Text) → Text → AppState → AppState
remove_paired_client file_name pem st = record st {
  paired_clients = remove_if (λ p. p =? pem) st.paired_clients;
  clients_dir = erase (file_name pem) st.clients_dir;
}

-- The first stored certificate against which the presented one verifies. A stored text that does
-- not parse is handed over as a null pointer.
abbrev pub verifies : Crypto → Cert → Text → Bool
verifies c client_cert pem =
    not (is_some (c.verification_error (c.cert_from_string pem) client_cert))

unfoldable pub get_client_via_ssl : Crypto → Option Cert → AppState → Option Text
get_client_via_ssl c none st = none
get_client_via_ssl c (some client_cert) st = find_if (verifies c client_cert) st.paired_clients
