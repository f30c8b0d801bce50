-- ===== src/Tests/Restarts.antt =====
-- Starts of the server on state directories.
use steamos_containerized.Common.{
  ◌⊎◌, length, In, text, ◌≡◌, refl, inl, inr, true, false, none, some, [], ◌∷◌,
}
use steamos_containerized.Pairing.State.{AppState, fresh_state, add_paired_client}
use steamos_containerized.Identity.{
  Disk, both, Library, Host, Started, inconsistent_identity, file_ok, write_to_disk, load_all,
  init_identity, pkey_from_file, cert_from_file, unreadable_cert, init, cert_from_file,
}
use steamos_containerized.Identity.Restart.{
  Works, Stays, WholeOrThrows, Persists, init_again, stored_identity_kept, paired_after_restart,
}

abbrev dots : Library
dots = record {
  extension = λ name. text ".pem";
  read_certificate = λ t. length t;
  read_private_key = λ t. t;
}

abbrev a_host : Host
a_host = record {
  makes_directories = true;
  lists_clients = true;
  generates = true;
  opens_key = true;
  opens_cert = true;
  allow_new = false;
  new_key = 1 ∷ [];
  new_cert = 2 ∷ 2 ∷ [];
  written = both;
  draws = [];
  uuid_written = true;
  host = [];
  first_mac = [];
}

abbrev empty_disk : Disk
empty_disk = record { clients_dir = []; key_pem = none; cert_pem = some []; uuid_file = none }

abbrev first_start : Started
first_start =
    (load_all dots a_host (1 ∷ []) 2
      (record empty_disk { key_pem = some (1 ∷ []); cert_pem = some (2 ∷ 2 ∷ []) })).0

a_host-Persists : Persists a_host
a_host-Persists = record { key = refl; cert = refl; saved = refl }

a_host-Works : Works a_host
a_host-Works = record { directories = refl; listing = refl; key_opens = refl; cert_opens = refl }

-- A certificate that cannot be opened ends the start.
cert_refused :
    (init dots
      (record a_host { opens_cert = false })
      (record empty_disk { key_pem = some (1 ∷ []); cert_pem = some (2 ∷ []) })).0
    ≡ inl unreadable_cert
unfolding init init_identity file_ok pkey_from_file cert_from_file
cert_refused = refl

starts : (init dots a_host empty_disk).0 ≡ inr first_start
unfolding init init_identity file_ok write_to_disk pkey_from_file cert_from_file
starts = refl

-- A key without its certificate is refused.
half_refused :
    (init dots a_host (record empty_disk { key_pem = some (9 ∷ []) })).0 ≡ inl inconsistent_identity
unfolding init init_identity file_ok
half_refused = refl

init_again_example :
    (s' : Started) × (init dots a_host (init dots a_host empty_disk).1
      ≡ (inr s', (init dots a_host empty_disk).1))
    × (s'.pairing ≡ first_start.pairing)
    × (s'.uuid ≡ first_start.uuid)
init_again_example =
    init_again dots a_host a_host empty_disk first_start a_host-Persists a_host-Works starts

abbrev half_disk : Disk
half_disk = record empty_disk { key_pem = some (9 ∷ []) }

stored_identity_kept_example :
    ((init dots a_host half_disk).1.clients_dir ≡ [])
    × ((false ≡ true)
        ⊎ (Stays (some (9 ∷ [])) (init dots a_host half_disk).1.key_pem
            × (Stays (some []) (init dots a_host half_disk).1.cert_pem
                × (Stays none (init dots a_host half_disk).1.uuid_file
                    × WholeOrThrows dots a_host half_disk))))
stored_identity_kept_example = stored_identity_kept dots a_host half_disk

-- One client is trusted, and then another one.
abbrev trusting : AppState
trusting = record (fresh_state 2 (1 ∷ [])) {
  paired_clients = (8 ∷ []) ∷ [];
  clients_dir = (8 ∷ [], 8 ∷ []) ∷ [];
}

abbrev paired_disk : Disk
paired_disk = record empty_disk {
  clients_dir = (add_paired_client (λ t. t) true (7 ∷ []) trusting).clients_dir;
}

abbrev paired_start : Started
paired_start =
    (load_all dots a_host (1 ∷ []) 2
      (record paired_disk { key_pem = some (1 ∷ []); cert_pem = some (2 ∷ 2 ∷ []) })).0

paired_starts : (init dots a_host paired_disk).0 ≡ inr paired_start
unfolding init init_identity file_ok write_to_disk pkey_from_file cert_from_file
paired_starts = refl

paired_after_restart_example : In (8 ∷ []) paired_start.pairing.paired_clients
paired_after_restart_example =
    paired_after_restart dots a_host (λ t. t) (7 ∷ []) (8 ∷ []) (8 ∷ []) trusting empty_disk
      paired_start (inr (λ e. cc e, inl refl)) refl refl paired_starts
