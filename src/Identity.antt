-- ===== src/Identity.antt =====
-- state.cpp (server/src/server): `AppState::init`, as a function of the state directory. A file is
-- its text, or `none` if there is no regular file. What is generated, how far the writes come, and
-- whether directories are made and files opened are told by the host. A client's file and the uuid are
-- read by a stream that gives the empty text if it cannot be opened: they are what that read gives.
pub mod Clients
pub mod Restart
use steamos_containerized.Common.{
  ltb, ◌==◌, if◌then◌else◌, is_some, Text, text, ◌=?◌, is_empty, ℕ, ◌+◌, ◌%◌, ◌⊎◌, inl, inr, Bool,
  true, false, not, ◌&&◌, ◌||◌, Option, none, some, List, [], ◌∷◌,
}
use steamos_containerized.Pairing.Crypto.{Cert}
use steamos_containerized.Pairing.State.{AppState, fresh_state}

abbrev pub File : Type 0
File = Option Text

pub record Disk : Type 0 where
  pub clients_dir : List (Text × Text)
  pub key_pem : File
  pub cert_pem : File
  pub uuid_file : File

-- `x509::write_to_disk` renames the key and then the certificate into place, and throws at the first
-- step that fails.
pub data Written : Type 0 where
  nothing only_key both : Written

-- `fs::path::extension`, and OpenSSL's `PEM_read_bio_X509` and `PEM_read_bio_PrivateKey` on the text of
-- a file.
pub record Library : Type 0 where
  pub extension : Text → Text
  pub read_certificate : Text → Cert
  pub read_private_key : Text → Text

pub record Host : Type 0 where
  pub makes_directories : Bool
  pub lists_clients : Bool
  pub allow_new : Bool  -- STEAM_STREAM_ALLOW_NEW_IDENTITY is set
  pub generates : Bool
  pub new_key : Text
  pub new_cert : Text
  pub written : Written
  pub opens_key : Bool
  pub opens_cert : Bool
  pub draws : List ℕ  -- from 0 to 15
  pub uuid_written : Bool
  pub host : Text
  pub first_mac : Text

-- The part of `AppState` that `init` fills.
pub record Started : Type 0 where
  pub pairing : AppState
  pub uuid : Text
  pub hostname : Text
  pub mac_address : Text
  pub display_modes : List (ℕ × ℕ × ℕ)
  pub apps : List (Text × Text × Bool)

-- What `init` throws.
pub data InitError : Type 0 where
  no_directory no_listing : InitError
  inconsistent_identity not_generated write_failed : InitError
  unreadable_key unreadable_cert : InitError

abbrev pub Outcome : Type 0
Outcome = InitError ⊎ Started

unfoldable pub file_ok : File → Bool
file_ok none = false
file_ok (some t) = not (is_empty t)

abbrev pub read_file : File → Text
read_file none = []
read_file (some t) = t

abbrev keep_pem : Text → List Text → List Text
keep_pem pem rest = if is_empty pem then rest else pem ∷ rest

unfoldable pub load_clients : (Text → Text) → List (Text × Text) → List Text
unfolding ◌=?◌
load_clients ext [] = []
load_clients ext ((name, pem) ∷ dir) =
    let rest = load_clients ext dir in if ext name =? text ".pem" then keep_pem pem rest else rest

-- The characters of the format, an `x` or a `y` with the next number drawn.
abbrev pub hex_digit : ℕ → ℕ
hex_digit d = if ltb d 10 then 48 + d else 87 + d

abbrev next_draw : List ℕ → ℕ × List ℕ
next_draw [] = (0, [])
next_draw (d ∷ ds) = (d, ds)

unfoldable pub fill_uuid : Text → List ℕ → Text
fill_uuid [] ds = []
fill_uuid (c ∷ fmt) ds =
    let (d, rest) = next_draw ds in
    let drawn = fill_uuid fmt rest in
    let kept = fill_uuid fmt ds in
    if c == 120
    then hex_digit d ∷ drawn
    else if c == 121
    then hex_digit (d % 4 + 8) ∷ drawn
    else c ∷ kept

unfoldable pub gen_uuid : List ℕ → Text
unfolding fill_uuid
gen_uuid ds = fill_uuid (text "xxxxxxxx-xxxx-4xxx-yxxx-xxxxxxxxxxxx") ds

-- The disk after `x509::write_to_disk`, and whether it returned.
unfoldable pub write_to_disk : Host → Disk → Disk × Bool
write_to_disk h d = elim h.written [
  | nothing ↦ (d, false)
  | only_key ↦ (record d { key_pem = some h.new_key }, false)
  | both ↦ (record d { key_pem = some h.new_key; cert_pem = some h.new_cert }, true)
]

unfoldable pub load_uuid : Host → Disk → Text × Disk
unfolding file_ok gen_uuid
load_uuid h d = if file_ok d.uuid_file then (read_file d.uuid_file, d) else (
  gen_uuid h.draws,
  if h.uuid_written then record d { uuid_file = some (gen_uuid h.draws) } else d,
)

-- `x509::pkey_from_file` and `x509::cert_from_file`, none where they throw because the file is not
-- there or cannot be opened.
unfoldable pub pkey_from_file : Library → Bool → File → Option Text
pkey_from_file lib opens f =
    if opens && is_some f then some (lib.read_private_key (read_file f)) else none

unfoldable pub cert_from_file : Library → Bool → File → Option Cert
cert_from_file lib opens f =
    if opens && is_some f then some (lib.read_certificate (read_file f)) else none

-- The start once the key and the certificate are read.
unfoldable pub load_all : Library → Host → Text → Cert → Disk → Started × Disk
unfolding load_clients load_uuid
load_all lib h key cert d =
    let (uuid, after) = load_uuid h d in
    (
      record {
        pairing = record (fresh_state cert key) {
          paired_clients = load_clients lib.extension d.clients_dir;
          clients_dir = d.clients_dir;
        };
        uuid = uuid;
        hostname = if is_empty h.host then text "steam-stream" else h.host;
        mac_address = h.first_mac;
        display_modes = (1920, 1080, 60) ∷ (1280, 720, 60) ∷ [];
        apps =
            (text "Steam Big Picture", text "1", false)
            ∷ (text "Steam Desktop", text "2", false)
            ∷ [];
      },
      after,
    )

abbrev pub read_identity : Library → Host → Disk → Option Text → Option Cert → Outcome × Disk
read_identity lib h d none cert = (inl unreadable_key, d)
read_identity lib h d (some key) none = (inl unreadable_cert, d)
read_identity lib h d (some key) (some cert) =
    let (s, after) = load_all lib h key cert d in (inr s, after)

abbrev pub finish_init : Library → Host → Disk × Bool → Outcome × Disk
finish_init lib h (d, false) = (inl write_failed, d)
finish_init lib h (d, true) =
    read_identity lib h d (pkey_from_file lib h.opens_key d.key_pem)
      (cert_from_file lib h.opens_cert d.cert_pem)

abbrev pub xor : Bool → Bool → Bool
xor true b = not b
xor false b = b

abbrev pub generate : Library → Host → Disk → Outcome × Disk
generate lib h d =
    if h.generates then finish_init lib h (write_to_disk h d) else (inl not_generated, d)

-- `init` once the directories are there and the clients are listed.
unfoldable pub init_identity : Library → Host → Disk → Outcome × Disk
unfolding file_ok write_to_disk load_all pkey_from_file cert_from_file
init_identity lib h d =
    let have_key = file_ok d.key_pem in
    let have_cert = file_ok d.cert_pem in
    if xor have_key have_cert && not h.allow_new
    then (inl inconsistent_identity, d)
    else if not have_key || not have_cert
    then generate lib h d
    else finish_init lib h (d, true)

unfoldable pub init : Library → Host → Disk → Outcome × Disk
unfolding init_identity
init lib h d =
    if not h.makes_directories
    then (inl no_directory, d)
    else if not h.lists_clients
    then (inl no_listing, d)
    else init_identity lib h d
