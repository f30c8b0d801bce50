-- ===== src/Pairing/Crypto.antt =====
-- What the handshake calls of the crypto library (server/src/moonlight-protocol/crypto, a copy of
-- the one of Wolf, over OpenSSL). An `x509_ptr` is an opaque handle.
use steamos_containerized.Common.{
  ◌==◌, if◌then◌else◌, length, take, Text, ◌=?◌, ℕ, Bool, Option, none, some, [],
}

abbrev pub Cert : Type 0
Cert = ℕ

pub record Crypto : Type 0 where
  pub sha256 : Text → Text
  pub hex_to_str : Text → Text
  pub str_to_hex : Text → Text
  pub aes_encrypt_ecb : Text → Text → Text → Text
  pub aes_decrypt_ecb : Text → Text → Text
  pub sign : Text → Text → Text
  pub verify : Text → Text → Text → Bool
  pub cert_from_string : Text → Option Cert
  pub get_cert_pem : Cert → Text
  pub get_cert_signature : Cert → Text
  pub get_cert_public_key : Cert → Text
  pub verification_error : Option Cert → Cert → Option Text

-- A library for tests: it changes nothing, and a signature begins with what it signs.
abbrev pub plain_crypto : Crypto
plain_crypto = record {
  sha256 = λ t. t;
  hex_to_str = λ t. t;
  str_to_hex = λ t. t;
  aes_encrypt_ecb = λ m k iv. m;
  aes_decrypt_ecb = λ m k. m;
  sign = λ m k. m;
  verify = λ m s k. m =? take (length m) s;
  cert_from_string = λ t. some (length t);
  get_cert_pem = λ c. [];
  get_cert_signature = λ c. [];
  get_cert_public_key = λ c. [];
  verification_error = λ a b. elim a [ none ↦ some [] | some x ↦ if x == b then none else some [] ];
}
