-- ===== src/Pairing/Protocol.antt =====
-- moonlight_proto.cpp, namespace `pair`, and `fail_pair` of rest_helpers.hpp. The property tree of
-- an answer is the list of what was `put`, one constructor for each path that the source uses.
use steamos_containerized.Common.{
  ltb, if◌then◌else◌, length, take, drop, replicate, Text, text, ◌=?◌, ℕ, not, List, [], ◌∷◌, ◌++◌,
}
use steamos_containerized.Pairing.Crypto.{Crypto}

pub data XmlNode : Type 0 where
  paired : ℕ → XmlNode
  status_code : ℕ → XmlNode
  status_message : Text → XmlNode
  query : Text → XmlNode
  plaincert : Text → XmlNode
  challengeresponse : Text → XmlNode
  pairingsecret : Text → XmlNode
  session_url : Text → XmlNode
  gamesession : ℕ → XmlNode
  resume : ℕ → XmlNode
  cancel : ℕ → XmlNode

abbrev pub Xml : Type 0
Xml = List XmlNode

-- `xml.get<int>("root.paired")`, on answers that hold it.
abbrev pub get_paired : Xml → ℕ
get_paired [] = 0
get_paired (paired n ∷ xs) = n
get_paired (x ∷ xs) = get_paired xs

abbrev pub fail_pair : Text → Xml
fail_pair msg = paired 0 ∷ status_code 400 ∷ status_message msg ∷ []

-- `std::string::resize`
abbrev pub resize : ℕ → Text → Text
resize n t = take n (t ++ replicate n 0)

module _ (c : Crypto) where
  unfoldable pub gen_aes_key : Text → Text → Text
  gen_aes_key salt pin =
      let salt_parsed = c.hex_to_str salt in
      resize 16 (c.hex_to_str (c.sha256 (salt_parsed ++ pin)))

  unfoldable pub get_server_cert : Text → Text → Text → Xml × Text
  get_server_cert user_pin salt server_cert_pem =
      let key = gen_aes_key salt user_pin in
      let cert_hex = c.str_to_hex server_cert_pem in
      (paired 1 ∷ plaincert cert_hex ∷ status_code 200 ∷ [], key)

  -- `iv` is the `crypto::random(AES_BLOCK_SIZE)` of the call.
  unfoldable pub send_server_challenge :
      Text → Text → Text → Text → Text → Text → Xml × (Text × Text)
  send_server_challenge aes_key client_challenge server_cert_signature server_secret
        server_challenge iv =
      let client_challenge_hex = c.hex_to_str client_challenge in
      let decrypted_challenge = c.aes_decrypt_ecb client_challenge_hex aes_key in
      let hash =
        c.hex_to_str (c.sha256 (decrypted_challenge ++ (server_cert_signature ++ server_secret))) in
      let plain_text = hash ++ server_challenge in
      let encrypted = c.aes_encrypt_ecb plain_text aes_key iv in
      (
        paired 1 ∷ challengeresponse (c.str_to_hex encrypted) ∷ status_code 200 ∷ [],
        (server_secret, server_challenge),
      )

  unfoldable pub get_client_hash : Text → Text → Text → Text → Xml × Text
  get_client_hash aes_key server_secret server_challenge_resp server_cert_private_key =
      let server_challenge_hex = c.hex_to_str server_challenge_resp in
      let decrypted_challenge = c.aes_decrypt_ecb server_challenge_hex aes_key in
      let signature = c.sign server_secret server_cert_private_key in
      (
        pairingsecret (c.str_to_hex (server_secret ++ signature)) ∷ paired 1 ∷ status_code 200 ∷ [],
        decrypted_challenge,
      )

  abbrev pub refuse : Text → Xml
  refuse msg = paired 0 ∷ status_code 400 ∷ status_message msg ∷ []

  unfoldable pub client_pair : Text → Text → Text → Text → Text → Xml
  client_pair server_challenge client_hash client_pairing_secret client_public_cert_signature
        client_cert_public_key =
      let digest_size : ℕ = 256 in
      let pairing_secret = c.hex_to_str client_pairing_secret in
      let client_secret = take 16 pairing_secret in
      let client_signature = take digest_size (drop 16 pairing_secret) in
      let hash =
        c.hex_to_str
          (c.sha256 (server_challenge ++ (client_public_cert_signature ++ client_secret))) in
      if ltb (length pairing_secret) digest_size
      then refuse (text "Invalid pairing secret")
      else if not (hash =? client_hash)
      then refuse (text "Invalid client hash")
      else if c.verify client_secret client_signature client_cert_public_key
      then paired 1 ∷ status_code 200 ∷ []
      else refuse (text "Invalid client signature")
