-- ===== src/Pairing/Order.antt =====
-- One request of the handshake, and the clients that it pairs (servers.cpp, `http_pair`).
use steamos_containerized.Common.Assoc.{lookup}
use steamos_containerized.Common.{
  ◌==◌, ==_iff, Bool-cases, Option-cases, length, take, drop, Text, =?_iff, ◌≤◌, ◌≡◌, refl, ◌⊎◌,
  inl, inr, true, some, List, [], ◌∷◌, ◌++◌, arith, Option, none,
}
use steamos_containerized.Pairing.Crypto.{Cert, Crypto}
use steamos_containerized.Pairing.Protocol.{get_paired, client_pair}
use steamos_containerized.Pairing.State.{
  PairPhase, serverchallengeresp, PairCache, AppState, get_pair_cache,
}
use steamos_containerized.Pairing.Server.{
  Env, is_phase, finish_pair, pair_phase4, PairRequest, pair_phase1, pair_phase2, pair_phase3,
  try_phase4, try_phase3, try_phase2, with_cache, try_phase1, cache_key_of, http_pair, pair_as,
}

-- What must hold for the cached client `cache` when it presents `secret` in phase 4: the phase was
-- reached, the certificate parses, the hash of the server's challenge, of the certificate's
-- signature and of the client's secret is the cached one, and the client signed its secret.
pub record Proven (c : Crypto) (cache : PairCache) (secret : Text) : Type 0 where
  pub cert : Cert
  pub challenge : Text
  pub hash : Text
  pub phase : cache.last_phase ≡ serverchallengeresp
  pub parsed : c.cert_from_string cache.client_cert ≡ some cert
  pub challenge_is : cache.server_challenge ≡ some challenge
  pub hash_is : cache.client_hash ≡ some hash
  pub long_enough : 256 ≤ length (c.hex_to_str secret)
  pub hash_matches :
      c.hex_to_str
        (c.sha256 (challenge ++ (c.get_cert_signature cert ++ take 16 (c.hex_to_str secret))))
      ≡ hash
  pub signed :
      c.verify
        (take 16 (c.hex_to_str secret))
        (take 256 (drop 16 (c.hex_to_str secret)))
        (c.get_cert_public_key cert)
      ≡ true

-- `client_pair` answers paired=1 exactly if the three checks pass.
client_pair_lem :
    (c : Crypto) (challenge hash secret sig key : Text)
    → get_paired (client_pair c challenge hash secret sig key) ≡ 1
    → (256 ≤ length (c.hex_to_str secret))
      × (c.hex_to_str (c.sha256 (challenge ++ (sig ++ take 16 (c.hex_to_str secret)))) ≡ hash)
      × (c.verify (take 16 (c.hex_to_str secret)) (take 256 (drop 16 (c.hex_to_str secret))) key
          ≡ true)
unfolding client_pair
client_pair_lem c challenge hash secret sig key h = ground (
  arith,
  =?_iff (c.hex_to_str (c.sha256 (challenge ++ (sig ++ take 16 (c.hex_to_str secret))))) hash,
)

-- The clients after a step: as before, or one more, whose proof was checked.
abbrev pub Pairs : Crypto → PairCache → Text → List Text → List Text → Type 0
Pairs c cache secret old new =
    (new ≡ old) ⊎ ((new ≡ old ++ cache.client_cert ∷ []) × Proven c cache secret)

is_phase_eq : (p q : PairPhase) → is_phase p q ≡ true → p ≡ q
is_phase_eq p q h = ground arith

module _ (c : Crypto) (file_name : Text → Text) where
  finish_pair-Pairs :
      (env : Env) (key : Text) (cache : PairCache) (challenge hash secret : Text) (cert : Cert)
      (st : AppState)
      → cache.last_phase ≡ serverchallengeresp
      → c.cert_from_string cache.client_cert ≡ some cert
      → cache.server_challenge ≡ some challenge
      → cache.client_hash ≡ some hash
      → Pairs c cache secret st.paired_clients
          (finish_pair c file_name env key cache challenge hash secret cert st).0.paired_clients
  unfolding finish_pair
  finish_pair-Pairs env key cache challenge hash secret cert st ph pa ch ha =
      let sig = c.get_cert_signature cert in
      let pub_key = c.get_cert_public_key cert in
      elim (Bool-cases (get_paired (client_pair c challenge hash secret sig pub_key) == 1)) [
        | inl e ↦
            let (long, same, signature) =
              client_pair_lem c challenge hash secret sig pub_key ((==_iff _ 1).0 e) in
            rw e (
              inr (
                refl,
                record {
                  cert = cert;
                  challenge = challenge;
                  hash = hash;
                  phase = ph;
                  parsed = pa;
                  challenge_is = ch;
                  hash_is = ha;
                  long_enough = long;
                  hash_matches = same;
                  signed = signature;
                },
              ))
        | inr e ↦ rw e (inl refl)
      ]

  phase4-Pairs :
      (env : Env) (key : Text) (cache : PairCache) (challenge hash secret : Text) (st : AppState)
      → cache.server_challenge ≡ some challenge
      → cache.client_hash ≡ some hash
      → Pairs c cache secret st.paired_clients
          (pair_phase4 c file_name env key cache challenge hash secret st).0.paired_clients
  unfolding pair_phase4
  phase4-Pairs env key cache challenge hash secret st ch ha =
      elim (Bool-cases (is_phase cache.last_phase serverchallengeresp)) [
        | inr e ↦ rw e (inl refl)
        | inl e ↦ rw e (elim (Option-cases (c.cert_from_string cache.client_cert)) [
          | inl n ↦ rw n (inl refl)
          | inr (cert, p) ↦ rw p (
              unfold finish_pair in
              finish_pair-Pairs env key cache challenge hash secret cert st (is_phase_eq _ _ e) p ch
                ha)
        ])
      ]

  -- The request that pairs the client of `cache`.
  pub record PairedBy (req : PairRequest) (st : AppState) (new : List Text) : Type 0 where
    pub client_id : Text
    pub cache : PairCache
    pub secret : Text
    pub id_is : req.uniqueid ≡ some client_id
    pub cached : lookup (cache_key_of client_id req.client_ip) st.pairing_cache ≡ some cache
    pub secret_is : req.clientpairingsecret ≡ some secret
    pub adds : new ≡ st.paired_clients ++ cache.client_cert ∷ []
    pub proven : Proven c cache secret

  try_phase4-Pairs :
      (env : Env) (key : Text) (cache : PairCache) (o challenge hash : Option Text) (st : AppState)
      → cache.server_challenge ≡ challenge
      → cache.client_hash ≡ hash
      → ((try_phase4 c file_name env key cache o challenge hash st).0.paired_clients
          ≡ st.paired_clients)
        ⊎ ((secret : Text) × (o ≡ some secret)
            × Pairs c cache secret st.paired_clients
                (try_phase4 c file_name env key cache o challenge hash st).0.paired_clients)
  try_phase4-Pairs env key cache none ch ha st p q = inl refl
  try_phase4-Pairs env key cache (some secret) none ha st p q = inl refl
  try_phase4-Pairs env key cache (some secret) (some ch) none st p q = inl refl
  try_phase4-Pairs env key cache (some secret) (some ch) (some ha) st p q =
      inr (secret, refl, phase4-Pairs env key cache ch ha secret st p q)

  phase2-paired :
      (env : Env) (key : Text) (cache : PairCache) (challenge : Text) (st : AppState)
      → (pair_phase2 c file_name env key cache challenge st).0.paired_clients ≡ st.paired_clients
  unfolding pair_phase2
  phase2-paired env key cache challenge st = ground arith

  phase3-paired :
      (key : Text) (cache : PairCache) (secret resp : Text) (st : AppState)
      → (pair_phase3 c file_name key cache secret resp st).0.paired_clients ≡ st.paired_clients
  unfolding pair_phase3
  phase3-paired key cache secret resp st = ground arith

  phase1-paired :
      (env : Env) (key ip salt cert : Text) (st : AppState)
      → (pair_phase1 env key ip salt cert st).0.paired_clients ≡ st.paired_clients
  unfolding pair_phase1
  phase1-paired env key ip salt cert st = ground arith

  abbrev CachedPairs : Env → PairRequest → Text → PairCache → AppState → AppState → Type 0
  CachedPairs env req key cache st st' =
      (st'.paired_clients ≡ st.paired_clients)
      ⊎ ((secret : Text) × (req.clientpairingsecret ≡ some secret)
          × Pairs c cache secret st.paired_clients st'.paired_clients)

  try_phase3-Pairs :
      (env : Env) (req : PairRequest) (key : Text) (cache : PairCache) (resp secret : Option Text)
      (st : AppState)
      → CachedPairs env req key cache st (try_phase3 c file_name env req key cache resp secret st).0
  try_phase3-Pairs env req key cache none secret st =
      try_phase4-Pairs env key cache req.clientpairingsecret _ _ st refl refl
  try_phase3-Pairs env req key cache (some r) none st =
      try_phase4-Pairs env key cache req.clientpairingsecret _ _ st refl refl
  try_phase3-Pairs env req key cache (some r) (some s) st = inl (phase3-paired key cache s r st)

  with_cache-Pairs :
      (env : Env) (req : PairRequest) (key : Text) (cache : PairCache) (challenge : Option Text)
      (st : AppState)
      → CachedPairs env req key cache st (try_phase2 c file_name env req key cache challenge st).0
  with_cache-Pairs env req key cache none st =
      try_phase3-Pairs env req key cache req.serverchallengeresp cache.server_secret st
  with_cache-Pairs env req key cache (some ch) st = inl (phase2-paired env key cache ch st)

  PairedBy-cached :
      (env : Env) (req : PairRequest) (id : Text) (o : Option PairCache) (st : AppState)
      → req.uniqueid ≡ some id
      → lookup (cache_key_of id req.client_ip) st.pairing_cache ≡ o
      → ((with_cache c file_name env req (cache_key_of id req.client_ip) o st).0.paired_clients
          ≡ st.paired_clients)
        ⊎ PairedBy req st
            (with_cache c file_name env req (cache_key_of id req.client_ip) o st).0.paired_clients
  PairedBy-cached env req id none st i l = inl refl
  PairedBy-cached env req id (some cache) st i l =
      elim (with_cache-Pairs env req (cache_key_of id req.client_ip) cache req.clientchallenge st) [
        | inl same ↦ inl same
        | inr (secret, e, inl same) ↦ inl same
        | inr (secret, e, inr (adds, proven)) ↦ inr (record {
          client_id = id;
          cache = cache;
          secret = secret;
          id_is = i;
          cached = l;
          secret_is = e;
          adds = adds;
          proven = proven;
        })
      ]

  try_phase1-PairedBy :
      (env : Env) (req : PairRequest) (id : Text) (salt cert : Option Text) (st : AppState)
      → req.uniqueid ≡ some id
      → ((try_phase1 c file_name env req
            (cache_key_of id req.client_ip)
            salt
            cert
            st).0.paired_clients
          ≡ st.paired_clients)
        ⊎ PairedBy req st
            (try_phase1 c file_name env req
              (cache_key_of id req.client_ip)
              salt
              cert
              st).0.paired_clients
  unfolding get_pair_cache
  try_phase1-PairedBy env req id none cert st i = PairedBy-cached env req id _ st i refl
  try_phase1-PairedBy env req id (some s) none st i = PairedBy-cached env req id _ st i refl
  try_phase1-PairedBy env req id (some s) (some t) st i =
      inl (phase1-paired env (cache_key_of id req.client_ip) req.client_ip s t st)

  pair_as-PairedBy :
      (env : Env) (req : PairRequest) (o : Option Text) (st : AppState)
      → req.uniqueid ≡ o
      → ((pair_as c file_name env req o st).0.paired_clients ≡ st.paired_clients)
        ⊎ PairedBy req st (pair_as c file_name env req o st).0.paired_clients
  pair_as-PairedBy env req none st e = inl refl
  pair_as-PairedBy env req (some id) st e =
      try_phase1-PairedBy env req id req.salt req.clientcert st e

  -- A pairing request leaves the paired clients as they are, or adds the one certificate that is
  -- cached under its key, and then it is a phase 4 request whose proof passed every check.
  pub http_pair-PairedBy :
      (env : Env) (req : PairRequest) (st : AppState)
      → ((http_pair c file_name env req st).0.paired_clients ≡ st.paired_clients)
        ⊎ PairedBy req st (http_pair c file_name env req st).0.paired_clients
  unfolding http_pair
  http_pair-PairedBy env req st = pair_as-PairedBy env req req.uniqueid st refl
