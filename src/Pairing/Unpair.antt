-- ===== src/Pairing/Unpair.antt =====
-- `/unpair` after a handshake (servers.cpp).
use steamos_containerized.Common.{
  Text, =?_refl, ◌≡◌, refl, subst, ◌≢◌, ◌⊎◌, inl, inr, Option, none, some, arith,
}
use steamos_containerized.Common.Assoc.{lookup, lookup-erase}
use steamos_containerized.Pairing.Crypto.{Crypto}
use steamos_containerized.Pairing.State.{PairCache, AppState}
use steamos_containerized.Pairing.Server.{
  PairRequest, Env, pair_phase1, cache_key_of, pair_phase2, pair_phase3, pair_phase4, try_phase4,
  try_phase3, try_phase2, with_cache, try_phase1, pair_as, http_pair, unpair,
}

-- The clients are as before, or the cache has no entry for the key.
abbrev Settled : Text → AppState → AppState → Type 0
Settled key st st' =
    (st'.paired_clients ≡ st.paired_clients) ⊎ (lookup key st'.pairing_cache ≡ none)

module _ (c : Crypto) (file_name : Text → Text) where
  phase4-lookup :
      (env : Env) (key : Text) (cache : PairCache) (ch ha s : Text) (st : AppState)
      → lookup key (pair_phase4 c file_name env key cache ch ha s st).0.pairing_cache ≡ none
  unfolding pair_phase4
  phase4-lookup env key cache ch ha s st =
      ground (arith, lookup-erase key key st.pairing_cache, =?_refl key)

  try_phase4-Settled :
      (env : Env) (key : Text) (cache : PairCache) (s ch ha : Option Text) (st : AppState)
      → Settled key st (try_phase4 c file_name env key cache s ch ha st).0
  try_phase4-Settled env key cache none ch ha st = inl refl
  try_phase4-Settled env key cache (some s) none ha st = inl refl
  try_phase4-Settled env key cache (some s) (some ch) none st = inl refl
  try_phase4-Settled env key cache (some s) (some ch) (some ha) st =
      inr (phase4-lookup env key cache ch ha s st)

  try_phase3-Settled :
      (env : Env) (req : PairRequest) (key : Text) (cache : PairCache) (r s : Option Text)
      (st : AppState)
      → Settled key st (try_phase3 c file_name env req key cache r s st).0
  unfolding pair_phase3
  try_phase3-Settled env req key cache none s st = try_phase4-Settled env key cache _ _ _ st
  try_phase3-Settled env req key cache (some r) none st = try_phase4-Settled env key cache _ _ _ st
  try_phase3-Settled env req key cache (some r) (some s) st = inl (ground arith)

  with_cache-Settled :
      (env : Env) (req : PairRequest) (key : Text) (cache : PairCache) (ch : Option Text)
      (st : AppState)
      → Settled key st (try_phase2 c file_name env req key cache ch st).0
  unfolding pair_phase2
  with_cache-Settled env req key cache none st = try_phase3-Settled env req key cache _ _ st
  with_cache-Settled env req key cache (some ch) st = inl (ground arith)

  looked_up-Settled :
      (env : Env) (req : PairRequest) (key : Text) (o : Option PairCache) (st : AppState)
      → Settled key st (with_cache c file_name env req key o st).0
  looked_up-Settled env req key none st = inl refl
  looked_up-Settled env req key (some cache) st =
      with_cache-Settled env req key cache req.clientchallenge st

  try_phase1-Settled :
      (env : Env) (req : PairRequest) (key : Text) (salt cert : Option Text) (st : AppState)
      → Settled key st (try_phase1 c file_name env req key salt cert st).0
  unfolding pair_phase1
  try_phase1-Settled env req key none cert st = looked_up-Settled env req key _ st
  try_phase1-Settled env req key (some a) none st = looked_up-Settled env req key _ st
  try_phase1-Settled env req key (some a) (some b) st = inl (ground arith)

  -- Where the cache has no entry for a client, its unpair request changes nothing.
  unpair_uncached :
      (id ip : Text) (st : AppState)
      → lookup (cache_key_of id ip) st.pairing_cache ≡ none
      → unpair c file_name (some id) ip st ≡ st
  unfolding unpair
  unpair_uncached id ip st e = rw (e, unpair)

  -- Right after the request that pairs a client, an unpair request of the same client changes
  -- nothing: the server goes on trusting its certificate, and keeps its file.
  pub unpair_after_pair :
      (env : Env) (req : PairRequest) (st : AppState) (id : Text)
      → req.uniqueid ≡ some id
      → (http_pair c file_name env req st).0.paired_clients ≢ st.paired_clients
      → unpair c file_name (some id) req.client_ip (http_pair c file_name env req st).0
        ≡ (http_pair c file_name env req st).0
  unfolding http_pair
  unpair_after_pair env req st id i changed =
      unpair_uncached id req.client_ip _ (go req.uniqueid i (unfold http_pair in changed))
    where
      go :
          (o : Option Text)
          → o ≡ some id
          → (pair_as c file_name env req o st).0.paired_clients ≢ st.paired_clients
          → lookup
              (cache_key_of id req.client_ip)
              (pair_as c file_name env req o st).0.pairing_cache
            ≡ none
      go none e ne = cc
      go (some j) e ne =
          let same_id : j ≡ id = ground arith in
          subst
            (λ k.
              lookup (cache_key_of k req.client_ip)
                (pair_as c file_name env req (some j) st).0.pairing_cache
              ≡ none)
            same_id
            (elim (try_phase1-Settled env req (cache_key_of j req.client_ip) req.salt req.clientcert
              st) [ inl same ↦ absurd (ne same) | inr gone ↦ gone ])
