-- ===== src/Pairing/Branches.antt =====
-- What a pairing request does on the branches that refuse it (servers.cpp, `http_pair`).
use steamos_containerized.Common.{
  ap, ◌∙◌, Bool-cases, Text, ◌=?◌, =?_refl, ◌≡◌, refl, sym, subst, ◌≢◌, ◌⊎◌, inl, inr, true, false,
  Option, none, some, arith,
}
use steamos_containerized.Common.Assoc.{lookup, lookup-erase}
use steamos_containerized.Pairing.Crypto.{Crypto}
use steamos_containerized.Pairing.State.{
  PairPhase, getservercert, clientchallenge, serverchallengeresp, PairCache, AppState,
  get_pair_cache, remove_pair_cache,
}
use steamos_containerized.Pairing.Server.{
  PairRequest, Env, Reply, bad_request, is_phase, cache_key_of, pair_phase2, pair_phase3,
  pair_phase4, try_phase4, try_phase3, try_phase2, with_cache, try_phase1, pair_as, http_pair,
}

-- The phase that the cache must be in for a request with these fields; none where no phase fits.
abbrev demanded :
    Option Text
    → Option Text
    → Option Text
    → Option Text
    → Option Text
    → Option Text
    → Option PairPhase
demanded (some challenge) resp secret pairing ch ha = some getservercert
demanded none (some resp) (some secret) pairing ch ha = some clientchallenge
demanded none (some resp) none (some pairing) (some ch) (some ha) = some serverchallengeresp
demanded none none secret (some pairing) (some ch) (some ha) = some serverchallengeresp
demanded none _ _ _ _ _ = none

-- What kind of request it is by its fields, and the phase that its client must be in.
pub data Later (req : PairRequest) : PairPhase → Type 0 where
  phase2 : (t : Text) → req.clientchallenge ≡ some t → Later req getservercert
  phase3 :
      (t : Text)
      → req.clientchallenge ≡ none
      → req.serverchallengeresp ≡ some t
      → req.clientpairingsecret ≡ none
      → Later req clientchallenge
  phase4 :
      (t : Text)
      → req.clientchallenge ≡ none
      → req.serverchallengeresp ≡ none
      → req.clientpairingsecret ≡ some t
      → Later req serverchallengeresp

abbrev pub Has : Option Text → Type 0
Has o = (t : Text) × (o ≡ some t)

-- The request failed, and the client has to start over: its cache entry is gone.
pub record Refused (key : Text) (st : AppState) (out : AppState × Reply) : Type 0 where
  pub message : Text
  pub answer : out.1 ≡ bad_request message
  pub forgotten : lookup key out.0.pairing_cache ≡ none
  pub others_kept :
      (j : Text) → (key =? j) ≡ false → lookup j out.0.pairing_cache ≡ lookup j st.pairing_cache
  pub clients_kept : out.0.paired_clients ≡ st.paired_clients
  pub waiters_kept : out.0.waiters ≡ st.waiters

abbrev refusal : Text → Text → AppState → AppState × Reply
refusal key msg st = (remove_pair_cache key st, bad_request msg)

refusal-Refused : (key msg : Text) (st : AppState) → Refused key st (refusal key msg st)
unfolding remove_pair_cache
refusal-Refused key msg st = record {
  message = msg;
  answer = refl;
  forgotten = rw (lookup-erase key key, =?_refl key);
  others_kept = λ j n. rw (lookup-erase key j, n);
  clients_kept = refl;
  waiters_kept = refl;
}

is_phase_ne : (p q : PairPhase) → p ≢ q → is_phase p q ≡ false
is_phase_ne p q n = elim (Bool-cases (is_phase p q)) [
  | inr e ↦ e
  | inl e ↦ absurd (n (is_phase_eq' p q e))
]
  where
    is_phase_eq' : (p q : PairPhase) → is_phase p q ≡ true → p ≡ q
    is_phase_eq' p q h = ground arith

module _ (c : Crypto) (file_name : Text → Text) where
  try_phase4-Refused :
      (env : Env) (key : Text) (cache : PairCache) (p : PairPhase) (s ch ha : Option Text)
      (st : AppState)
      → demanded none none none s ch ha ≡ some p
      → cache.last_phase ≢ p
      → Refused key st (try_phase4 c file_name env key cache s ch ha st)
  unfolding pair_phase4
  try_phase4-Refused env key cache p none ch ha st d n = cc
  try_phase4-Refused env key cache p (some s) none ha st d n = cc
  try_phase4-Refused env key cache p (some s) (some ch) none st d n = cc
  try_phase4-Refused env key cache p (some s) (some ch) (some ha) st d n =
      rw (is_phase_ne cache.last_phase serverchallengeresp (λ e. n (ground arith)))
        (refusal-Refused key _ st)

  try_phase3-Refused :
      (env : Env) (req : PairRequest) (key : Text) (cache : PairCache) (p : PairPhase)
      (r s : Option Text) (st : AppState)
      → demanded none r s req.clientpairingsecret cache.server_challenge cache.client_hash ≡ some p
      → cache.last_phase ≢ p
      → Refused key st (try_phase3 c file_name env req key cache r s st)
  unfolding pair_phase3
  try_phase3-Refused env req key cache p none s st d n =
      try_phase4-Refused env key cache p _ _ _ st (ground arith) n
  try_phase3-Refused env req key cache p (some r) none st d n =
      try_phase4-Refused env key cache p _ _ _ st (ground arith) n
  try_phase3-Refused env req key cache p (some r) (some s) st d n =
      rw (is_phase_ne cache.last_phase clientchallenge (λ e. n (ground arith)))
        (refusal-Refused key _ st)

  try_phase2-Refused :
      (env : Env) (req : PairRequest) (key : Text) (cache : PairCache) (p : PairPhase)
      (ch : Option Text) (st : AppState)
      → demanded ch req.serverchallengeresp cache.server_secret req.clientpairingsecret
          cache.server_challenge cache.client_hash
        ≡ some p
      → cache.last_phase ≢ p
      → Refused key st (try_phase2 c file_name env req key cache ch st)
  unfolding pair_phase2
  try_phase2-Refused env req key cache p none st d n =
      try_phase3-Refused env req key cache p _ _ st d n
  try_phase2-Refused env req key cache p (some ch) st d n =
      rw (is_phase_ne cache.last_phase getservercert (λ e. n (ground arith)))
        (refusal-Refused key _ st)

  -- A request of a later phase than the first, for a client with an entry, is passed on to the phases.
  later_phase :
      (env : Env) (req : PairRequest) (st : AppState) (id : Text) (cache : PairCache)
      → req.uniqueid ≡ some id
      → (req.salt ≡ none) ⊎ (req.clientcert ≡ none)
      → lookup (cache_key_of id req.client_ip) st.pairing_cache ≡ some cache
      → http_pair c file_name env req st
        ≡ try_phase2 c file_name env req
            (cache_key_of id req.client_ip)
            cache
            req.clientchallenge
            st
  unfolding http_pair get_pair_cache
  later_phase env req st id cache i first l =
      ap (λ o. pair_as c file_name env req o st) i
      ∙ second req.salt req.clientcert first
      ∙ ap (λ o. with_cache c file_name env req key o st) l
    where
      key : Text
      key = cache_key_of id req.client_ip

      second :
          (salt cert : Option Text)
          → (salt ≡ none) ⊎ (cert ≡ none)
          → try_phase1 c file_name env req key salt cert st
            ≡ with_cache c file_name env req key (lookup key st.pairing_cache) st
      second none cert x = refl
      second (some a) none x = refl
      second (some a) (some b) x = elim x [ inl y ↦ absurd (cc y) | inr y ↦ absurd (cc y) ]

  -- What a request that the handler passes over leaves: all as it was, and no answer.
  abbrev pub PassedOver : AppState → AppState × Reply → Type 0
  PassedOver st out = out ≡ (st, none)

  -- How an out of order request ends: refused if what its phase works on is cached, else passed over.
  pub EndsRefused :
      PairRequest → Text → PairCache → AppState → AppState × Reply → PairPhase → Type 0
  EndsRefused req key cache st out getservercert = Refused key st out
  EndsRefused req key cache st out clientchallenge =
      (Has cache.server_secret × Refused key st out)
      ⊎ ((cache.server_secret ≡ none) × PassedOver st out)
  EndsRefused req key cache st out serverchallengeresp =
      ((Has cache.server_challenge × Has cache.client_hash) × Refused key st out)
      ⊎ (((cache.server_challenge ≡ none) ⊎ (cache.client_hash ≡ none)) × PassedOver st out)
  EndsRefused req key cache st out _ = Unit

  phase2_out_of_order :
      (env : Env) (req : PairRequest) (key : Text) (cache : PairCache) (st : AppState) (t : Text)
      → cache.last_phase ≢ getservercert
      → Refused key st (try_phase2 c file_name env req key cache (some t) st)
  phase2_out_of_order env req key cache st t n =
      try_phase2-Refused env req key cache getservercert (some t) st refl n

  phase3_out_of_order :
      (env : Env) (req : PairRequest) (key : Text) (cache : PairCache) (st : AppState)
      (secret : Option Text) (t : Text)
      → cache.server_secret ≡ secret
      → req.clientpairingsecret ≡ none
      → cache.last_phase ≢ clientchallenge
      → let out = try_phase3 c file_name env req key cache (some t) secret st in
        (Has cache.server_secret × Refused key st out)
        ⊎ ((cache.server_secret ≡ none) × PassedOver st out)
  phase3_out_of_order env req key cache st none t e p n = inr (e, (rw p refl))
  phase3_out_of_order env req key cache st (some s) t e p n =
      inl ((s, e), try_phase3-Refused env req key cache clientchallenge (some t) (some s) st refl n)

  phase4_out_of_order :
      (env : Env) (req : PairRequest) (key : Text) (cache : PairCache) (st : AppState) (t : Text)
      (challenge hash : Option Text)
      → cache.server_challenge ≡ challenge
      → cache.client_hash ≡ hash
      → cache.last_phase ≢ serverchallengeresp
      → let out = try_phase4 c file_name env key cache (some t) challenge hash st in
        ((Has cache.server_challenge × Has cache.client_hash) × Refused key st out)
        ⊎ (((cache.server_challenge ≡ none) ⊎ (cache.client_hash ≡ none)) × PassedOver st out)
  phase4_out_of_order env req key cache st t none hash a b n = inr (inl a, refl)
  phase4_out_of_order env req key cache st t (some ch) none a b n = inr (inr b, refl)
  phase4_out_of_order env req key cache st t (some ch) (some ha) a b n = inl (
    ((ch, a), (ha, b)),
    try_phase4-Refused env key cache serverchallengeresp (some t) (some ch) (some ha) st refl n,
  )

  -- A request of a later phase than the first, with no field of a phase after it, that arrives while
  -- its client is in another phase: if what its phase works on is cached, it is answered with status
  -- 400 and ends the handshake, which drops the entry of its client and leaves the other entries, the
  -- trusted clients and the waiting threads; if not, because a phase was left out, it gets no answer
  -- and changes nothing.
  pub http_pair_out_of_order :
      (env : Env) (req : PairRequest) (st : AppState) (id : Text) (cache : PairCache)
      (p : PairPhase)
      → req.uniqueid ≡ some id
      → (req.salt ≡ none) ⊎ (req.clientcert ≡ none)
      → lookup (cache_key_of id req.client_ip) st.pairing_cache ≡ some cache
      → Later req p
      → cache.last_phase ≢ p
      → EndsRefused req
          (cache_key_of id req.client_ip)
          cache
          st
          (http_pair c file_name env req st)
          p
  unfolding EndsRefused
  http_pair_out_of_order env req st id cache p i first l later n =
      subst (λ out. EndsRefused req key cache st out p)
        (sym (later_phase env req st id cache i first l)) (in_phase p later n)
    where
      key : Text
      key = cache_key_of id req.client_ip

      in_phase :
          (q : PairPhase)
          → Later req q
          → cache.last_phase ≢ q
          → EndsRefused req key cache st
              (try_phase2 c file_name env req key cache req.clientchallenge st)
              q
      in_phase _ (phase2 t a) ne = rw a (phase2_out_of_order env req key cache st t ne)
      in_phase _ (phase3 t a b d) ne =
          rw (a, b) (phase3_out_of_order env req key cache st cache.server_secret t refl d ne)
      in_phase _ (phase4 t a b d) ne =
          rw (a, b, d)
            (phase4_out_of_order env req key cache st t cache.server_challenge cache.client_hash
              refl refl ne)
