-- ===== src/Pairing/Trust/Sound.antt =====
-- The invariant of the history of events, and the trusted clients (servers.cpp).
use steamos_containerized.Common.{
  Bool-cases, Option-cases, is_some, get_elem?, All, All-remove_if, All-append, In, Text, ℕ, ◌≡◌,
  refl, inl, inr, Option, none, some, List, [], ◌∷◌, arith,
}
use steamos_containerized.Common.Assoc.{lookup, Values-insert}
use steamos_containerized.Pairing.Crypto.{Cert, Crypto}
use steamos_containerized.Pairing.Protocol.{get_server_cert}
use steamos_containerized.Pairing.State.{PairCache, Waiter, AppState, fresh_state, get_pair_cache}
use steamos_containerized.Pairing.Server.{
  PairRequest, Env, cache_key_of, post_pin, try_phase4, try_phase3, try_phase2, with_cache,
  try_phase1, pair_as, http_pair, finish_wait, unpair,
}
use steamos_containerized.Pairing.Order.{http_pair-PairedBy}
use steamos_containerized.Pairing.Trust.{
  Event, pair_request, pin_posted, wake, unpair_request, wake_up, step, run, CacheOk, WaiterOk,
  Trusted, IsSound,
}
use steamos_containerized.Pairing.Trust.Keeps.{
  IsSound-mono, Proven-Trusted, CacheSound, phase1-cached, phase2-cached, phase3-cached,
  phase4-cached,
}
use steamos_containerized.Pairing.Trust.Waiting.{
  All-remove_at, All-get_elem?, set_value-WaiterOk, pair_as-Waits,
}

module _ (c : Crypto) (file_name : Text → Text) (h : List Event) where
  try_phase4-cached :
      (env : Env) (key : Text) (cache : PairCache) (s ch ha : Option Text) (st : AppState)
      → CacheSound c file_name h st
      → CacheSound c file_name h (try_phase4 c file_name env key cache s ch ha st).0
  try_phase4-cached env key cache none ch ha st v = v
  try_phase4-cached env key cache (some s) none ha st v = v
  try_phase4-cached env key cache (some s) (some ch) none st v = v
  try_phase4-cached env key cache (some s) (some ch) (some ha) st v =
      phase4-cached c file_name h env key cache ch ha s st v

  try_phase3-cached :
      (env : Env) (req : PairRequest) (key : Text) (cache : PairCache) (r s : Option Text)
      (st : AppState)
      → In (pair_request env req) h
      → req.serverchallengeresp ≡ r
      → CacheSound c file_name h st
      → CacheOk c h cache
      → CacheSound c file_name h (try_phase3 c file_name env req key cache r s st).0
  try_phase3-cached env req key cache none s st i b v ok =
      try_phase4-cached env key cache req.clientpairingsecret _ _ st v
  try_phase3-cached env req key cache (some r) none st i b v ok =
      try_phase4-cached env key cache req.clientpairingsecret _ _ st v
  try_phase3-cached env req key cache (some r) (some s) st i b v ok =
      phase3-cached c file_name h env req key cache s r st i b v ok

  try_phase2-cached :
      (env : Env) (req : PairRequest) (key : Text) (cache : PairCache) (ch : Option Text)
      (st : AppState)
      → In (pair_request env req) h
      → req.clientchallenge ≡ ch
      → CacheSound c file_name h st
      → CacheOk c h cache
      → CacheSound c file_name h (try_phase2 c file_name env req key cache ch st).0
  try_phase2-cached env req key cache none st i a v ok =
      try_phase3-cached env req key cache _ _ st i refl v ok
  try_phase2-cached env req key cache (some ch) st i a v ok =
      phase2-cached c file_name h env req key cache ch st i a v ok

  with_cache-cached :
      (env : Env) (req : PairRequest) (key : Text) (o : Option PairCache) (st : AppState)
      → In (pair_request env req) h
      → lookup key st.pairing_cache ≡ o
      → CacheSound c file_name h st
      → CacheSound c file_name h (with_cache c file_name env req key o st).0
  with_cache-cached env req key none st i e v = v
  with_cache-cached env req key (some cache) st i e v =
      try_phase2-cached env req key cache req.clientchallenge st i refl v (v key cache e)

  try_phase1-cached :
      (env : Env) (req : PairRequest) (key : Text) (salt cert : Option Text) (st : AppState)
      → In (pair_request env req) h
      → CacheSound c file_name h st
      → CacheSound c file_name h (try_phase1 c file_name env req key salt cert st).0
  unfolding get_pair_cache
  try_phase1-cached env req key none cert st i v = with_cache-cached env req key _ st i refl v
  try_phase1-cached env req key (some s) none st i v = with_cache-cached env req key _ st i refl v
  try_phase1-cached env req key (some s) (some t) st i v =
      phase1-cached c file_name h env key req.client_ip s t st v

  pair_as-cached :
      (env : Env) (req : PairRequest) (id : Option Text) (st : AppState)
      → In (pair_request env req) h
      → CacheSound c file_name h st
      → CacheSound c file_name h (pair_as c file_name env req id st).0
  pair_as-cached env req none st i v = v
  pair_as-cached env req (some id) st i v =
      try_phase1-cached env req (cache_key_of id req.client_ip) req.salt req.clientcert st i v

  pair_as-IsSound :
      (env : Env) (req : PairRequest) (st : AppState)
      → In (pair_request env req) h
      → IsSound c h st
      → IsSound c h (http_pair c file_name env req st).0
  pair_as-IsSound env req st i v = record {
    waiting = unfold http_pair in pair_as-Waits c file_name h env req req.uniqueid st i v.waiting;
    cached = unfold http_pair in pair_as-cached env req req.uniqueid st i v.cached;
    trusted = elim (http_pair-PairedBy c file_name env req st) [
      | inl same ↦ rw same v.trusted
      | inr p ↦ rw (p.adds) (
          All-append (Trusted c h) st.paired_clients _ v.trusted (
            Proven-Trusted c h p.cache p.secret (v.cached _ p.cache p.cached)
                (record { env = env; req = req; happened = i; brings = p.secret_is }) p.proven,
            tt,
          ))
    ];
  }

  post_pin-IsSound :
      (secret pin : Text) (st : AppState)
      → In (pin_posted secret pin) h
      → IsSound c h st
      → IsSound c h (post_pin secret pin st).0
  unfolding post_pin
  post_pin-IsSound secret pin st i v = elim (Bool-cases (is_some (lookup secret st.pending_pins))) [
    | inr n ↦ rw n v
    | inl y ↦ rw y (record {
      waiting = set_value-WaiterOk h secret pin st.waiters i v.waiting;
      cached = v.cached;
      trusted = v.trusted;
    })
  ]

  -- A thread that got its PIN puts an entry into the cache that the PIN accounts for.
  finish_wait-IsSound :
      (w : Waiter) (o : Option Text) (st : AppState)
      → w.pin ≡ o
      → WaiterOk h w
      → IsSound c h st
      → IsSound c h (finish_wait c file_name w o st).0
  unfolding finish_wait get_server_cert
  finish_wait-IsSound w none st e ok v = record {
    waiting = v.waiting;
    cached = v.cached;
    trusted = v.trusted;
  }
  finish_wait-IsSound w (some pin) st e ok v = elim ok.pin_ok [
    | inl n ↦ cc (n, e)
    | inr (pin', s, i) ↦ record {
      waiting = v.waiting;
      cached =
          Values-insert (CacheOk c h) w.cache_key _ st.pairing_cache
            (record {
              entered = record {
                secret = w.secret;
                salt = w.salt;
                cert_str = w.client_cert_str;
                pin = pin';
                asked = ok.asked;
                posted = i;
                pem_is = refl;
                key_is = ground (arith, s, e);
              };
              challenge_ok = inl refl;
              hash_ok = inl refl;
            })
            v.cached;
      trusted = v.trusted;
    }
  ]

  wake_up-IsSound :
      (n : ℕ) (o : Option Waiter) (st : AppState)
      → get_elem? st.waiters n ≡ o
      → IsSound c h st
      → IsSound c h (wake_up c file_name n o st)
  wake_up-IsSound n none st e v = v
  wake_up-IsSound n (some w) st e v =
      finish_wait-IsSound w w.pin _ refl (All-get_elem? (WaiterOk h) st.waiters n w v.waiting e)
        (record {
          waiting = All-remove_at (WaiterOk h) n st.waiters v.waiting;
          cached = v.cached;
          trusted = v.trusted;
        })

  unpair-IsSound :
      (id : Option Text) (ip : Text) (st : AppState)
      → IsSound c h st
      → IsSound c h (unpair c file_name id ip st)
  unfolding unpair
  unpair-IsSound none ip st v = v
  unpair-IsSound (some id) ip st v =
      elim (Option-cases (lookup (cache_key_of id ip) st.pairing_cache)) [
        | inl n ↦ rw (n, unpair) v
        | inr (cache, y) ↦
            rw (y, unpair)
              (record {
                waiting = v.waiting;
                cached = v.cached;
                trusted = All-remove_if (Trusted c h) _ st.paired_clients v.trusted;
              })
      ]

  step-IsSound :
      (e : Event) (st : AppState) → In e h → IsSound c h st → IsSound c h (step c file_name st e)
  step-IsSound (pair_request env req) st i v = pair_as-IsSound env req st i v
  step-IsSound (pin_posted secret pin) st i v = post_pin-IsSound secret pin st i v
  step-IsSound (wake n) st i v = wake_up-IsSound n _ st refl v
  step-IsSound (unpair_request id ip) st i v = unpair-IsSound id ip st v

module _ (c : Crypto) (file_name : Text → Text) where
  run-IsSound :
      (st : AppState) (h : List Event) → IsSound c [] st → IsSound c h (run c file_name st h)
  unfolding run
  run-IsSound st [] v = v
  run-IsSound st (e ∷ h) v =
      step-IsSound c file_name (e ∷ h) e (run c file_name st h) (inl refl)
        (IsSound-mono c h e _ (run-IsSound st h v))

  -- Starting with no clients, whatever pairing requests, PINs, timeouts and unpair requests
  -- arrive in whatever order, for every certificate that the server then trusts: it was sent in a pairing
  -- request whose one-time secret got a PIN; a challenge that the server drew for a phase 2 request was
  -- answered by a phase 3 request with its hash, under the key made of that PIN; and the secret that
  -- is hashed with it came in a phase 4 request, signed with the key of the certificate.
  pub run-Trusted :
      (cert : Cert) (key : Text) (h : List Event)
      → All (Trusted c h) (run c file_name (fresh_state cert key) h).paired_clients
  run-Trusted cert key h =
      (run-IsSound (fresh_state cert key) h (record {
        waiting = tt;
        cached = λ k cache e. unfold lookup in cc e;
        trusted = tt;
      })).trusted
