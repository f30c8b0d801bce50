-- ===== src/Pairing/Trust/Waiting.antt =====
-- The waiting threads: what the events do to them.
use steamos_containerized.Common.{
  Bool-cases, is_some, get_elem?, All, In, Text, ◌=?◌, =?_iff, ℕ, zero, suc, ◌≡◌, refl, sym, subst,
  inl, inr, Option, none, some, List, [], ◌∷◌, arith,
}
use steamos_containerized.Common.Assoc.{lookup}
use steamos_containerized.Pairing.Crypto.{Crypto}
use steamos_containerized.Pairing.State.{PairCache, Waiter, AppState, get_pair_cache}
use steamos_containerized.Pairing.Server.{
  PairRequest, Env, pair_phase1, pair_phase2, pair_phase3, pair_phase4, try_phase4, try_phase3,
  with_cache, pair_as, set_value, cache_key_of, try_phase1,
}
use steamos_containerized.Pairing.Trust.{Event, pair_request, pin_posted, remove_at, WaiterOk}

pub All-remove_at {κ} :
    (P : Waiter → Type κ) (n : ℕ) (ws : List Waiter) → All P ws → All P (remove_at n ws)
unfolding remove_at
All-remove_at P n [] f = tt
All-remove_at P zero (w ∷ ws) f = f.1
All-remove_at P (suc n) (w ∷ ws) f = (f.0, All-remove_at P n ws f.1)

pub All-get_elem? :
    (P : Waiter → Type 0) (ws : List Waiter) (n : ℕ) (w : Waiter)
    → All P ws
    → get_elem? ws n ≡ some w
    → P w
All-get_elem? P [] n w f e = cc
All-get_elem? P (x ∷ ws) zero w f e = subst P (ground arith) f.0
All-get_elem? P (x ∷ ws) (suc n) w f e = All-get_elem? P ws n w f.1 e

pub set_value-WaiterOk :
    (h : List Event) (secret pin : Text) (ws : List Waiter)
    → In (pin_posted secret pin) h
    → All (WaiterOk h) ws
    → All (WaiterOk h) (set_value secret pin ws)
unfolding set_value
set_value-WaiterOk h secret pin [] i f = tt
set_value-WaiterOk h secret pin (w ∷ ws) i f = (
  elim (Bool-cases (w.secret =? secret)) [
    | inr n ↦ rw n f.0
    | inl t ↦ rw t (record {
      asked = f.0.asked;
      pin_ok =
          inr (
            pin,
            refl,
            subst (λ s. In (pin_posted s pin) h) (sym ((=?_iff w.secret secret).0 t)) i,
          );
    })
  ],
  set_value-WaiterOk h secret pin ws i f.1,
)

module _ (c : Crypto) (file_name : Text → Text) (h : List Event) where
  -- The waiters after a pairing request that is part of the history.
  abbrev pub Waits : AppState → Type 0
  Waits st = All (WaiterOk h) st.waiters

  phase1-Waits :
      (env : Env) (req : PairRequest) (key salt cert : Text) (st : AppState)
      → In (pair_request env req) h
      → req.salt ≡ some salt
      → req.clientcert ≡ some cert
      → Waits st
      → Waits (pair_phase1 env key req.client_ip salt cert st).0
  unfolding pair_phase1
  phase1-Waits env req key salt cert st i s t v =
      elim (Bool-cases (is_some (lookup key st.pairing_cache))) [
        | inl y ↦ rw y v
        | inr n ↦ rw n (
          record {
            asked = record {
              env = env;
              req = req;
              happened = i;
              salt_is = s;
              cert_is = t;
              secret_is = refl;
            };
            pin_ok = inl refl;
          },
          v,
        )
      ]

  phase4-waiters :
      (env : Env) (key : Text) (cache : PairCache) (challenge hash secret : Text) (st : AppState)
      → (pair_phase4 c file_name env key cache challenge hash secret st).0.waiters ≡ st.waiters
  unfolding pair_phase4
  phase4-waiters env key cache challenge hash secret st = ground arith

  phase2-waiters :
      (env : Env) (key : Text) (cache : PairCache) (challenge : Text) (st : AppState)
      → (pair_phase2 c file_name env key cache challenge st).0.waiters ≡ st.waiters
  unfolding pair_phase2
  phase2-waiters env key cache challenge st = ground arith

  phase3-waiters :
      (key : Text) (cache : PairCache) (secret resp : Text) (st : AppState)
      → (pair_phase3 c file_name key cache secret resp st).0.waiters ≡ st.waiters
  unfolding pair_phase3
  phase3-waiters key cache secret resp st = ground arith

  try_phase4-waiters :
      (env : Env) (key : Text) (cache : PairCache) (s ch ha : Option Text) (st : AppState)
      → (try_phase4 c file_name env key cache s ch ha st).0.waiters ≡ st.waiters
  try_phase4-waiters env key cache none ch ha st = refl
  try_phase4-waiters env key cache (some s) none ha st = refl
  try_phase4-waiters env key cache (some s) (some ch) none st = refl
  try_phase4-waiters env key cache (some s) (some ch) (some ha) st =
      phase4-waiters env key cache ch ha s st

  try_phase3-waiters :
      (env : Env) (req : PairRequest) (key : Text) (cache : PairCache) (r s : Option Text)
      (st : AppState)
      → (try_phase3 c file_name env req key cache r s st).0.waiters ≡ st.waiters
  try_phase3-waiters env req key cache none s st = try_phase4-waiters env key cache _ _ _ st
  try_phase3-waiters env req key cache (some r) none st = try_phase4-waiters env key cache _ _ _ st
  try_phase3-waiters env req key cache (some r) (some s) st = phase3-waiters key cache s r st

  with_cache-waiters :
      (env : Env) (req : PairRequest) (key : Text) (o : Option PairCache) (ch : Option Text)
      (st : AppState)
      → req.clientchallenge ≡ ch
      → (with_cache c file_name env req key o st).0.waiters ≡ st.waiters
  with_cache-waiters env req key none ch st e = refl
  with_cache-waiters env req key (some cache) none st e =
      rw e (try_phase3-waiters env req key cache _ _ st)
  with_cache-waiters env req key (some cache) (some ch) st e =
      rw e (phase2-waiters env key cache ch st)

  try_phase1-Waits :
      (env : Env) (req : PairRequest) (key : Text) (salt cert : Option Text) (st : AppState)
      → In (pair_request env req) h
      → req.salt ≡ salt
      → req.clientcert ≡ cert
      → Waits st
      → Waits (try_phase1 c file_name env req key salt cert st).0
  try_phase1-Waits env req key none cert st i s t v =
      rw (with_cache-waiters env req key (get_pair_cache key st) req.clientchallenge st refl) v
  try_phase1-Waits env req key (some x) none st i s t v =
      rw (with_cache-waiters env req key (get_pair_cache key st) req.clientchallenge st refl) v
  try_phase1-Waits env req key (some x) (some y) st i s t v =
      phase1-Waits env req key x y st i s t v

  pub pair_as-Waits :
      (env : Env) (req : PairRequest) (id : Option Text) (st : AppState)
      → In (pair_request env req) h
      → Waits st
      → Waits (pair_as c file_name env req id st).0
  pair_as-Waits env req none st i v = v
  pair_as-Waits env req (some id) st i v =
      try_phase1-Waits env req (cache_key_of id req.client_ip) req.salt req.clientcert st i refl
        refl v
