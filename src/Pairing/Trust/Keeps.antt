-- ===== src/Pairing/Trust/Keeps.antt =====
-- The cache entries, through each phase of a request and each event (servers.cpp).
use steamos_containerized.Common.{
  In, ◌≡◌, Option, some, sym, subst, ◌∙◌, ◌==◌, Bool-cases, Option-cases, is_some, All-map, Text,
  refl, inl, inr, List, ◌∷◌, arith,
}
use steamos_containerized.Common.Assoc.{lookup, Values, Values-erase, Values-insert}
use steamos_containerized.Pairing.Crypto.{Crypto}
use steamos_containerized.Pairing.Protocol.{
  get_paired, get_client_hash, send_server_challenge, client_pair,
}
use steamos_containerized.Pairing.State.{
  getservercert, clientchallenge, serverchallengeresp, PairCache, Waiter, AppState,
}
use steamos_containerized.Pairing.Server.{
  Env, PairRequest, pair_phase1, is_phase, pair_phase2, pair_phase3, pair_phase4,
}
use steamos_containerized.Pairing.Order.{Proven}
use steamos_containerized.Pairing.Trust.{
  Event, pair_request, Challenged, Answered, Revealed, Asked, Entered, CacheOk, WaiterOk, Trusted,
  IsSound,
}

module _ (c : Crypto) (h : List Event) (e : Event) where
  Asked-mono : {a b d : Text} → Asked h a b d → Asked (e ∷ h) a b d
  Asked-mono k = record {
    env = k.env;
    req = k.req;
    happened = inr k.happened;
    salt_is = k.salt_is;
    cert_is = k.cert_is;
    secret_is = k.secret_is;
  }

  Entered-mono : (p k : Text) → Entered c h p k → Entered c (e ∷ h) p k
  Entered-mono p k x = record {
    secret = x.secret;
    salt = x.salt;
    cert_str = x.cert_str;
    pin = x.pin;
    asked = Asked-mono x.asked;
    posted = inr x.posted;
    pem_is = x.pem_is;
    key_is = x.key_is;
  }

  Challenged-mono : (t : Text) → Challenged h t → Challenged (e ∷ h) t
  Challenged-mono t x = record {
    env = x.env;
    req = x.req;
    client_challenge = x.client_challenge;
    happened = inr x.happened;
    asks = x.asks;
    drawn = x.drawn;
  }

  Answered-mono : (t : Text) → Answered h t → Answered (e ∷ h) t
  Answered-mono t x = record {
    env = x.env;
    req = x.req;
    happened = inr x.happened;
    brings = x.brings;
  }

  Revealed-mono : (t : Text) → Revealed h t → Revealed (e ∷ h) t
  Revealed-mono t x = record {
    env = x.env;
    req = x.req;
    happened = inr x.happened;
    brings = x.brings;
  }

  CacheOk-mono : (cache : PairCache) → CacheOk c h cache → CacheOk c (e ∷ h) cache
  CacheOk-mono cache old = record {
    entered = Entered-mono _ _ old.entered;
    challenge_ok = elim old.challenge_ok [
      | inl n ↦ inl n
      | inr (t, s, x) ↦ inr (t, s, Challenged-mono t x)
    ];
    hash_ok = elim old.hash_ok [
      | inl n ↦ inl n
      | inr (resp, s, x) ↦ inr (resp, s, Answered-mono resp x)
    ];
  }

  WaiterOk-mono : (w : Waiter) → WaiterOk h w → WaiterOk (e ∷ h) w
  WaiterOk-mono w k = record {
    asked = Asked-mono k.asked;
    pin_ok = elim k.pin_ok [ inl n ↦ inl n | inr (pin, s, i) ↦ inr (pin, s, inr i) ];
  }

  Trusted-mono : (p : Text) → Trusted c h p → Trusted c (e ∷ h) p
  Trusted-mono p k = record {
    aes_key = k.aes_key;
    entered = Entered-mono p k.aes_key k.entered;
    cert = k.cert;
    challenge = k.challenge;
    answer = k.answer;
    secret = k.secret;
    challenged = Challenged-mono k.challenge k.challenged;
    answered = Answered-mono k.answer k.answered;
    revealed = Revealed-mono k.secret k.revealed;
    parsed = k.parsed;
    answers = k.answers;
    signed = k.signed;
  }

  pub IsSound-mono : (st : AppState) → IsSound c h st → IsSound c (e ∷ h) st
  IsSound-mono st v = record {
    waiting = All-map (WaiterOk h) _ st.waiters WaiterOk-mono v.waiting;
    cached = λ k cache l. CacheOk-mono cache (v.cached k cache l);
    trusted = All-map (Trusted c h) _ st.paired_clients Trusted-mono v.trusted;
  }

some_eq : {a b : Text} → ◌≡◌ {A = Option Text} (some a) (some b) → a ≡ b
some_eq e = cc e

-- The checks of phase 4 on a sound cache entry are what `Trusted` asks for.
pub Proven-Trusted :
    (c : Crypto) (h : List Event) (cache : PairCache) (secret : Text)
    → CacheOk c h cache
    → Revealed h secret
    → Proven c cache secret
    → Trusted c h cache.client_cert
Proven-Trusted c h cache secret ok shown p = elim ok.challenge_ok [
  | inl n ↦ cc (n, p.challenge_is)
  | inr (challenge, d, drawn) ↦ elim ok.hash_ok [
    | inl n ↦ cc (n, p.hash_is)
    | inr (resp, r, from) ↦ record {
      aes_key = cache.aes_key;
      entered = ok.entered;
      cert = p.cert;
      challenge = p.challenge;
      answer = resp;
      secret = secret;
      challenged = subst (Challenged h) (some_eq (sym d ∙ p.challenge_is)) drawn;
      answered = from;
      revealed = shown;
      parsed = p.parsed;
      answers = ground (arith, p.hash_matches, p.hash_is, r);
      signed = p.signed;
    }
  ]
]

module _ (c : Crypto) (file_name : Text → Text) (h : List Event) where
  abbrev pub CacheSound : AppState → Type 0
  CacheSound st = Values (CacheOk c h) st.pairing_cache

  pub phase1-cached :
      (env : Env) (key ip salt cert : Text) (st : AppState)
      → CacheSound st
      → CacheSound (pair_phase1 env key ip salt cert st).0
  unfolding pair_phase1
  phase1-cached env key ip salt cert st v =
      elim (Bool-cases (is_some (lookup key st.pairing_cache))) [
        | inl t ↦ rw t (Values-erase (CacheOk c h) key st.pairing_cache v)
        | inr n ↦ rw n v
      ]

  pub phase2-cached :
      (env : Env) (req : PairRequest) (key : Text) (cache : PairCache) (challenge : Text)
      (st : AppState)
      → In (pair_request env req) h
      → req.clientchallenge ≡ some challenge
      → CacheSound st
      → CacheOk c h cache
      → CacheSound (pair_phase2 c file_name env key cache challenge st).0
  unfolding pair_phase2 send_server_challenge
  phase2-cached env req key cache challenge st i asks v ok =
      elim (Bool-cases (is_phase cache.last_phase getservercert)) [
        | inr n ↦ rw n (Values-erase (CacheOk c h) key st.pairing_cache v)
        | inl t ↦ rw t (
            Values-insert (CacheOk c h) key _ st.pairing_cache
              (record {
                entered = ok.entered;
                challenge_ok = inr (
                  env.server_challenge,
                  refl,
                  record {
                    env = env;
                    req = req;
                    client_challenge = challenge;
                    happened = i;
                    asks = asks;
                    drawn = refl;
                  },
                );
                hash_ok = ok.hash_ok;
              })
              v)
      ]

  pub phase3-cached :
      (env : Env) (req : PairRequest) (key : Text) (cache : PairCache) (secret resp : Text)
      (st : AppState)
      → In (pair_request env req) h
      → req.serverchallengeresp ≡ some resp
      → CacheSound st
      → CacheOk c h cache
      → CacheSound (pair_phase3 c file_name key cache secret resp st).0
  unfolding pair_phase3 get_client_hash
  phase3-cached env req key cache secret resp st i brings v ok =
      elim (Bool-cases (is_phase cache.last_phase clientchallenge)) [
        | inr n ↦ rw n (Values-erase (CacheOk c h) key st.pairing_cache v)
        | inl t ↦ rw t (
            Values-insert (CacheOk c h) key _ st.pairing_cache
              (record {
                entered = ok.entered;
                challenge_ok = ok.challenge_ok;
                hash_ok =
                    inr
                      (resp, refl, record { env = env; req = req; happened = i; brings = brings });
              })
              v)
      ]

  pub phase4-cached :
      (env : Env) (key : Text) (cache : PairCache) (challenge hash secret : Text) (st : AppState)
      → CacheSound st
      → CacheSound (pair_phase4 c file_name env key cache challenge hash secret st).0
  unfolding pair_phase4
  phase4-cached env key cache challenge hash secret st v =
      let gone = Values-erase (CacheOk c h) key st.pairing_cache v in
      elim (Bool-cases (is_phase cache.last_phase serverchallengeresp)) [
        | inr n ↦ rw n gone
        | inl t ↦ rw t (elim (Option-cases (c.cert_from_string cache.client_cert)) [
          | inl n ↦ rw n gone
          | inr (cert, p) ↦
              rw p
                (elim (Bool-cases (
                  get_paired (
                    client_pair c challenge hash secret (c.get_cert_signature cert)
                      (c.get_cert_public_key cert))
                  == 1)) [ inl y ↦ rw y gone | inr n ↦ rw n gone ])
        ])
      ]
