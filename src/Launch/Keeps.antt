-- ===== src/Launch/Keeps.antt =====
-- The registry, and the test for a paired client, in the handlers of servers.cpp.
use steamos_containerized.Common.{
  In, ◌≢◌, ◌⊎◌, text, List, ◌∷◌, not, if◌then◌else◌, sym, ap, ◌∙◌, subst, is_some, Option-cases,
  find_if, ℕ, value_or, Text, ◌+◌, ◌^◌, ◌<◌, ◌≡◌, Option, none, some, [], arith, Bool-cases, refl,
  inl, inr, Bool, false, true,
}
use steamos_containerized.Common.Int.{ℤ}
use steamos_containerized.Session.{StreamSession, Ptr, take_id, SessionRegistry}
use steamos_containerized.Session.Registry.{
  IsValid, modify-IsValid, remove-IsValid, take_id-IsValid, register-IsValid,
}
use steamos_containerized.Pairing.Crypto.{Cert, Crypto}
use steamos_containerized.Pairing.State.{verifies, get_client_via_ssl}
use steamos_containerized.StdLib.{StdLib}
use steamos_containerized.Launch.{Server, LaunchRequest, LaunchEnv, Answer, answered, thrown}
use steamos_containerized.Pairing.Protocol.{Xml, status_code, query, status_message}
use steamos_containerized.Launch.Handlers.{
  adopt, resume_found, create_launch_session, launch_found, is_paired, launch_like, cancelled,
  cancel_handler, new_session, create_with, launch_created,
}

module _ (lib : StdLib) where
  adopt-session_id :
      (ip key iv : Text) (s : StreamSession) → (adopt lib ip key iv s).session_id ≡ s.session_id
  unfolding adopt
  adopt-session_id ip key iv s = ground arith

  pub resume_found-IsValid :
      (env : LaunchEnv) (req : LaunchRequest) (sv : Server) (o : Option Ptr)
      → IsValid sv.sessions
      → IsValid (resume_found lib env req sv o).0.sessions
  resume_found-IsValid env req sv none v = v
  resume_found-IsValid env req sv (some p) v =
      modify-IsValid p (adopt lib req.client_ip (value_or req.rikey []) (value_or req.rikeyid []))
        (adopt-session_id req.client_ip _ _) sv.sessions v

  created-IsValid :
      (env : LaunchEnv) (req : LaunchRequest) (sv : Server) (o : Option ℤ)
      → sv.sessions.next_id + 1 < 2 ^ 64
      → IsValid sv.sessions
      → IsValid
          (launch_created lib env req sv (
            create_with lib env req sv
              (take_id sv.sessions).0
              (take_id sv.sessions).1
              o)).0.sessions
  created-IsValid env req sv none h v = take_id-IsValid sv.sessions h v
  created-IsValid env req sv (some surround) h v =
      register-IsValid _ sv.sessions h (unfold new_session take_id in refl) v

  launch_found-IsValid :
      (env : LaunchEnv) (req : LaunchRequest) (sv : Server) (o : Option Ptr)
      → sv.sessions.next_id + 1 < 2 ^ 64
      → IsValid sv.sessions
      → IsValid (launch_found lib env req sv o).0.sessions
  unfolding create_launch_session
  launch_found-IsValid env req sv (some p) h v = v
  launch_found-IsValid env req sv none h v = created-IsValid env req sv _ h v

  -- Launch and resume, by whichever client and on every branch, keep the registry well-formed: ids
  -- are distinct and below the next one, as long as the 64-bit counter of ids does not wrap.
  pub launch_like-IsValid :
      (c : Crypto) (env : LaunchEnv) (req : LaunchRequest) (cert : Option Cert) (is_resume : Bool)
      (sv : Server)
      → sv.sessions.next_id + 1 < 2 ^ 64
      → IsValid sv.sessions
      → IsValid (launch_like lib c env req cert is_resume sv).0.sessions
  unfolding launch_like
  launch_like-IsValid c env req cert is_resume sv h v =
      elim (Bool-cases (is_paired lib c cert sv)) [
        | inr n ↦ rw n v
        | inl y ↦ rw y (elim (Bool-cases is_resume) [
          | inl t ↦ rw t (resume_found-IsValid env req sv _ v)
          | inr f ↦ rw f (launch_found-IsValid env req sv _ h v)
        ])
      ]

  cancelled-IsValid :
      (c : Crypto) (sv : Server) (o : Option Ptr)
      → IsValid sv.sessions
      → IsValid (cancelled lib c sv o).sessions
  cancelled-IsValid c sv none v = v
  cancelled-IsValid c sv (some p) v = remove-IsValid _ sv.sessions v

  -- A cancel keeps the registry well-formed.
  pub cancel_handler-IsValid :
      (c : Crypto) (req : LaunchRequest) (cert : Option Cert) (sv : Server)
      → IsValid sv.sessions
      → IsValid (cancel_handler lib c req cert sv).0.sessions
  unfolding cancel_handler
  cancel_handler-IsValid c req cert sv v = elim (Bool-cases (is_paired lib c cert sv)) [
    | inl y ↦ rw y (cancelled-IsValid c sv _ v)
    | inr n ↦ rw n v
  ]

  -- A stored certificate against which the one that the client presents verifies.
  abbrev pub IsStored : Crypto → Option Cert → Server → Type 0
  IsStored c cert sv =
      (x : Cert) × (pem : Text) × (cert ≡ some x)
      × (In pem sv.pairing.paired_clients
          × (c.verification_error (c.cert_from_string pem) x ≡ none))

  -- The answer has status 401, and the server stays as it was.
  abbrev pub Refusal : LaunchRequest → Server → Server × Answer → Type 0
  Refusal req sv out =
      (out.0 ≡ sv)
      × (out.1
          ≡ answered 401 (
              status_code 401
              ∷ query req.path
              ∷ status_message
                  (text "The client is not authorized. Certificate verification failed.")
              ∷ []))

  -- The answer does not have status 401.
  abbrev pub Allowed : Server × Answer → Type 0
  Allowed out = (xml : Xml) → out.1 ≢ answered 401 xml

  abbrev status_of : Answer → ℕ
  status_of (answered status xml) = status
  status_of thrown = 0

  resume_found-Allowed :
      (env : LaunchEnv) (req : LaunchRequest) (sv : Server) (o : Option Ptr)
      → Allowed (resume_found lib env req sv o)
  resume_found-Allowed env req sv none = λ xml e. absurd (omega (arith, ap status_of e))
  resume_found-Allowed env req sv (some p) = λ xml e. absurd (omega (arith, ap status_of e))

  created-Allowed :
      (env : LaunchEnv) (req : LaunchRequest) (sv : Server) (o : Option Ptr × SessionRegistry)
      → Allowed (launch_created lib env req sv o)
  created-Allowed env req sv (none, r) = λ xml e. absurd (omega (arith, ap status_of e))
  created-Allowed env req sv (some p, r) = λ xml e. absurd (omega (arith, ap status_of e))

  launch_found-Allowed :
      (env : LaunchEnv) (req : LaunchRequest) (sv : Server) (o : Option Ptr)
      → Allowed (launch_found lib env req sv o)
  launch_found-Allowed env req sv (some p) = λ xml e. absurd (omega (arith, ap status_of e))
  launch_found-Allowed env req sv none = created-Allowed env req sv _

  launch_paired-Allowed :
      (c : Crypto) (env : LaunchEnv) (req : LaunchRequest) (cert : Option Cert) (is_resume : Bool)
      (sv : Server)
      → is_paired lib c cert sv ≡ true
      → Allowed (launch_like lib c env req cert is_resume sv)
        × Allowed (cancel_handler lib c req cert sv)
  unfolding launch_like cancel_handler
  launch_paired-Allowed c env req cert is_resume sv y = (
    rw y (elim (Bool-cases is_resume) [
      | inl t ↦ rw t (resume_found-Allowed env req sv _)
      | inr f ↦ rw f (launch_found-Allowed env req sv _)
    ]),
    rw y (λ xml e. absurd (omega (arith, ap status_of e))),
  )

  is_none : {A : Type 0} (o : Option A) → is_some o ≡ false → o ≡ none
  is_none none h = refl
  is_none (some a) h = cc h

  some_stored :
      (c : Crypto) (x : Cert) (pems : List Text) (pem : Text)
      → find_if (verifies c x) pems ≡ some pem
      → In pem pems × (c.verification_error (c.cert_from_string pem) x ≡ none)
  some_stored c x [] pem e = cc e
  some_stored c x (q ∷ pems) pem e = elim (Bool-cases (verifies c x q)) [
    | inl t ↦
        let same : q ≡ pem =
          cc (e, ap (λ b. if b then some q else find_if (verifies c x) pems) t) in
        (
          inl (sym same),
          subst (λ p. c.verification_error (c.cert_from_string p) x ≡ none) same
              (is_none _ (ground (arith, t))),
        )
    | inr f ↦
        let rest =
          some_stored c x pems pem
            (sym (ap (λ b. if b then some q else find_if (verifies c x) pems) f) ∙ e) in
        (inr rest.0, rest.1)
  ]

  none_stored :
      (c : Crypto) (x : Cert) (pems : List Text) (pem : Text)
      → find_if (verifies c x) pems ≡ none
      → In pem pems
      → c.verification_error (c.cert_from_string pem) x ≡ none
      → ⊥
  none_stored c x [] pem n m v = absurd m
  none_stored c x (q ∷ pems) pem n (inl same) v =
      let t : verifies c x q ≡ true =
        ap (λ p. verifies c x p) (sym same) ∙ ap (λ o. not (is_some o)) v in
      cc (n, ap (λ b. if b then some q else find_if (verifies c x) pems) t)
  none_stored c x (q ∷ pems) pem n (inr m) v = none_stored c x pems pem (ground (arith, n)) m v

  is_paired-cases :
      (c : Crypto) (cert : Option Cert) (sv : Server)
      → ((is_paired lib c cert sv ≡ true) × IsStored c cert sv)
        ⊎ ((is_paired lib c cert sv ≡ false) × (¬ IsStored c cert sv))
  unfolding get_client_via_ssl
  is_paired-cases c none sv = inr (refl, λ s. cc s.2)
  is_paired-cases c (some x) sv =
      elim (Option-cases (find_if (verifies c x) sv.pairing.paired_clients)) [
        | inl n ↦ inr (
          ap is_some n,
          λ s.
              none_stored c x sv.pairing.paired_clients s.1 n s.3.0 (
                subst (λ y. c.verification_error (c.cert_from_string s.1) y ≡ none) (cc s.2) s.3.1),
        )
        | inr (pem, e) ↦
            inl (ap is_some e, (x, pem, refl, some_stored c x sv.pairing.paired_clients pem e))
      ]

  refused :
      (c : Crypto) (env : LaunchEnv) (req : LaunchRequest) (cert : Option Cert) (is_resume : Bool)
      (sv : Server)
      → is_paired lib c cert sv ≡ false
      → Refusal req sv (launch_like lib c env req cert is_resume sv)
        × Refusal req sv (cancel_handler lib c req cert sv)
  unfolding launch_like cancel_handler
  refused c env req cert is_resume sv n = (rw n (refl, refl), rw n (refl, refl))

  -- A client gets status 401 from launch, resume and cancel, and the server stays as it was, exactly
  -- if it presents no certificate or one that verifies against no stored one.
  pub unpaired_is_refused :
      (c : Crypto) (env : LaunchEnv) (req : LaunchRequest) (cert : Option Cert) (is_resume : Bool)
      (sv : Server)
      → (IsStored c cert sv
          × (Allowed (launch_like lib c env req cert is_resume sv)
              × Allowed (cancel_handler lib c req cert sv)))
        ⊎ ((¬ IsStored c cert sv)
            × (Refusal req sv (launch_like lib c env req cert is_resume sv)
                × Refusal req sv (cancel_handler lib c req cert sv)))
  unpaired_is_refused c env req cert is_resume sv = elim (is_paired-cases c cert sv) [
    | inl (y, s) ↦ inl (s, launch_paired-Allowed c env req cert is_resume sv y)
    | inr (n, s) ↦ inr (s, refused c env req cert is_resume sv n)
  ]
