-- ===== src/Launch/Resume.antt =====
-- What launch, resume and cancel do to the session of a client.
use steamos_containerized.Common.{
  ◌⊎◌, FirstMatch, find_if, All, ℕ, ◌<◌, ◌≡◌, refl, Bool, true, false, Option, none, some, List, [],
  ◌∷◌, ◌++◌, arith, ◌==◌, if◌then◌else◌, All-map, ◌=?◌, =?_refl, sym, ap, ◌∙◌, Text, ◌&&◌,
}
use steamos_containerized.Common.Int.{ℤ}
use steamos_containerized.Session.{
  Ptr, get_by_client_ip, SessionRegistry, make_shared, add, take_id, StreamSession, remove,
  get_by_id,
}
use steamos_containerized.Session.Registry.{IsValid, Known, get_by_id-remove}
use steamos_containerized.Pairing.Crypto.{Cert, Crypto}
use steamos_containerized.Pairing.Protocol.{Xml}
use steamos_containerized.StdLib.{StdLib}
use steamos_containerized.Launch.{Server, LaunchRequest, LaunchEnv, answered, Answer, is_nonempty}
use steamos_containerized.Launch.Handlers.{
  is_paired, launch_like, new_session, create_with, create_launch_session, launch_created,
  launch_found, cancel_handler,
}

find_if-append :
    (p : Ptr → Bool) (ps : List Ptr) (q : Ptr)
    → find_if p ps ≡ none
    → p q ≡ true
    → find_if p (ps ++ q ∷ []) ≡ some q
find_if-append p [] q n t = rw t
find_if-append p (x ∷ ps) q n t = ground (arith, find_if-append p ps q)

find_if-congr :
    (p q : Ptr → Bool) (bound : ℕ) (ps : List Ptr)
    → ((x : Ptr) → x < bound → p x ≡ q x)
    → All (λ x. x < bound) ps
    → find_if p ps ≡ find_if q ps
find_if-congr p q bound [] f b = refl
find_if-congr p q bound (x ∷ ps) f b =
    rw (f x b.0) (ground (arith, find_if-congr p q bound ps f b.1))

module _ (lib : StdLib) where
  created_finds :
      (env : LaunchEnv) (req : LaunchRequest) (sv : Server) (o : Option ℤ) (status : ℕ) (xml : Xml)
      → IsValid sv.sessions
      → get_by_client_ip req.client_ip sv.sessions ≡ none
      → (launch_created lib env req sv
          (create_with lib env req sv (take_id sv.sessions).0 (take_id sv.sessions).1 o)).1
        ≡ answered status xml
      → (p : Ptr) × (get_by_client_ip req.client_ip
            (launch_created lib env req sv (
              create_with lib env req sv
                (take_id sv.sessions).0
                (take_id sv.sessions).1
                o)).0.sessions
          ≡ some p)
  unfolding get_by_client_ip add make_shared take_id new_session
  created_finds env req sv none status xml v n ok = cc
  created_finds env req sv (some surround) status xml v n ok =
      let old =
        find_if-congr
          (λ p.
            (if p == sv.sessions.allocated
              then new_session lib env req sv surround sv.sessions.next_id
              else sv.sessions.heap p).client_ip
            =? req.client_ip)
          (λ p. (sv.sessions.heap p).client_ip =? req.client_ip) sv.sessions.allocated
          sv.sessions.sessions (λ x b. ground arith)
          (All-map (Known sv.sessions) _ sv.sessions.sessions (λ x k. k.0) v.known) in
      (
        sv.sessions.allocated,
        find_if-append _ sv.sessions.sessions sv.sessions.allocated (old ∙ n)
            (ground (arith, =?_refl req.client_ip)),
      )

  launch_finds :
      (env : LaunchEnv) (req : LaunchRequest) (sv : Server) (o : Option Ptr) (status : ℕ)
      (xml : Xml)
      → IsValid sv.sessions
      → get_by_client_ip req.client_ip sv.sessions ≡ o
      → (launch_found lib env req sv o).1 ≡ answered status xml
      → (p : Ptr) × (get_by_client_ip req.client_ip (launch_found lib env req sv o).0.sessions
          ≡ some p)
  unfolding create_launch_session
  launch_finds env req sv (some p) status xml v e ok = (p, e)
  launch_finds env req sv none status xml v e ok = created_finds env req sv _ status xml v e ok

  created_pairing :
      (env : LaunchEnv) (req : LaunchRequest) (sv : Server) (o : Option Ptr × SessionRegistry)
      → (launch_created lib env req sv o).0.pairing ≡ sv.pairing
  created_pairing env req sv (none, r) = refl
  created_pairing env req sv (some p, r) = refl

  launch_pairing :
      (env : LaunchEnv) (req : LaunchRequest) (sv : Server) (o : Option Ptr)
      → (launch_found lib env req sv o).0.pairing ≡ sv.pairing
  launch_pairing env req sv (some p) = refl
  launch_pairing env req sv none = created_pairing env req sv _

  -- The session of this address, the first in the list; or else, if no session has the address, the
  -- oldest one, which is the head of the list.
  abbrev pub ToResume : Text → SessionRegistry → Ptr → Type 0
  ToResume ip r p =
      let has_ip : Ptr → Type 0 = λ q. (r.heap q).client_ip ≡ ip in
      FirstMatch has_ip r.sessions (some p)
      ⊎ (FirstMatch has_ip r.sessions none × ((rest : List Ptr) × (r.sessions ≡ p ∷ rest)))

  module _ (c : Crypto) where
    launch_like_paired :
        (env : LaunchEnv) (req : LaunchRequest) (cert : Option Cert) (sv : Server)
        → is_paired lib c cert sv ≡ true
        → launch_like lib c env req cert false sv
          ≡ launch_found lib env req sv (get_by_client_ip req.client_ip sv.sessions)
    unfolding launch_like
    launch_like_paired env req cert sv auth = rw auth

    -- Once a launch of a paired client is answered, a session is found under the client's address,
    -- and a further launch from that address, whatever it asks for, changes nothing on the server.
    pub launch_twice :
        (env env' : LaunchEnv) (req req' : LaunchRequest) (cert : Option Cert) (sv : Server)
        (status : ℕ) (xml : Xml)
        → IsValid sv.sessions
        → is_paired lib c cert sv ≡ true
        → req'.client_ip ≡ req.client_ip
        → (launch_like lib c env req cert false sv).1 ≡ answered status xml
        → ((p : Ptr) × (get_by_client_ip req.client_ip
                (launch_like lib c env req cert false sv).0.sessions
              ≡ some p))
          × ((launch_like lib c env' req' cert false (launch_like lib c env req cert false sv).0).0
              ≡ (launch_like lib c env req cert false sv).0)
    launch_twice env env' req req' cert sv status xml v auth same ok =
        let (p, found) = launch_finds env req sv _ status xml v refl (
          sym (ap (λ (o : Server × Answer). o.1) (launch_like_paired env req cert sv auth)) ∙ ok) in
        let auth' : is_paired lib c cert
              (launch_found lib env req sv (get_by_client_ip req.client_ip sv.sessions)).0
            ≡ true =
          rw (launch_pairing env req sv (get_by_client_ip req.client_ip sv.sessions)) auth in
        rw (launch_like_paired env req cert sv auth) (
          (p, found),
          rw
              (
                launch_like_paired env' req' cert
                    (launch_found lib env req sv (get_by_client_ip req.client_ip sv.sessions)).0
                    auth',
                same,
                found,
              )
              refl,
        )

    -- `after` is `before` as a resume from `ip` leaves it: the session has the address of the client
    -- that resumes it, and the new key if both of its halves were sent, else the old one.
    pub record Adopted (ip key iv : Text) (before after : StreamSession) : Type 0 where
      pub address : after.client_ip ≡ ip
      pub key_is :
          after.aes_key ≡ (if is_nonempty key && is_nonempty iv then key else before.aes_key)
      pub iv_is : after.aes_iv ≡ (if is_nonempty key && is_nonempty iv then iv else before.aes_iv)
      pub id_kept : after.session_id ≡ before.session_id
      pub fake_ip_kept : after.rtsp_fake_ip ≡ before.rtsp_fake_ip
      pub video_kept : after.video ≡ before.video
      pub audio_kept : after.audio ≡ before.audio

    -- A cancel of a paired client whose address has a session removes that session, tells the
    -- media side to stop exactly that id, and leaves every other id registered as it was.
    pub cancel_stops :
        (req : LaunchRequest) (cert : Option Cert) (sv : Server) (p : Ptr)
        → is_paired lib c cert sv ≡ true
        → get_by_client_ip req.client_ip sv.sessions ≡ some p
        → let out = cancel_handler lib c req cert sv in
          let sid = (sv.sessions.heap p).session_id in
          (out.0.stopped ≡ sid ∷ sv.stopped)
          × ((j : ℕ)
              → get_by_id j out.0.sessions ≡ (if sid == j then none else get_by_id j sv.sessions))
          × (out.0.sessions.heap ≡ sv.sessions.heap)
    unfolding cancel_handler
    cancel_stops req cert sv p auth e =
        rw (auth, e) (refl, (λ j. get_by_id-remove _ j sv.sessions), unfold remove in refl)
