-- ===== src/Rtsp/Isolation.antt =====
-- rtsp_server.cpp (server/src/server): what serving one message changes.
use steamos_containerized.Common.Assoc.{lookup}
use steamos_containerized.Rtsp.Handler.{
  SameIdentity, message_handler-SameIdentity, message_handler-plays,
}
use steamos_containerized.Common.{
  value_or, Text, text, ◌≡◌, refl, ◌≢◌, true, Option, none, some, [], arith, ◌==◌, Bool-cases, inl,
  inr, ap,
}
use steamos_containerized.Common.Int.{pos}
use steamos_containerized.StdLib.{StdLib}
use steamos_containerized.Session.{StreamSession, Ptr, SessionRegistry, modify, get_for_rtsp}
use steamos_containerized.Rtsp.Packet.{RtspPacket}
use steamos_containerized.Rtsp.Commands.{error_msg}
use steamos_containerized.Rtsp.Socket.{Served, serve_session, serve_parsed, serve}

module _ (lib : StdLib) where
  -- The session that a message belongs to, if it parses and one is found.
  abbrev pub target_of : Text → SessionRegistry → Option RtspPacket → Option Ptr
  target_of peer_ip r none = none
  target_of peer_ip r (some req) =
      get_for_rtsp req.request_part.uri.ip (value_or (lookup (text "Host") req.options) []) peer_ip
        r

  abbrev pub Isolated : SessionRegistry → Option Ptr → Served → Type 0
  Isolated r target v =
      (v.registry.sessions ≡ r.sessions)
      × (v.registry.next_id ≡ r.next_id)
      × ((q : Ptr) → SameIdentity (r.heap q) (v.registry.heap q))
      × ((q : Ptr) → target ≢ some q → v.registry.heap q ≡ r.heap q)
      × ((q : Ptr) → v.plays ≡ some q → (target ≡ some q) × ((v.registry.heap q).playing ≡ true))

  SameIdentity-refl : (s : StreamSession) → SameIdentity s s
  SameIdentity-refl s = ground arith

  serve_session-Isolated :
      (req : RtspPacket) (r : SessionRegistry) (o : Option Ptr)
      → Isolated r o (serve_session lib req r o)
  unfolding serve_session modify
  serve_session-Isolated req r none =
      (refl, refl, λ q. SameIdentity-refl (r.heap q), λ q n. refl, λ q e. cc e)
  serve_session-Isolated req r (some p) = (
    refl,
    refl,
    λ q. elim (Bool-cases (q == p)) [
      | inl t ↦ ground (arith, message_handler-SameIdentity lib req (r.heap p))
      | inr f ↦ ground (arith, SameIdentity-refl (r.heap q))
    ],
    λ q n. ground arith,
    λ q e. ground (arith, message_handler-plays lib req (r.heap p)),
  )

  serve_parsed-Isolated :
      (peer_ip : Text) (r : SessionRegistry) (o : Option RtspPacket)
      → Isolated r (target_of peer_ip r o) (serve_parsed lib peer_ip r o)
        × (o ≡ none
            → serve_parsed lib peer_ip r o ≡ record {
              reply = some (error_msg 400 (text "BAD REQUEST") (pos 0));
              registry = r;
              plays = none;
            })
        × (o ≢ none
            → target_of peer_ip r o ≡ none
            → serve_parsed lib peer_ip r o ≡ record { reply = none; registry = r; plays = none })
  unfolding serve_parsed serve_session
  serve_parsed-Isolated peer_ip r none = (
    (refl, refl, λ q. SameIdentity-refl (r.heap q), λ q n. refl, λ q e. cc e),
    λ e. refl,
    λ n e. absurd (n refl),
  )
  serve_parsed-Isolated peer_ip r (some req) = (
    serve_session-Isolated req r (target_of peer_ip r (some req)),
    λ e. cc e,
    λ n e. ap (serve_session lib req r) e,
  )

  -- Whatever the parser makes of a message, serving it keeps the list of sessions and every identity,
  -- changes no session but the one that the message belongs to, and starts the media only for that
  -- one, which plays then; a message that does not parse is answered with status 400 and changes
  -- nothing, and one that belongs to no session gets no answer and changes nothing.
  pub serve-Isolated :
      (parse : Text → Option RtspPacket) (peer_ip : Text) (r : SessionRegistry) (full : Text)
      → Isolated r (target_of peer_ip r (parse full)) (serve lib parse peer_ip r full)
        × (parse full ≡ none
            → serve lib parse peer_ip r full ≡ record {
              reply = some (error_msg 400 (text "BAD REQUEST") (pos 0));
              registry = r;
              plays = none;
            })
        × (parse full ≢ none
            → target_of peer_ip r (parse full) ≡ none
            → serve lib parse peer_ip r full ≡ record { reply = none; registry = r; plays = none })
  unfolding serve serve_parsed serve_session
  serve-Isolated parse peer_ip r full = serve_parsed-Isolated peer_ip r (parse full)
