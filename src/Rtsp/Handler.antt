-- ===== src/Rtsp/Handler.antt =====
-- The dispatcher of rtsp_commands.hpp, `message_handler`.
use steamos_containerized.Common.{text, =?_iff, ◌≡◌, refl, ◌≢◌, true, false, arith}
use steamos_containerized.StdLib.{StdLib}
use steamos_containerized.Session.{StreamSession}
use steamos_containerized.Rtsp.Packet.{RtspPacket}
use steamos_containerized.Rtsp.Commands.{describe, setup, announce, message_handler}

-- What no RTSP request changes of a session.
pub record SameIdentity (s t : StreamSession) : Type 0 where
  pub session_id : t.session_id ≡ s.session_id
  pub client_ip : t.client_ip ≡ s.client_ip
  pub rtsp_fake_ip : t.rtsp_fake_ip ≡ s.rtsp_fake_ip
  pub aes_key : t.aes_key ≡ s.aes_key
  pub aes_iv : t.aes_iv ≡ s.aes_iv
  pub enet_secret_payload : t.enet_secret_payload ≡ s.enet_secret_payload
  pub rtp_secret_payload : t.rtp_secret_payload ≡ s.rtp_secret_payload

module _ (lib : StdLib) where
  setup-seq : (req : RtspPacket) (s : StreamSession) → (setup lib req s).seq_number ≡ req.seq_number
  unfolding setup
  setup-seq req s = ground arith

  describe-seq :
      (req : RtspPacket) (s : StreamSession) → (describe lib req s).seq_number ≡ req.seq_number
  unfolding describe
  describe-seq req s = refl

  announce-seq :
      (req : RtspPacket) (s : StreamSession) → (announce lib req s).0.seq_number ≡ req.seq_number
  unfolding announce
  announce-seq req s = refl

  -- Every command, known or not, is answered under the CSeq of its request.
  pub message_handler-seq :
      (req : RtspPacket) (s : StreamSession)
      → (message_handler lib req s).0.seq_number ≡ req.seq_number
  unfolding message_handler
  message_handler-seq req s =
      ground (arith, setup-seq req s, describe-seq req s, announce-seq req s)

  announce-SameIdentity :
      (req : RtspPacket) (s : StreamSession) → SameIdentity s (announce lib req s).1
  unfolding announce
  announce-SameIdentity req s = ground arith

  -- No command changes the identity, the addresses or the keys of the session.
  pub message_handler-SameIdentity :
      (req : RtspPacket) (s : StreamSession) → SameIdentity s (message_handler lib req s).1
  unfolding message_handler
  message_handler-SameIdentity req s = ground (arith, announce-SameIdentity req s)

  announce-playing :
      (req : RtspPacket) (s : StreamSession) → (announce lib req s).1.playing ≡ s.playing
  unfolding announce
  announce-playing req s = refl

  -- Media starts on PLAY alone.
  play_only :
      (req : RtspPacket) (s : StreamSession)
      → (message_handler lib req s).2 ≡ true
      → req.request_part.cmd ≡ text "PLAY"
  unfolding message_handler
  play_only req s h = ground (arith, =?_iff req.request_part.cmd (text "PLAY"))

  other_commands :
      (req : RtspPacket) (s : StreamSession)
      → req.request_part.cmd ≢ text "ANNOUNCE"
      → req.request_part.cmd ≢ text "PLAY"
      → (message_handler lib req s).1 ≡ s
  unfolding message_handler
  other_commands req s m n = ground (
    arith,
    =?_iff req.request_part.cmd (text "ANNOUNCE"),
    =?_iff req.request_part.cmd (text "PLAY"),
  )

  playing_by_play :
      (req : RtspPacket) (s : StreamSession)
      → s.playing ≡ false
      → (message_handler lib req s).1.playing ≡ true
      → (message_handler lib req s).2 ≡ true
  unfolding message_handler
  playing_by_play req s m n = ground (arith, announce-playing req s)

  -- Only PLAY starts the media, only ANNOUNCE and PLAY write to the session, and a session that
  -- starts to play does so in the request that starts the media.
  pub message_handler_effects :
      (req : RtspPacket) (s : StreamSession)
      → ((message_handler lib req s).2 ≡ true → req.request_part.cmd ≡ text "PLAY")
        × (req.request_part.cmd ≢ text "ANNOUNCE"
            → req.request_part.cmd ≢ text "PLAY"
            → (message_handler lib req s).1 ≡ s)
        × (s.playing ≡ false
            → (message_handler lib req s).1.playing ≡ true
            → (message_handler lib req s).2 ≡ true)
  message_handler_effects req s = (play_only req s, other_commands req s, playing_by_play req s)

  pub message_handler-plays :
      (req : RtspPacket) (s : StreamSession)
      → (message_handler lib req s).2 ≡ true
      → (message_handler lib req s).1.playing ≡ true
  unfolding message_handler
  message_handler-plays req s e = ground arith
