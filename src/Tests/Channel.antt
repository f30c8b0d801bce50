-- ===== src/Tests/Channel.antt =====
-- Runs of the control channel.
use steamos_containerized.Common.{
  replicate, Text, ◌=?◌, ◌≡◌, refl, true, some, List, [], ◌∷◌, ◌++◌, arith,
}
use steamos_containerized.Common.Int.{pos, negsuc}
use steamos_containerized.Session.{default_video, Ptr, get_running}
use steamos_containerized.Input.Pad.{PadState}
use steamos_containerized.Control.{u8_at, le16_at, le32_at, gamepad_update}
use steamos_containerized.Control.Layout.{View, Gcm, type_of, encrypted_msg, decrypt_packet}
use steamos_containerized.Control.Inputs.{handle_input}
use steamos_containerized.Control.Dispatch.{
  on_idr, match_session, dispatch_type, dispatch, decrypted, receive_packet, find_peer, erase_peer,
  EnetEvent, connect, receive, turn,
}
use steamos_containerized.Control.Admit.{clients_after, Joined, effects_need_session}
use steamos_containerized.Control.Bounds.{ViewOf, encrypted_msg_in_packet}
use steamos_containerized.Control.Roundtrip.{multi_packet, Fits, handle_input-multi_packet}
use steamos_containerized.Tests.Data.{alice_ip, two_sessions}

-- A cipher for runs, which leaves the text as it is.
abbrev open_gcm : Gcm
open_gcm = record { hex_to_str = λ t. t; aes_decrypt_gcm = λ msg key tag iv. some msg }

-- An encrypted packet that asks for an IDR frame, and its like with a length field of 3.
abbrev idr_packet : Text
idr_packet = 1 ∷ 0 ∷ 24 ∷ 0 ∷ 7 ∷ 0 ∷ 0 ∷ 0 ∷ replicate 16 0 ++ 2 ∷ 3 ∷ 0 ∷ 0 ∷ []

abbrev short_packet : Text
short_packet = 1 ∷ 0 ∷ 3 ∷ 0 ∷ 7 ∷ 0 ∷ 0 ∷ 0 ∷ replicate 16 0 ++ 2 ∷ 3 ∷ 0 ∷ 0 ∷ []

abbrev alice_joined : List EnetEvent
alice_joined = connect 5 0 alice_ip two_sessions ∷ []

idr_turn :
    turn open_gcm (receive 5 idr_packet two_sessions true) ((5, 0) ∷ [])
    ≡ some ((5, 0) ∷ [], on_idr 1 ∷ [])
unfolding turn receive_packet decrypted decrypt_packet encrypted_msg dispatch dispatch_type type_of
    le16_at le32_at u8_at find_peer
idr_turn = refl

stranger_turn :
    turn open_gcm (receive 6 idr_packet two_sessions true) ((5, 0) ∷ []) ≡ some ((5, 0) ∷ [], [])
unfolding turn find_peer
stranger_turn = refl

effects_need_session_example :
    (p : Ptr) × Joined 5 p alice_joined
    × ((plain : Text) × (decrypt_packet open_gcm idr_packet (two_sessions.heap p).aes_key
          ≡ some (some plain))
        × (dispatch (two_sessions.heap p) true plain ≡ some (on_idr 1 ∷ [])))
unfolding turn clients_after match_session get_running receive_packet decrypted decrypt_packet
    encrypted_msg dispatch dispatch_type type_of le16_at le32_at u8_at find_peer erase_peer ◌=?◌
effects_need_session_example =
    effects_need_session open_gcm alice_joined 5 idr_packet two_sessions true ((5, 0) ∷ [])
      (on_idr 1) [] refl

encrypted_msg_in_packet_example :
    (v : View) × (encrypted_msg short_packet ≡ some v) × ViewOf short_packet 3 v
unfolding le16_at u8_at
encrypted_msg_in_packet_example =
    encrypted_msg_in_packet short_packet 3 refl (omega arith) (omega arith)

abbrev tilted : PadState
tilted = record {
  button_flags = 4096;
  left_trigger = 1;
  right_trigger = 2;
  left_x = negsuc 0;
  left_y = pos 300;
  right_x = negsuc 32767;
  right_y = pos 32767;
}

tilted-Fits : Fits 1 3 tilted
tilted-Fits = record {
  number_fits = omega arith;
  mask_fits = omega arith;
  flags_fit = omega arith;
  lx = (omega arith, omega arith);
  ly = (omega arith, omega arith);
  rx = (omega arith, omega arith);
  ry = (omega arith, omega arith);
}

handle_input-multi_packet_example :
    handle_input default_video true
      (multi_packet (6 ∷ 2 ∷ 34 ∷ 0 ∷ 0 ∷ 0 ∷ 0 ∷ 30 ∷ []) 1 3 tilted [])
    ≡ some (gamepad_update 1 3 tilted ∷ [])
handle_input-multi_packet_example =
    handle_input-multi_packet default_video 6 2 34 0 0 0 0 30 1 3 tilted [] tilted-Fits
