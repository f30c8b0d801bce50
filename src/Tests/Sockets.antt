-- ===== src/Tests/Sockets.antt =====
-- Reads of an RTSP connection, and messages served.
use steamos_containerized.Common.{
  length, Text, text, ◌=?◌, ◌≤◌, ◌≡◌, refl, ◌≢◌, Option, none, some, [], ◌∷◌, ◌++◌, arith,
}
use steamos_containerized.Common.Int.{pos}
use steamos_containerized.Common.Assoc.{lookup}
use steamos_containerized.StdLib.{StdLib, plain_lib}
use steamos_containerized.Session.{get_for_rtsp}
use steamos_containerized.Rtsp.Packet.{RtspPacket, empty_request}
use steamos_containerized.Rtsp.Commands.{error_msg, ok_msg, message_handler}
use steamos_containerized.Rtsp.Socket.{
  starts_with, find_text, announced_total, empty_buffer, resize, more, message, receive_read,
  receive_reads, serve_session, serve_parsed, serve,
}
use steamos_containerized.Rtsp.Reassembly.{HasLength, flat, holding, receive_reads_gathers}
use steamos_containerized.Rtsp.Isolation.{target_of, Isolated, serve-Isolated}
use steamos_containerized.Tests.Data.{alice_fake, two_sessions}

-- A library that reads four for any number.
abbrev four_lib : StdLib
four_lib = record plain_lib { stoi = λ t. some (pos 4) }

-- The header of a message with a body of four bytes: its total is 23, and the message has 25.
abbrev head : Text
head = text "Content-length: 4" ++ 13 ∷ 10 ∷ 13 ∷ 10 ∷ []

head-HasLength : HasLength four_lib head 23
unfolding find_text starts_with text
head-HasLength = record {
  p = 0;
  k = 1;
  value = 4;
  key = refl;
  line_end = refl;
  number = refl;
  total = omega arith;
  small = omega arith;
}

-- Two reads short of the message by its last two bytes are passed on as the whole of it.
two_bytes_short :
    receive_reads four_lib (head ∷ (97 ∷ 98 ∷ []) ∷ []) empty_buffer
    ≡ message (head ++ 97 ∷ 98 ∷ [])
unfolding receive_reads receive_read announced_total find_text starts_with resize text
two_bytes_short = refl

receive_reads_gathers_example :
    (receive_reads four_lib (head ∷ (97 ∷ []) ∷ []) empty_buffer
      ≡ more (holding (flat (head ∷ (97 ∷ []) ∷ []))))
    × (23 ≤ length (flat (head ∷ (97 ∷ []) ∷ (98 ∷ 99 ∷ 100 ∷ []) ∷ []))
        → receive_reads four_lib (head ∷ (97 ∷ []) ∷ (98 ∷ 99 ∷ 100 ∷ []) ∷ []) empty_buffer
          ≡ message (flat (head ∷ (97 ∷ []) ∷ (98 ∷ 99 ∷ 100 ∷ []) ∷ [])))
unfolding flat text
receive_reads_gathers_example =
    receive_reads_gathers four_lib 23 head ((97 ∷ []) ∷ []) (98 ∷ 99 ∷ 100 ∷ []) head-HasLength
      (omega arith)

abbrev play_request : RtspPacket
play_request = record (ok_msg (pos 5) [] []) {
  request_part = record empty_request {
    cmd = text "PLAY";
    uri = record { protocol = []; ip = alice_fake; port = 48010 };
  };
}

abbrev parse_play : Text → Option RtspPacket
parse_play t = some play_request

play_serves : (serve plain_lib parse_play [] two_sessions []).plays ≡ some 0
unfolding serve serve_parsed serve_session message_handler get_for_rtsp ◌=?◌ text lookup
play_serves = refl

serve-Isolated_example :
    Isolated plain_lib two_sessions
      (target_of plain_lib [] two_sessions (parse_play []))
      (serve plain_lib parse_play [] two_sessions [])
    × (parse_play [] ≡ none
        → serve plain_lib parse_play [] two_sessions [] ≡ record {
          reply = some (error_msg 400 (text "BAD REQUEST") (pos 0));
          registry = two_sessions;
          plays = none;
        })
    × (parse_play [] ≢ none
        → target_of plain_lib [] two_sessions (parse_play []) ≡ none
        → serve plain_lib parse_play [] two_sessions []
          ≡ record { reply = none; registry = two_sessions; plays = none })
serve-Isolated_example = serve-Isolated plain_lib parse_play [] two_sessions []
