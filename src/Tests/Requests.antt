-- ===== src/Tests/Requests.antt =====
-- RTSP requests and the numbers that they negotiate.
use steamos_containerized.Common.{Text, text, ◌=?◌, ◌≡◌, refl, true, List, [], ◌∷◌}
use steamos_containerized.Common.Int.{pos}
use steamos_containerized.StdLib.{plain_lib}
use steamos_containerized.Rtsp.Packet.{request, RtspPacket, empty_request}
use steamos_containerized.Rtsp.Commands.{message_handler}
use steamos_containerized.Tests.Data.{alice_session}

abbrev play : RtspPacket
play = record {
  packet_type = request;
  seq_number = pos 6;
  request_part = record empty_request { cmd = text "PLAY" };
  response_part = record { status_code = 200; msg = [] };
  options = [];
  payloads = [];
}

play_starts : (message_handler plain_lib play alice_session).2 ≡ true
unfolding message_handler ◌=?◌ text
play_starts = refl

-- "w:1" and then "w:2".
abbrev width_lines : List (Text × Text)
width_lines = (text "a", text "w:1") ∷ (text "a", text "w:2") ∷ []
