-- ===== src/Rtsp/Packet.antt =====
-- parser.hpp: the packet and `to_string`. Its `parse` is the generated parser of cpp-peglib, and is
-- not modelled.
use steamos_containerized.Common.{if◌then◌else◌, Text, text, is_empty, ℕ, List, [], ◌∷◌, ◌++◌}
use steamos_containerized.Common.Int.{ℤ, pos}
use steamos_containerized.StdLib.{StdLib}

pub data PacketType : Type 0 where
  request response : PacketType

pub data TargetType : Type 0 where
  target_uri target_stream : TargetType

pub record Uri : Type 0 where
  pub protocol : Text
  pub ip : Text
  pub port : ℕ

pub record Stream : Type 0 where
  pub kind : Text
  pub params : Text

pub record RtspRequest : Type 0 where
  pub cmd : Text
  pub target : TargetType
  pub uri : Uri
  pub stream : Stream

pub record RtspResponse : Type 0 where
  pub status_code : ℕ
  pub msg : Text

-- `options` is a map, `payloads` a list of pairs.
pub record RtspPacket : Type 0 where
  pub packet_type : PacketType
  pub seq_number : ℤ
  pub request_part : RtspRequest
  pub response_part : RtspResponse
  pub options : List (Text × Text)
  pub payloads : List (Text × Text)

abbrev pub empty_request : RtspRequest
empty_request = record {
  cmd = [];
  target = target_uri;
  uri = record { protocol = []; ip = []; port = 0 };
  stream = record { kind = []; params = [] };
}

abbrev pub crlf : Text
crlf = 13 ∷ 10 ∷ []

module _ (lib : StdLib) where
  print_target : RtspRequest → TargetType → Text
  print_target r target_uri =
      r.uri.protocol ++ (text "://" ++ (r.uri.ip ++ (text ":" ++ lib.to_string (pos r.uri.port))))
  print_target r target_stream = text "streamid=" ++ (r.stream.kind ++ r.stream.params)

  print_start : RtspPacket → PacketType → Text
  unfolding print_target
  print_start p request =
      let r = p.request_part in r.cmd ++ (text " " ++ (print_target r r.target ++ text " RTSP/1.0"))
  print_start p response =
      text "RTSP/1.0 "
      ++ (lib.to_string (pos p.response_part.status_code) ++ (text " " ++ p.response_part.msg))

  unfoldable pub print_options : List (Text × Text) → Text
  print_options [] = []
  print_options ((k, v) ∷ os) = crlf ++ (k ++ (text ": " ++ (v ++ print_options os)))

  unfoldable pub print_payloads : List (Text × Text) → Text
  print_payloads [] = []
  print_payloads ((k, v) ∷ ps) =
      (if is_empty k then v else k ++ (text "=" ++ v)) ++ (crlf ++ print_payloads ps)

  unfoldable pub to_string : RtspPacket → Text
  unfolding print_start print_options print_payloads
  to_string p =
      print_start p p.packet_type
      ++ (crlf
          ++ (text "CSeq: "
              ++ (lib.to_string p.seq_number
                  ++ (print_options p.options ++ (crlf ++ (crlf ++ print_payloads p.payloads))))))
