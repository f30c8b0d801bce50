-- ===== src/Rtsp/Socket.antt =====
-- rtsp_server.cpp (server/src/server): a connection, from the reads of its socket to the reply. The
-- parser is a grammar run by cpp-peglib, which is not in the repository, and is a parameter. The
-- number of bytes of a read is the length of what it delivers.
use steamos_containerized.Common.{
  ltb, ◌==◌, if◌then◌else◌, value_or, length, take, drop, replicate, Text, text, ℕ, suc, ◌+◌, ◌-◌,
  ◌%◌, ◌^◌, Bool, true, false, ◌&&◌, Option, none, some, List, [], ◌∷◌, ◌++◌,
}
use steamos_containerized.Common.Int.{ℤ, pos, negsuc}
use steamos_containerized.Common.Assoc.{lookup}
use steamos_containerized.StdLib.{StdLib}
use steamos_containerized.Session.{Ptr, SessionRegistry, modify, get_for_rtsp}
use steamos_containerized.Rtsp.Packet.{RtspPacket, crlf}
use steamos_containerized.Rtsp.Commands.{error_msg, message_handler}

unfoldable pub starts_with : Text → Text → Bool
starts_with [] t = true
starts_with (p ∷ pat) [] = false
starts_with (p ∷ pat) (c ∷ t) = p == c && starts_with pat t

abbrev pub later : Option ℕ → Option ℕ
later none = none
later (some i) = some (suc i)

-- `t.find(pat)`, for a pattern that is not empty
unfoldable pub find_text : Text → Text → Option ℕ
unfolding starts_with
find_text pat [] = none
find_text pat (c ∷ t) =
    let rest = later (find_text pat t) in if starts_with pat (c ∷ t) then some 0 else rest

abbrev pub length_key : Text
length_key = text "Content-length: "

-- What the buffer says of the length: nothing, or a line that `stoi` throws on, or the total.
pub data Announced : Type 0 where
  no_length bad_length : Announced
  total_length : ℕ → Announced

-- `std::stoi(...) + cl_end + 2` in a `size_t`
abbrev pub to_size : ℤ → ℕ
to_size (pos n) = n
to_size (negsuc n) = 2 ^ 64 - 1 - n

abbrev pub total_of : ℕ → Option ℤ → Announced
total_of cl_end none = bad_length
total_of cl_end (some n) = total_length ((to_size n + cl_end + 2) % 2 ^ 64)

-- `cl_pos` is behind the key; without an end of the line, `cl_end` is `npos`, 2 ^ 64 - 1.
abbrev pub line_total : StdLib → Text → ℕ → Option ℕ → Announced
line_total lib full cl_pos none = total_of (2 ^ 64 - 1) (lib.stoi (drop cl_pos full))
line_total lib full cl_pos (some k) = total_of (cl_pos + k) (lib.stoi (take k (drop cl_pos full)))

abbrev pub announced_at : StdLib → Text → Option ℕ → Announced
announced_at lib full none = no_length
announced_at lib full (some p) = line_total lib full (p + 16) (find_text crlf (drop (p + 16) full))

unfoldable pub announced_total : StdLib → Text → Announced
unfolding find_text
announced_total lib full = announced_at lib full (find_text length_key full)

-- `prev_read_` and `prev_read_bytes_`
pub record Buffer : Type 0 where
  pub prev_read : Text
  pub prev_read_bytes : ℕ

abbrev pub empty_buffer : Buffer
empty_buffer = record { prev_read = []; prev_read_bytes = 0 }

-- `resize`
unfoldable pub resize : ℕ → Text → Text
resize n t = take n t ++ replicate (n - length t) 0

pub data Read : Type 0 where
  more : Buffer → Read
  message : Text → Read
  threw : Read

abbrev pub read_total : Text → ℕ → Announced → Read
read_total full total no_length = message full
read_total full total bad_length = threw
read_total full total (total_length n) =
    if ltb total n
    then more (record { prev_read = full; prev_read_bytes = total })
    else message full

-- The handler of a read that did not fail.
unfoldable pub receive_read : StdLib → Text → Buffer → Read
unfolding announced_total resize
receive_read lib raw_msg b =
    let total = b.prev_read_bytes + length raw_msg in
    let full = resize total (b.prev_read ++ raw_msg) in
    read_total full total (announced_total lib full)

-- `return self->receive_message(on_msg_read)`, if there is more to read
abbrev pub read_on : (Buffer → Read) → Read → Read
read_on next (more b) = next b
read_on next (message t) = message t
read_on next threw = threw

-- The reads of a connection until a message is whole.
unfoldable pub receive_reads : StdLib → List Text → Buffer → Read
unfolding receive_read
receive_reads lib [] b = more b
receive_reads lib (raw ∷ raws) b = read_on (receive_reads lib raws) (receive_read lib raw b)

-- What is sent, if anything, the registry after it, and the session that `on_play` is called with.
pub record Served : Type 0 where
  pub reply : Option RtspPacket
  pub registry : SessionRegistry
  pub plays : Option Ptr

unfoldable pub serve_session : StdLib → RtspPacket → SessionRegistry → Option Ptr → Served
unfolding message_handler modify
serve_session lib req r none = record { reply = none; registry = r; plays = none }
serve_session lib req r (some p) =
    let (answer, written, playing) = message_handler lib req (r.heap p) in
    record {
      reply = some answer;
      registry = modify p (λ s. written) r;
      plays = if playing then some p else none;
    }

unfoldable pub serve_parsed : StdLib → Text → SessionRegistry → Option RtspPacket → Served
unfolding serve_session get_for_rtsp lookup
serve_parsed lib peer_ip r none = record {
  reply = some (error_msg 400 (text "BAD REQUEST") (pos 0));
  registry = r;
  plays = none;
}
serve_parsed lib peer_ip r (some req) = serve_session lib req r (
    get_for_rtsp req.request_part.uri.ip (value_or (lookup (text "Host") req.options) []) peer_ip r)

-- The callback of `start`, on a whole message.
unfoldable pub serve : StdLib → (Text → Option RtspPacket) → Text → SessionRegistry → Text → Served
unfolding serve_parsed
serve lib parse peer_ip r full = serve_parsed lib peer_ip r (parse full)
