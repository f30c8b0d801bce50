-- ===== src/Media.antt =====
-- media.cpp (server/src/server): the two UDP sockets of a media session. The pipeline hands buffers to
-- a sink on its own thread, the listener follows the pings of the client on another, and a resume
-- drops the destination; each of these is one step on the sink.
pub mod Destination
pub mod Processes
pub mod Signals
pub mod Group
pub mod Ending
pub mod Pipelines
pub mod Heads
pub mod Live
pub mod Running
pub mod Injected
pub mod Stopping
pub mod Bitrate
use steamos_containerized.Common.{
  ◌==◌, if◌then◌else◌, Text, ℕ, ◌+◌, ◌%◌, ◌^◌, Bool, true, false, not, ◌&&◌, ◌||◌, Option, none,
  some, List, [], ◌∷◌, ◌++◌,
}
use steamos_containerized.Common.Int.{ℤ, pos, leb_ℤ}

-- `sockaddr_in`: `s_addr` and `sin_port`
pub record Addr : Type 0 where
  pub s_addr : ℕ
  pub sin_port : ℕ

pub record UdpSink : Type 0 where
  pub listen_port : ℕ
  pub label : Text
  pub client_ip : Text
  pub have_client : Bool
  pub dest : Addr
  pub counter : ℕ

-- A datagram that is handed to `sendto`.
abbrev pub Datagram : Type 0
Datagram = Addr × List ℕ

unfoldable pub send : UdpSink → List ℕ → List Datagram
send s bytes = if s.have_client then (s.dest, bytes) ∷ [] else []

-- A buffer of a sample; none where it cannot be mapped.
abbrev pub Buffer : Type 0
Buffer = Option (List ℕ)

-- What the appsink pulls: nothing, a list of buffers, one buffer, or a sample without any.
pub data Sample : Type 0 where
  no_sample : Sample
  buffer_list : List Buffer → Sample
  one_buffer : Buffer → Sample
  no_buffer : Sample

pub data FlowReturn : Type 0 where
  flow_ok flow_error : FlowReturn

-- The counter is 64 bits wide.
abbrev pub count_buffer : UdpSink → UdpSink
count_buffer s = record s { counter = (s.counter + 1) % 2 ^ 64 }

unfoldable pub push_buffer : Buffer → UdpSink → UdpSink × List Datagram
unfolding send
push_buffer none s = (s, [])
push_buffer (some bytes) s = (count_buffer s, send s bytes)

unfoldable pub push_buffers : List Buffer → UdpSink → UdpSink × List Datagram
unfolding push_buffer
push_buffers [] s = (s, [])
push_buffers (b ∷ bs) s =
    let (s1, out) = push_buffer b s in let (s2, rest) = push_buffers bs s1 in (s2, out ++ rest)

unfoldable pub on_new_sample : Sample → UdpSink → FlowReturn × (UdpSink × List Datagram)
unfolding push_buffers
on_new_sample no_sample s = (flow_error, (s, []))
on_new_sample (buffer_list bs) s = (flow_ok, push_buffers bs s)
on_new_sample (one_buffer b) s = (flow_ok, push_buffer b s)
on_new_sample no_buffer s = (flow_ok, (s, []))

-- One turn of the listener: `n` is what `recvfrom` returns, `from` whom it names.
unfoldable pub on_datagram : ℤ → Addr → UdpSink → UdpSink
on_datagram n from s =
    let first = not s.have_client in
    let moved =
      not first && (not (s.dest.s_addr == from.s_addr) || not (s.dest.sin_port == from.sin_port)) in
    if leb_ℤ n (pos 0)
    then s
    else if first || moved
    then record s { dest = from; have_client = true }
    else s

-- The part of `retarget` that is about a sink.
unfoldable pub drop_client : UdpSink → UdpSink
drop_client s = record s { have_client = false }

-- The three threads that touch a sink.
pub data SinkStep : Type 0 where
  sampled : Sample → SinkStep
  received : ℤ → Addr → SinkStep
  retargeted : SinkStep

unfoldable pub sink_step : SinkStep → UdpSink → UdpSink × List Datagram
unfolding on_new_sample on_datagram drop_client
sink_step (sampled x) s = (on_new_sample x s).1
sink_step (received n from) s = (on_datagram n from s, [])
sink_step retargeted s = (drop_client s, [])

-- All that is sent, in order.
unfoldable pub sink_steps : List SinkStep → UdpSink → UdpSink × List Datagram
unfolding sink_step
sink_steps [] s = (s, [])
sink_steps (x ∷ xs) s =
    let (s1, out) = sink_step x s in let (s2, rest) = sink_steps xs s1 in (s2, out ++ rest)
