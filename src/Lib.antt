-- ===== src/Lib.antt =====
-- steamos-containerized: a Moonlight streaming server (server/src) for SteamOS in a container.
--
-- In server/src/server, a client pairs over HTTP with a PIN (servers.cpp, moonlight_proto.cpp,
-- state.cpp), launches or resumes a session over HTTPS with its certificate (servers.cpp),
-- negotiates it over RTSP (rtsp_commands.hpp), and starts the media with PLAY (main.cpp); the
-- payloaders of server/src/gst-plugin cut video and audio into RTP packets. The servers share one
-- `AppState`, which holds the trusted certificates, and one `SessionRegistry` (session.hpp), whose
-- sessions are shared pointers.
--
-- Common         lists, bytes as text, integers and association lists that the parts share.
-- StdLib         what the server calls of the C++ library and of `float`, as parameters.
-- Session        server/src/server/session.hpp. A session is a cell of a heap, and the registry
--                lists the numbers of cells; `remove_if`, the searches and `next_id` are functions.
-- Pairing        server/src/server/moonlight_proto.cpp, state.cpp and servers.cpp. `http_pair` is
--                split by its phases; a detached thread that waits for a PIN is a `Waiter`, and
--                `finish_wait` is its second half. Pairing.Trust runs any sequence of events.
-- Identity       server/src/server/state.cpp: `AppState::init` on a state directory, which gives the
--                key, the certificate and the clients that Pairing starts from; `cert_from_file` and
--                `pkey_from_file` of server/src/moonlight-protocol/crypto/src/x509.cpp, which throw.
-- Launch         server/src/server/servers.cpp: `launch_like`, `create_launch_session`, `/cancel`;
--                Launch.Info has the answers of /serverinfo, /applist and the HTTPS /pair.
-- Rtsp           server/src/server/rtsp_commands.hpp and the printer of
--                server/src/moonlight-protocol/rtsp/parser.hpp. Rtsp.Socket is rtsp_server.cpp: the
--                reads of a connection, and the session that a message is handed to.
-- Video          server/src/gst-plugin/video.hpp: a frame is cut into RTP packets, and gets FEC.
-- Audio          server/src/gst-plugin/audio.hpp and utils.hpp: audio packets, and FEC by fours.
-- Lifecycle      server/src/server/main.cpp: PLAY and stop on the one media session that is held,
--                one call after another; Lifecycle.Threads has them as interleaved threads.
-- Input          server/src/server/uinput.cpp: the events of the virtual mouse, keyboard and pad, and
--                what each asks of the kernel. `VirtualGamepad::update` is `update`.
-- Control        server/src/server/control.cpp and control_packets.hpp: one turn of the loop of
--                `ControlServer::run` on the map of peers, and the decoding of input packets.
--                Control.Pads is the map of pads of media.cpp.
-- Pointer        server/src/server/pointer_sync.cpp: the polls of one X server, and in Pointer.Servers
--                the loop over all of them.
-- Encoder        server/src/server/encoder_config.cpp: the compiled-in configuration, its file, its
--                checks, and the choice of an encoder. toml++ is the record Encoder.Toml, a stream to
--                a file is the record `Writer`, and which elements can be made is a parameter.
-- Media          server/src/server/media.cpp. Media has the UDP sinks, Media.Pipelines the texts that
--                GStreamer gets, Media.Live a `MediaSession`, and Media.Processes how `stop` ends the
--                application; the kernel is the record `Host`. GStreamer's answers come with a call.
-- Launcher       server/src/server/launcher.cpp: the calls of the child that runs the application or
--                the script of the Pulse sink, and its environment.
-- FakeUdev       server/src/server/fake_udev.cpp: the bytes of the events of a virtual device, and its
--                entry below /run/udev.
-- Tests          concrete runs, and the theorems applied to concrete inputs.
--
-- A launched session is negotiated by Rtsp, which calls the player of Lifecycle; a peer of Control
-- that matches the session sends input, which goes to the pads of Input. The media session that the
-- player starts or stops is one of Media: it builds its pipelines from the configuration of Encoder and
-- launches the application with Launcher; the devices of Input are announced by FakeUdev.
--
-- Requests are steps of functions on explicit state, one request at a time: the handlers lock the
-- registry and the pairing cache for each access, and interleavings finer than a request are not
-- modelled, save those of the threads that wait for a PIN and those of PLAY and stop, which
-- Lifecycle.Threads cuts where main.cpp takes and drops its lock. Every loop is structural
-- recursion, so no fuel is used: the loop that cuts a frame recurses on the turns left, and those
-- that poll the processes on the polls left. The
-- `int` values of a negotiation are integers without overflow; the 64-bit counter of session ids, the
-- 16-bit and 32-bit sequence numbers, and the sizes of the control channel and of the RTSP buffer
-- wrap. Clocks are numbers of milliseconds that come with an event.
--
-- The crypto library is a copy of another project's and stands for itself as the parameters of
-- Pairing.Crypto and of Control; so does the Reed-Solomon encoder. The grammar of RTSP requests is
-- run by cpp-peglib, which is not in the repository. A read past the end of a control packet and
-- a write past the end of a shard buffer of audio are undefined, and have no result here. What GStreamer, ENet, sockets and the calls of uinput do inside, the wait for the compositor
-- before the application is launched, and the diagnostics of the encoder are not modelled; nor is what
-- is only logged.
pub mod Common
pub mod StdLib
pub mod Session
pub mod Pairing
pub mod Launch
pub mod Rtsp
pub mod Video
pub mod Audio
pub mod Lifecycle
pub mod Input
pub mod Identity
pub mod Control
pub mod Encoder
pub mod Pointer
pub mod Media
pub mod Launcher
pub mod FakeUdev
pub mod Tests
