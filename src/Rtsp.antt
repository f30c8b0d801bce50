-- ===== src/Rtsp.antt =====
-- The RTSP server (server/src/server/rtsp_commands.hpp, and the packet of
-- server/src/moonlight-protocol/rtsp/parser.hpp).
pub mod Packet
pub mod Audio
pub mod Commands
pub mod Params
pub mod Handler
pub mod Socket
pub mod Reassembly
pub mod Isolation
