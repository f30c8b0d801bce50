-- ===== src/Pairing.antt =====
-- The PIN handshake of a Moonlight client: the XML answers of moonlight_proto.cpp, the pairing
-- state of state.cpp, and the handlers of servers.cpp (all in server/src/server).
pub mod Crypto
pub mod Protocol
pub mod State
pub mod Server
pub mod Order
pub mod Trust
pub mod Branches
pub mod Unpair
