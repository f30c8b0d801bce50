-- ===== src/Tests.antt =====
-- Concrete runs of the definitions, and the theorems applied to them.
pub mod Data
pub mod Pairs
pub mod Launches
pub mod Requests
pub mod Frames
pub mod Sound
pub mod Devices
pub mod Channel
pub mod Restarts
pub mod Sockets
pub mod Overlaps
pub mod Encoders
pub mod Configs
pub mod Streams
pub mod Plugged
pub mod Pointers
