-- ===== src/Video/Split.antt =====
-- The number of FEC packets of a block, and the announced percentage (video.hpp,
-- `determine_split`).
