-- ===== src/Codec.antt =====
-- include/rtp/codec.hpp: the two audio codecs.
pub mod Ulaw
pub mod Adpcm
