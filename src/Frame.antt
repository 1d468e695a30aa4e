-- ===== src/Frame.antt =====
-- common/network/frame_codec.hpp: the checksum, and frames packed and parsed.
pub mod Crc
pub mod Codec
