-- ===== src/Buffers.antt =====
-- common/core: the buffers of the packets.
pub mod Vector
pub mod PacketBuffer
