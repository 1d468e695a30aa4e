-- ===== src/Wire.antt =====
-- common/protocol/protocol_base.hpp: the little-endian writers and readers that every message uses.
-- A vector<char> is a list of bytes, each a number below 256. The pointer `p` of a parser, with the
-- `end` that bounds it, is the list of the bytes that are left.
mod Defs
mod RoundTrip
mod Safety
unfoldable pub use Defs.*
pub use RoundTrip.*
pub use Safety.*
