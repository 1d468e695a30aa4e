-- ===== src/Frame/Crc.antt =====
-- crc32 of common/network/frame_codec.hpp: the table and the loop over the bytes.
pub mod Rounds
pub mod Detection
use ecs_asio_server.Common.{
  ℕ, zero, suc, ◌/◌, ◌^◌, List, [], ◌∷◌, bit_and, bit_xor, ◌==◌, if◌then◌else◌,
}

abbrev pub polynomial : ℕ
polynomial = 0xEDB88320

-- `c = (c & 1) ? (0xEDB88320u ^ (c >> 1)) : (c >> 1)`
unfoldable pub shift_bit : ℕ → ℕ
shift_bit c = if bit_and c 1 == 0 then c / 2 else bit_xor polynomial (c / 2)

unfoldable pub shift_bits : ℕ → ℕ → ℕ
shift_bits zero c = c
shift_bits (suc k) c = shift_bits k (shift_bit c)

-- `table[i]`, as the first call fills it.
unfoldable pub table : ℕ → ℕ
unfolding shift_bits shift_bit
table i = shift_bits 8 i

-- `c = table[(c ^ data[i]) & 0xFF] ^ (c >> 8)`
unfoldable pub update : ℕ → ℕ → ℕ
update c b = bit_xor (table (bit_and (bit_xor c b) 0xFF)) (c / 2 ^ 8)

unfoldable pub crc_loop : ℕ → List ℕ → ℕ
crc_loop c [] = c
crc_loop c (b ∷ bs) = crc_loop (update c b) bs

unfoldable pub crc32 : List ℕ → ℕ
unfolding crc_loop update table
crc32 bytes = bit_xor (crc_loop 0xFFFFFFFF bytes) 0xFFFFFFFF
