-- ===== src/Frame/Crc/Detection.antt =====
-- What the checksum notices: a byte that was changed in transit.
use ecs_asio_server.Common.{ℕ, ◌≡◌, sym, ◌∙◌, List, [], ◌∷◌, ◌++◌, bit_xor, All, arith}
use ecs_asio_server.Common.Bits.{xor-lt, xor_cancel_left, xor_cancel_right}
use ecs_asio_server.Wire.{IsU8, IsU32}
use ecs_asio_server.Frame.Crc.{update, crc_loop, crc32}
use ecs_asio_server.Frame.Crc.Rounds.{
  shift_bits-lt, shift_bits_injective, reference_update, update-reference,
}

fed-lt : (c b : ℕ) → IsU32 c → IsU8 b → IsU32 (bit_xor c b)
fed-lt c b h k = xor-lt 32 c b h (omega arith)

update-lt : (c b : ℕ) → IsU32 c → IsU8 b → IsU32 (update c b)
unfolding reference_update
update-lt c b h k = rw (update-reference c b k) (shift_bits-lt 8 (bit_xor c b) (fed-lt c b h k))

update_fed :
    (c d a b : ℕ)
    → IsU32 c
    → IsU32 d
    → IsU8 a
    → IsU8 b
    → update c a ≡ update d b
    → bit_xor c a ≡ bit_xor d b
unfolding reference_update
update_fed c d a b hc hd ha hb e =
    shift_bits_injective 8 (bit_xor c a) (bit_xor d b) (fed-lt c a hc ha) (fed-lt d b hd hb)
      (sym (update-reference c a ha) ∙ e ∙ update-reference d b hb)

-- Different registers stay different over the same bytes.
crc_loop_injective :
    (bs : List ℕ) (c d : ℕ)
    → All IsU8 bs
    → IsU32 c
    → IsU32 d
    → crc_loop c bs ≡ crc_loop d bs
    → c ≡ d
unfolding crc_loop
crc_loop_injective [] c d h hc hd e = e
crc_loop_injective (b ∷ bs) c d h hc hd e = xor_cancel_right b c d (
    update_fed c d b b hc hd h.0 h.0 (
      crc_loop_injective bs (update c b) (update d b) h.1 (update-lt c b hc h.0)
        (update-lt d b hd h.0) e))

crc_loop_one_byte :
    (front back : List ℕ) (c a b : ℕ)
    → All IsU8 front
    → All IsU8 back
    → IsU32 c
    → IsU8 a
    → IsU8 b
    → crc_loop c (front ++ (a ∷ back)) ≡ crc_loop c (front ++ (b ∷ back))
    → a ≡ b
unfolding crc_loop
crc_loop_one_byte [] back c a b hf hk hc ha hb e = xor_cancel_left c a b (
    update_fed c c a b hc hc ha hb (
      crc_loop_injective back (update c a) (update c b) hk (update-lt c a hc ha)
        (update-lt c b hc hb) e))
crc_loop_one_byte (x ∷ front) back c a b hf hk hc ha hb e =
    crc_loop_one_byte front back (update c x) a b hf.1 hk (update-lt c x hc hf.0) ha hb e

crc_loop-lt : (bs : List ℕ) (c : ℕ) → All IsU8 bs → IsU32 c → IsU32 (crc_loop c bs)
unfolding crc_loop
crc_loop-lt [] c h hc = hc
crc_loop-lt (b ∷ bs) c h hc = crc_loop-lt bs (update c b) h.1 (update-lt c b hc h.0)

-- The checksum is a 32-bit number.
pub crc32-lt : (bytes : List ℕ) → All IsU8 bytes → IsU32 (crc32 bytes)
unfolding crc32
crc32-lt bytes h = xor-lt 32 _ _ (crc_loop-lt bytes 0xFFFFFFFF h (omega arith)) (omega arith)

-- Two byte strings that differ in one byte have different checksums: where the checksums agree, so do
-- the bytes at the place.
pub crc32_one_byte :
    (front back : List ℕ) (a b : ℕ)
    → All IsU8 front
    → All IsU8 back
    → IsU8 a
    → IsU8 b
    → crc32 (front ++ (a ∷ back)) ≡ crc32 (front ++ (b ∷ back))
    → a ≡ b
unfolding crc32
crc32_one_byte front back a b hf hk ha hb e =
    crc_loop_one_byte front back 0xFFFFFFFF a b hf hk (omega arith) ha hb
      (xor_cancel_right 0xFFFFFFFF _ _ e)
