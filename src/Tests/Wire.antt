-- ===== src/Tests/Wire.antt =====
-- Frames and checksums at concrete inputs.
use ecs_asio_server.Common.{
  ℕ, ◌+◌, ◌^◌, ◌≡◌, refl, List, [], ◌∷◌, ◌++◌, true, false, length, length-append, arith,
}
use ecs_asio_server.Tests.Long.{zeros}
use ecs_asio_server.Frame.Crc.{shift_bits, shift_bit, table, update, crc_loop, crc32}
use ecs_asio_server.Frame.Crc.Rounds.{reference_crc32, crc32-eq-reference_crc32}
use ecs_asio_server.Frame.Codec.{Message, pack, header_of, nothing, frame, try_parse_one}
use ecs_asio_server.Frame.Codec.Bounds.{StaysWithin, try_parse_one-StaysWithin}
use ecs_asio_server.Frame.Codec.Steps.{Fits, pack_with, length-pack, length-pack_with}
use ecs_asio_server.Frame.Codec.RoundTrip.{
  try_parse_one-pack, try_parse_one_damaged, try_parse_one_oversized,
}

-- The check value of the checksum: that of the digits 1 to 9.
crc32_check : crc32 (0x31 ∷ 0x32 ∷ 0x33 ∷ 0x34 ∷ 0x35 ∷ 0x36 ∷ 0x37 ∷ 0x38 ∷ 0x39 ∷ []) ≡ 0xCBF43926
unfolding crc32 crc_loop update table shift_bits shift_bit
crc32_check = refl

crc32-eq-reference_crc32_example : crc32 (1 ∷ 2 ∷ 3 ∷ []) ≡ reference_crc32 (1 ∷ 2 ∷ 3 ∷ [])
crc32-eq-reference_crc32_example =
    crc32-eq-reference_crc32 (1 ∷ 2 ∷ 3 ∷ []) (omega arith, (omega arith, (omega arith, tt)))

abbrev seven : ℕ
seven = 7

abbrev hello : Message
hello = record { cmd = 3; flags = 0; ver = 1; seq = 9; payload = 104 ∷ 105 ∷ [] }

hello-Fits : Fits hello
hello-Fits = record {
  cmd = omega arith;
  seq = omega arith;
  bytes = (omega arith, (omega arith, tt));
  room = omega arith;
}

try_parse_one-pack_example :
    try_parse_one ((1 ∷ []) ++ (pack hello ++ (2 ∷ []))) 1
    ≡ frame (header_of hello) (104 ∷ 105 ∷ []) true (1 + length (pack hello))
try_parse_one-pack_example =
    try_parse_one-pack (1 ∷ []) hello (2 ∷ []) hello-Fits
      (omega (arith, length-append (pack hello) (2 ∷ []), length-pack hello))

try_parse_one_damaged_example :
    try_parse_one ([] ++ (pack_with hello (104 ∷ 106 ∷ []) ++ [])) 0
    ≡ frame (header_of hello) (104 ∷ 106 ∷ []) false (0 + length (pack hello))
try_parse_one_damaged_example =
    try_parse_one_damaged [] [] (104 ∷ []) [] hello 105 106 hello-Fits refl (omega arith)
      (λ e. absurd (omega (arith, e)))
      (omega (
        arith,
        length-append (pack_with hello (104 ∷ 106 ∷ [])) [],
        length-pack_with hello (104 ∷ 106 ∷ []),
      ))

try_parse_one-StaysWithin_example :
    StaysWithin 5 1 (try_parse_one (9 ∷ 255 ∷ 255 ∷ 255 ∷ 255 ∷ []) 1)
try_parse_one-StaysWithin_example =
    try_parse_one-StaysWithin (9 ∷ 255 ∷ 255 ∷ 255 ∷ 255 ∷ []) 1 (omega arith) (omega arith)

many : (xs : List ℕ) × (length xs ≡ 2 ^ 20)
many = zeros (2 ^ 20)

abbrev large : Message
large = record { cmd = 3; flags = 0; ver = 1; seq = 9; payload = many.0 }

try_parse_one_oversized_example :
    try_parse_one ([] ++ (pack large ++ [])) 0 ≡ nothing (length ([] ++ (pack large ++ [])))
try_parse_one_oversized_example =
    try_parse_one_oversized [] large [] (omega (arith, many.1)) (omega (arith, many.1))
      (omega (arith, length-append (pack large) [], length-pack large, many.1))
