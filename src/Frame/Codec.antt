-- ===== src/Frame/Codec.antt =====
-- pack and try_parse_one of common/network/frame_codec.hpp. The accumulator is a list of bytes; the
-- reads through `base` run on the bytes from the offset on, and a read past the end is a fault.
-- put_le16, put_le32, get_le16 and get_le32 of that file are write_le16, write_le32, read_le16 and
-- read_le32 of Wire: the same expressions over the same bytes.
pub mod Bounds
pub mod Steps
pub mod RoundTrip
use ecs_asio_server.Common.{
  ℕ, ◌+◌, ◌-◌, ◌*◌, ◌%◌, ◌^◌, List, ◌∷◌, ◌++◌, [], length, take, drop, Bool, ltb, ◌==◌,
  if◌then◌else◌,
}
use ecs_asio_server.Wire.{
  Parsed, ok, reject, fault, Parser, ◌>>=◌, ◌>>◌, accept, read_u8, read_le16, read_le32, write_le16,
  write_le32,
}
use ecs_asio_server.Frame.Crc.{crc32}

abbrev pub proto_ver : ℕ
proto_ver = 1

-- cmd(2) + flags(1) + ver(1) + seq(4) + crc(4)
abbrev pub header_after_len : ℕ
header_after_len = 12

abbrev pub max_frame_bytes : ℕ
max_frame_bytes = 2 ^ 20

pub record HeaderV1 : Type 0 where
  pub cmd : ℕ
  pub flags : ℕ
  pub ver : ℕ
  pub seq : ℕ
  pub crc : ℕ

-- The arguments of `pack`.
pub record Message : Type 0 where
  pub cmd : ℕ
  pub flags : ℕ
  pub ver : ℕ
  pub seq : ℕ
  pub payload : List ℕ

-- What stands behind the length and the header's first fields: the checksum and the payload.
unfoldable pub pack_tail : List ℕ → List ℕ
pack_tail payload = write_le32 (crc32 payload) ++ payload

unfoldable pub pack_header : Message → List ℕ
pack_header m = write_le16 m.cmd ++ (m.flags ∷ m.ver ∷ write_le32 m.seq)

unfoldable pub pack : Message → List ℕ
pack m =
    write_le32 ((header_after_len + length m.payload) % 2 ^ 32)
    ++ (pack_header m ++ pack_tail m.payload)

-- The header that `pack` writes.
unfoldable pub header_of : Message → HeaderV1
header_of m = record {
  cmd = m.cmd;
  flags = m.flags;
  ver = m.ver;
  seq = m.seq;
  crc = crc32 m.payload;
}

-- A return of false with the offset as it was left, or a frame with the flag `crc_ok`.
pub data Attempt : Type 0 where
  nothing : ℕ → Attempt
  frame : HeaderV1 → List ℕ → Bool → ℕ → Attempt
  overread : Attempt

-- `std::string_view(payload_ptr, payload_sz)`, of which every byte is read for the checksum.
unfoldable pub read_view : ℕ → Parser (List ℕ)
read_view n s = if ltb (length s) n then fault else ok (take n s) (drop n s)

unfoldable pub read_header : Parser HeaderV1
read_header = do
  cmd ← read_le16
  flags ← read_u8
  ver ← read_u8
  seq ← read_le32
  crc ← read_le32
  accept (record { cmd = cmd; flags = flags; ver = ver; seq = seq; crc = crc })

unfoldable pub read_frame : ℕ → Parser (HeaderV1 × List ℕ)
read_frame payload_sz = do hdr ← read_header; payload ← read_view payload_sz; accept (hdr, payload)

unfoldable pub finish : ℕ → Parsed (HeaderV1 × List ℕ) → Attempt
finish offset (ok (hdr, payload) rest) = frame hdr payload (crc32 payload == hdr.crc) offset
finish offset reject = overread
finish offset fault = overread

-- The body behind the read of the length; `acc_size` is `acc.size()`.
unfoldable pub parse_after_len : ℕ → ℕ → ℕ → Parsed ℕ → Attempt
parse_after_len acc_size offset avail (ok len rest) =
    if ltb max_frame_bytes len
    then nothing acc_size
    else if ltb avail (4 + len)
    then nothing offset
    else if ltb len header_after_len
    then nothing acc_size
    else finish (offset + (4 + len)) (read_frame (len - header_after_len) rest)
parse_after_len acc_size offset avail reject = overread
parse_after_len acc_size offset avail fault = overread

unfoldable pub try_parse_one : List ℕ → ℕ → Attempt
try_parse_one acc offset =
    let avail = (length acc + 2 ^ 64 - offset) % 2 ^ 64 in
    if ltb avail 4
    then nothing offset
    else parse_after_len (length acc) offset avail (read_le32 (drop offset acc))
