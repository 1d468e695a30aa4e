-- ===== src/Frame/Codec/Steps.antt =====
-- The steps of try_parse_one, each at the input that it meets on a frame that pack wrote.
use ecs_asio_server.Common.{
  ℕ, ◌+◌, ◌-◌, ◌%◌, ◌^◌, ◌≤◌, ◌<◌, ◌≡◌, refl, ap, ◌∙◌, List, ◌∷◌, ◌++◌, length, All, arith, le→ltb,
  lt→ltb, length-append, take-append, drop-append, append_assoc, ◌==◌,
}
use native.Mathlib.Nat.{mod-eq_of_lt}
use ecs_asio_server.Wire.{
  ok, ◌>>=◌, ◌>>◌, accept, read_le32, write_le32, write_le16, read_u8-cons, read_le16-write_le16,
  read_le32-write_le32, IsU8, IsU16, IsU32,
}
use ecs_asio_server.Frame.Crc.{crc32}
use ecs_asio_server.Frame.Crc.Detection.{crc32-lt}
use ecs_asio_server.Frame.Codec.{
  Message, HeaderV1, nothing, frame, pack, pack_header, pack_tail, header_of, read_frame,
  read_header, read_view, finish, parse_after_len, try_parse_one,
}

-- A message whose fields have their widths and whose frame is within the limit of the parser.
pub record Fits (m : Message) : Type 0 where
  pub cmd : IsU16 m.cmd
  pub seq : IsU32 m.seq
  pub bytes : All IsU8 m.payload
  pub room : length m.payload + 12 ≤ 2 ^ 20

-- The frame of `m` with other bytes in the place of the payload.
abbrev pub pack_with : Message → List ℕ → List ℕ
pack_with m p =
    write_le32 ((12 + length m.payload) % 2 ^ 32)
    ++ (pack_header m ++ (write_le32 (crc32 m.payload) ++ p))

pub length-pack_with : (m : Message) (p : List ℕ) → length (pack_with m p) ≡ 16 + length p
unfolding pack_header write_le32 write_le16
length-pack_with m p = omega arith

read_view-append : (p rest : List ℕ) (n : ℕ) → length p ≡ n → read_view n (p ++ rest) ≡ ok p rest
unfolding read_view
read_view-append p rest n h = rw (
  le→ltb (length (p ++ rest)) n (omega (arith, length-append p rest)),
  take-append p rest n h,
  drop-append p rest n h,
)

pub read_frame_lem :
    (m : Message) (p rest : List ℕ)
    → Fits m
    → (n : ℕ) → length p ≡ n
    → read_frame n (pack_header m ++ (write_le32 (crc32 m.payload) ++ (p ++ rest)))
      ≡ ok (header_of m, p) rest
unfolding read_frame read_header pack_header header_of
read_frame_lem m p rest f n h = simp (
  ◌>>=◌,
  ◌>>◌,
  accept,
  append_assoc,
  read_le16-write_le16 m.cmd f.cmd,
  read_u8-cons,
  read_le32-write_le32 m.seq f.seq,
  read_le32-write_le32 (crc32 m.payload) (crc32-lt m.payload f.bytes),
  read_view-append p rest n h,
)

pub after_len_frame :
    (size offset avail len : ℕ) (s : List ℕ) (hdr : HeaderV1) (p rest : List ℕ)
    → len ≤ 2 ^ 20
    → 4 + len ≤ avail
    → 12 ≤ len
    → read_frame (len - 12) s ≡ ok (hdr, p) rest
    → parse_after_len size offset avail (ok len s)
      ≡ frame hdr p (crc32 p == hdr.crc) (offset + (4 + len))
unfolding parse_after_len finish
after_len_frame size offset avail len s hdr p rest h k l e =
    rw (le→ltb (2 ^ 20) len h, le→ltb avail (4 + len) k, le→ltb len 12 l, e)

pub read_length :
    (m : Message) (p rest : List ℕ)
    → 12 + length m.payload < 2 ^ 32
    → read_le32 (pack_with m p ++ rest)
      ≡ ok (12 + length m.payload) (pack_header m ++ (write_le32 (crc32 m.payload) ++ (p ++ rest)))
read_length m p rest n<32 =
    simp (append_assoc, mod-eq_of_lt n<32, read_le32-write_le32 (12 + length m.payload) n<32)

-- The first steps of try_parse_one on an accumulator `front ++ s`, with the offset behind `front`.
pub try_parse_one_at :
    (front s : List ℕ)
    → length (front ++ s) < 2 ^ 64
    → 4 ≤ length s
    → try_parse_one (front ++ s) (length front)
      ≡ parse_after_len (length (front ++ s)) (length front) (length s) (read_le32 s)
unfolding try_parse_one
try_parse_one_at front s small enough =
    let size = length-append front s in
    let avail : (length (front ++ s) + 2 ^ 64 - length front) % 2 ^ 64 ≡ length s =
      omega (arith, size) in
    rw (avail, le→ltb (length s) 4 enough, drop-append front s (length front) refl)

pub try_parse_one_few :
    (front s : List ℕ)
    → length (front ++ s) < 2 ^ 64
    → length s < 4
    → try_parse_one (front ++ s) (length front) ≡ nothing (length front)
unfolding try_parse_one
try_parse_one_few front s small few =
    let size = length-append front s in
    let avail : (length (front ++ s) + 2 ^ 64 - length front) % 2 ^ 64 ≡ length s =
      omega (arith, size) in
    rw (avail, lt→ltb (length s) 4 few)

pub after_len_long :
    (size offset avail len : ℕ) (s : List ℕ)
    → 2 ^ 20 < len
    → parse_after_len size offset avail (ok len s) ≡ nothing size
unfolding parse_after_len
after_len_long size offset avail len s h = rw (lt→ltb (2 ^ 20) len h)

pub read_le32_prefix :
    (t v u : List ℕ) (n : ℕ) (r : List ℕ)
    → 4 ≤ length t
    → t ++ v ≡ u
    → read_le32 u ≡ ok n r
    → (s : List ℕ) × (read_le32 t ≡ ok n s)
unfolding read_le32
read_le32_prefix (a ∷ b ∷ c ∷ d ∷ s) v u n r h e q = (s, cc (ap read_le32 e ∙ q))
read_le32_prefix t v u n r h e q = absurd (omega arith)

pub after_len_short :
    (size offset avail len : ℕ) (s : List ℕ)
    → len ≤ 2 ^ 20
    → avail < 4 + len
    → parse_after_len size offset avail (ok len s) ≡ nothing offset
unfolding parse_after_len
after_len_short size offset avail len s h k = rw (le→ltb (2 ^ 20) len h, lt→ltb avail (4 + len) k)

pub pack-pack_with : (m : Message) → pack m ≡ pack_with m m.payload
unfolding pack pack_tail
pack-pack_with m = refl

pub length-pack : (m : Message) → length (pack m) ≡ 16 + length m.payload
length-pack m = ap length (pack-pack_with m) ∙ length-pack_with m m.payload
