-- ===== src/Frame/Codec/RoundTrip.antt =====
-- try_parse_one on what pack wrote: whole, damaged, cut short or too large.
use ecs_asio_server.Common.{
  ℕ, ◌+◌, ◌-◌, ◌^◌, ◌<◌, ◌≡◌, ◌≢◌, refl, sym, ap, ◌∙◌, subst, List, ◌∷◌, ◌++◌, true, false, length,
  All, arith, ltb, length-append, ◌==◌, eq→==, ne→==, All-front, All-back, Bool-cases, inl, inr,
}
use ecs_asio_server.Wire.{IsU8}
use ecs_asio_server.Frame.Crc.{crc32}
use ecs_asio_server.Frame.Crc.Detection.{crc32_one_byte}
use ecs_asio_server.Frame.Codec.{Message, nothing, frame, pack, header_of, try_parse_one}
use ecs_asio_server.Frame.Codec.Steps.{
  Fits, pack_with, length-pack_with, read_frame_lem, after_len_frame, read_length, read_le32_prefix,
  after_len_short, after_len_long, pack-pack_with, length-pack, try_parse_one_at, try_parse_one_few,
}

-- One frame, its checksum compared with that of the bytes that came in the place of the payload.
try_parse_one-pack_with :
    (front : List ℕ) (m : Message) (p rest : List ℕ)
    → Fits m
    → length p ≡ length m.payload
    → length (front ++ (pack_with m p ++ rest)) < 2 ^ 64
    → try_parse_one (front ++ (pack_with m p ++ rest)) (length front)
      ≡ frame (header_of m) p (crc32 p == crc32 m.payload) (length front + (16 + length m.payload))
try_parse_one-pack_with front m p rest f same small =
    let n : ℕ = 12 + length m.payload in
    let s = pack_with m p ++ rest in
    let size = length-append (pack_with m p) rest in
    try_parse_one_at front s small (omega (arith, size, length-pack_with m p))
    ∙ rw (read_length m p rest (omega (arith, f.room))) (
        after_len_frame (length (front ++ s)) (length front) (length s) n _ (header_of m) p rest
          (omega (arith, f.room)) (omega (arith, size, length-pack_with m p)) (omega arith)
          (read_frame_lem m p rest f (n - 12) (omega arith))
        ∙ (unfold header_of in
            ap (frame (header_of m) p (crc32 p == crc32 m.payload)) (omega arith)))

-- A frame that pack wrote for a message with a payload of at most 2^20 - 12 bytes, whose fields fit their
-- widths (Fits), is parsed back: header, payload, a checksum that agrees and an offset just behind it,
-- wherever the frame stands in an accumulator of fewer than 2^64 bytes and whatever bytes follow it.
pub try_parse_one-pack :
    (front : List ℕ) (m : Message) (rest : List ℕ)
    → Fits m
    → length (front ++ (pack m ++ rest)) < 2 ^ 64
    → try_parse_one (front ++ (pack m ++ rest)) (length front)
      ≡ frame (header_of m) m.payload true (length front + length (pack m))
try_parse_one-pack front m rest f small =
    let e = pack-pack_with m in
    rw e (
      try_parse_one-pack_with front m m.payload rest f refl (rw e at small)
      ∙ rw (eq→== (crc32 m.payload) (crc32 m.payload) refl, length-pack_with))

-- The frame that pack wrote for a message with a payload of at most 2^20 - 12 bytes, whose fields fit
-- their widths (Fits), is parsed with `crc_ok` false if one byte of the payload was changed on the way, and
-- the offset passes it, wherever the frame stands in an accumulator of fewer than 2^64 bytes.
pub try_parse_one_damaged :
    (front rest pre post : List ℕ) (m : Message) (a b : ℕ)
    → Fits m
    → m.payload ≡ pre ++ (a ∷ post)
    → IsU8 b
    → a ≢ b
    → length (front ++ (pack_with m (pre ++ (b ∷ post)) ++ rest)) < 2 ^ 64
    → try_parse_one (front ++ (pack_with m (pre ++ (b ∷ post)) ++ rest)) (length front)
      ≡ frame (header_of m) (pre ++ (b ∷ post)) false (length front + length (pack m))
try_parse_one_damaged front rest pre post m a b f e hb differ small =
    try_parse_one-pack_with front m (pre ++ (b ∷ post)) rest f same small
    ∙ rw (ne→== (crc32 (pre ++ (b ∷ post))) (crc32 m.payload) noticed, length-pack)
  where
    bytes : All IsU8 (pre ++ (a ∷ post))
    bytes = subst (All IsU8) e f.bytes

    same : length (pre ++ (b ∷ post)) ≡ length m.payload
    same = rw e (omega (arith, length-append pre (b ∷ post), length-append pre (a ∷ post)))

    noticed : crc32 (pre ++ (b ∷ post)) ≢ crc32 m.payload
    noticed q = differ (
        sym (
          crc32_one_byte pre post b a (All-front IsU8 pre (a ∷ post) bytes)
            (All-back IsU8 pre (a ∷ post) bytes).1 hb (All-back IsU8 pre (a ∷ post) bytes).0
            (q ∙ ap crc32 e)))

-- As long as a frame has not come in whole, whatever will follow, try_parse_one finds nothing and
-- leaves the offset: `t` is a proper front of the frame.
pub try_parse_one_incomplete :
    (front : List ℕ) (m : Message) (t v w : List ℕ)
    → Fits m
    → t ++ v ≡ pack m ++ w
    → length t < length (pack m)
    → length (front ++ t) < 2 ^ 64
    → try_parse_one (front ++ t) (length front) ≡ nothing (length front)
try_parse_one_incomplete front m t v w f e short small = elim (Bool-cases (ltb (length t) 4)) [
  | inl few ↦ try_parse_one_few front t small (ground arith)
  | inr enough ↦
      let n : ℕ = 12 + length m.payload in
      let (s, r) =
        read_le32_prefix t v _ n _ (ground arith) (e ∙ ap (λ x. x ++ w) (pack-pack_with m))
          (read_length m m.payload w (omega (arith, f.room))) in
      try_parse_one_at front t small (ground arith)
      ∙ rw r (
          after_len_short (length (front ++ t)) (length front) (length t) n s
            (omega (arith, f.room)) (omega (arith, length-pack m)))
]

-- A payload of more than 2^20 - 12 bytes is packed all the same, and makes the parser drop it with
-- all that the accumulator holds behind it: nothing is found and the offset goes to the end.
pub try_parse_one_oversized :
    (front : List ℕ) (m : Message) (rest : List ℕ)
    → 2 ^ 20 < length m.payload + 12
    → length m.payload + 12 < 2 ^ 32
    → length (front ++ (pack m ++ rest)) < 2 ^ 64
    → try_parse_one (front ++ (pack m ++ rest)) (length front)
      ≡ nothing (length (front ++ (pack m ++ rest)))
try_parse_one_oversized front m rest large fits small =
    let s = pack m ++ rest in
    try_parse_one_at front s small (omega (arith, length-append (pack m) rest, length-pack m))
    ∙ rw (pack-pack_with m, read_length m m.payload rest (omega arith))
        (after_len_long _ (length front) _ (12 + length m.payload) _ (omega arith))
