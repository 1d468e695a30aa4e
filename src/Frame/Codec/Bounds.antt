-- ===== src/Frame/Codec/Bounds.antt =====
-- try_parse_one on any accumulator, well formed or not.
use ecs_asio_server.Common.{
  ℕ, ◌+◌, ◌-◌, ◌*◌, ◌%◌, ◌^◌, ◌≤◌, ◌<◌, ◌≡◌, List, ◌∷◌, length, drop, arith, ltb, Bool-cases, inl,
  inr, length-drop, length-take,
}
use ecs_asio_server.Wire.{read_u8, read_le16, read_le32}
use ecs_asio_server.Frame.Codec.{
  Attempt, nothing, frame, overread, read_frame, read_header, read_view, finish, parse_after_len,
  try_parse_one,
}

-- An attempt that stays within an accumulator of `size` bytes, from `offset` on: a frame takes the
-- sixteen bytes of its header and its payload, and the offset does not pass the end.
abbrev pub StaysWithin : ℕ → ℕ → Attempt → Type 0
StaysWithin size offset (nothing o) = (offset ≤ o) × (o ≤ size)
StaysWithin size offset (frame h p c o) = (offset + 16 + length p ≡ o) × (o ≤ size)
StaysWithin size offset overread = ⊥

finish-StaysWithin :
    (size offset len : ℕ) (s : List ℕ)
    → 12 ≤ len
    → len ≤ length s
    → offset + 4 + length s ≤ size
    → StaysWithin size offset (finish (offset + (4 + len)) (read_frame (len - 12) s))
unfolding finish read_frame read_header read_view read_u8 read_le16 read_le32
finish-StaysWithin size offset len (a ∷ b ∷ c ∷ d ∷ e ∷ f ∷ g ∷ h ∷ i ∷ j ∷ k ∷ l ∷ s) lo hi fits =
    ground (arith, length-take (len - 12) s)
finish-StaysWithin size offset len _ lo hi fits = absurd (omega arith)

after_len-StaysWithin :
    (size offset : ℕ) (s : List ℕ)
    → 4 ≤ length s
    → offset + length s ≡ size
    → StaysWithin size offset (parse_after_len size offset (length s) (read_le32 s))
unfolding parse_after_len read_le32
after_len-StaysWithin size offset (a ∷ b ∷ c ∷ d ∷ s) room fits =
    ground (arith, finish-StaysWithin size offset (a + b * 2 ^ 8 + c * 2 ^ 16 + d * 2 ^ 24) s)
after_len-StaysWithin size offset _ room fits = absurd (omega arith)

-- From an offset within the accumulator, try_parse_one reads no byte outside it; what it leaves is an
-- offset within it that does not go back, and that passes exactly the header and the payload of a
-- frame that it returns.
pub try_parse_one-StaysWithin :
    (acc : List ℕ) (offset : ℕ)
    → offset ≤ length acc
    → length acc < 2 ^ 64
    → StaysWithin (length acc) offset (try_parse_one acc offset)
unfolding try_parse_one
try_parse_one-StaysWithin acc offset h small =
    let avail : (length acc + 2 ^ 64 - offset) % 2 ^ 64 ≡ length (drop offset acc) =
      omega (arith, length-drop offset acc) in
    rw avail (elim (Bool-cases (ltb (length (drop offset acc)) 4)) [
      | inl few ↦ rw few (omega arith, omega arith)
      | inr enough ↦ rw enough (
          after_len-StaysWithin (length acc) offset (drop offset acc) (ground arith)
            (omega (arith, length-drop offset acc)))
    ])
