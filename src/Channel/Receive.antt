-- ===== src/Channel/Receive.antt =====
-- The read side of asio_channel: the handler of async_read_some and parse_frames_.
pub mod Loop
pub mod Frames
pub mod Stream
use ecs_asio_server.Common.{
  ℕ, zero, suc, ◌+◌, ◌/◌, ◌%◌, ◌^◌, List, [], ◌∷◌, ◌++◌, Bool, true, false, length, drop, ltb,
  if◌then◌else◌,
}
use ecs_asio_server.Frame.Codec.{HeaderV1, Attempt, nothing, frame, overread, try_parse_one}
use ecs_asio_server.Channel.{Channel}

-- How the loop of parse_frames_ ends: by its `break`, with the offset, the frames that were handed to
-- on_frame_ and the number of those that were dropped; by a read outside the accumulator; or, in the
-- model only, for want of fuel.
pub data Outcome : Type 0 where
  done : ℕ → List (ℕ × List ℕ) → ℕ → Outcome
  outside : Outcome
  stuck : Outcome

-- `for (;;) { … }`. on_frame_ is set by the server before the channel starts.
unfoldable pub parse_loop : ℕ → List ℕ → ℕ → List (ℕ × List ℕ) → ℕ → Outcome
parse_loop zero acc offset frames dropped = stuck
parse_loop (suc fuel) acc offset frames dropped = elim (try_parse_one acc offset) [
  | nothing o ↦ done o frames dropped
  | frame hdr payload crc_ok o ↦
      let good = parse_loop fuel acc o (frames ++ ((hdr.cmd, payload) ∷ [])) dropped in
      let bad = parse_loop fuel acc o frames (dropped + 1) in if crc_ok then good else bad
  | overread ↦ outside
]

-- The end of parse_frames_: what is consumed is erased once it is more than half.
unfoldable pub compact : Channel → Channel
compact c =
    if ltb (length c.frame_acc / 2) c.frame_acc_offset
    then record c { frame_acc = drop c.frame_acc_offset c.frame_acc; frame_acc_offset = 0 }
    else c

unfoldable pub after_loop : Channel → Outcome → Channel
after_loop c (done o frames dropped) = compact (record c {
  frame_acc_offset = o;
  delivered = c.delivered ++ frames;
  drops = (c.drops + dropped) % 2 ^ 64;
})
after_loop c outside = c
after_loop c stuck = c

-- Each round that goes on passes a header, so a round for each byte and one more are enough.
unfoldable pub parse_frames : Channel → Channel
parse_frames c =
    after_loop c (parse_loop (length c.frame_acc + 1) c.frame_acc c.frame_acc_offset [] 0)

-- The handler of a read that brought `chunk`.
unfoldable pub on_read : List ℕ → Channel → Channel
on_read chunk c = parse_frames (record c { frame_acc = c.frame_acc ++ chunk })

unfoldable pub read_all : List (List ℕ) → Channel → Channel
read_all [] c = c
read_all (chunk ∷ chunks) c = read_all chunks (on_read chunk c)
